-- ===== src/Autom/Write.antt =====
-- What autom_write leaves in the block.
use package_compile_sys.Common.{
  ℕ, zero, suc, ◌+◌, ◌-◌, ◌%◌, ◌≤◌, ◌<◌, ◌≡◌, refl, sym, ap, ◌∙◌, List, [], ◌∷◌, ◌++◌, none, some,
  Bool, true, false, arith, ltb, length, take, drop, set, write_at, size_mod, length-take,
  length-set, length-write_at, Bool-cases, inl, inr,
}
use package_compile_sys.Common.Pieces.{take-set_past, take-write_at}
use package_compile_sys.Autom.{Autom, resize, store, write_block, write}

-- The block is as large as `pre_bytes` says, and the bytes not read yet end at `tail`.
pub record IsBuffer (p : Autom) (block : List ℕ) (end : ℕ) : Type 0 where
  pub head : p.head ≡ some block
  pub tail : p.tail ≡ some end
  pub size : length block ≡ p.pre_bytes
  pub cur : p.cur_bytes ≤ end
  pub within : end ≤ length block

-- The bytes that the next reads return.
abbrev pub unread : ℕ → List ℕ → ℕ → List ℕ
unread cur_bytes block end = take cur_bytes (drop (end - cur_bytes) block)

pub length-resize : (junk : ℕ → ℕ) (n : ℕ) (block : List ℕ) → length (resize junk n block) ≡ n
unfolding resize
length-resize junk zero block = refl
length-resize junk (suc n) [] = ap suc (length-resize junk n [])
length-resize junk (suc n) (x ∷ block) = ap suc (length-resize junk n block)

take-resize :
    (junk : ℕ → ℕ) (n k : ℕ) (block : List ℕ)
    → k ≤ n
    → k ≤ length block
    → take k (resize junk n block) ≡ take k block
unfolding resize
take-resize junk n zero block h h' = refl
take-resize junk zero (suc k) block h h' = absurd (omega arith)
take-resize junk (suc n) (suc k) [] h h' = absurd (omega arith)
take-resize junk (suc n) (suc k) (x ∷ block) h h' =
    ap (λ r. x ∷ r) (take-resize junk n k block (omega arith) (omega arith))

unread_all : (n : ℕ) (block : List ℕ) → unread n block n ≡ take n block
unread_all n block = ap (λ k. take n (drop k block)) {y = 0} (omega arith)

-- A write to a block: the bytes behind the first `cur_bytes`, and a NUL behind them.
abbrev pub Written : Autom → List ℕ → List ℕ → ℕ → Autom → Type 0
Written p block buf bytes q =
    (block' : List ℕ) × IsBuffer q block' (p.cur_bytes + bytes)
    × (q.cur_bytes ≡ p.cur_bytes + bytes)
    × (unread q.cur_bytes block' (p.cur_bytes + bytes) ≡ take p.cur_bytes block ++ take bytes buf)

store_lem :
    (p : Autom) (block buf : List ℕ) (bytes : ℕ)
    → length block ≡ p.pre_bytes
    → p.cur_bytes + bytes + 1 ≤ length block
    → bytes ≤ length buf
    → (q : Autom) × (store p block buf bytes ≡ some (some bytes, q)) × Written p block buf bytes q
unfolding store
store_lem p block buf bytes size room given =
    let piece = take bytes buf in
    let block' = set (write_at block p.cur_bytes piece) (p.cur_bytes + bytes) 0 in
    let same : length block' ≡ length block =
      length-set (write_at block p.cur_bytes piece) (p.cur_bytes + bytes) 0
      ∙ length-write_at block p.cur_bytes piece in
    let long : length piece ≡ bytes = length-take bytes buf ∙ ground arith in
    (
      record p {
        head = some block';
        cur_bytes = p.cur_bytes + bytes;
        tail = some (p.cur_bytes + bytes);
      },
      ground (arith, room, given),
      (
        block',
        record {
          head = refl;
          tail = refl;
          size = same ∙ size;
          cur = omega arith;
          within = omega (arith, same, room);
        },
        refl,
        unread_all (p.cur_bytes + bytes) block'
            ∙ take-set_past (write_at block p.cur_bytes piece) (p.cur_bytes + bytes)
                (p.cur_bytes + bytes) 0 (omega arith)
            ∙ ap (λ n. take (p.cur_bytes + n) (write_at block p.cur_bytes piece)) (sym long)
            ∙ take-write_at block p.cur_bytes piece (omega (arith, long, room)),
      ),
    )

pub write-head :
    (grown : Bool) (junk : ℕ → ℕ) (p : Autom) (block buf : List ℕ) (bytes : ℕ)
    → p.head ≡ some block
    → write grown junk p buf bytes ≡ write_block grown junk p block buf bytes
unfolding write
write-head grown junk p block buf bytes e =
    ap
      (λ h. elim h [
        | none ↦ write_block grown junk p [] buf bytes
        | some b ↦ write_block grown junk p b buf bytes
      ])
      e

block_grows :
    (junk : ℕ → ℕ) (p : Autom) (block buf : List ℕ) (bytes need : ℕ)
    → (p.cur_bytes + bytes + 1) % size_mod ≡ need
    → ltb p.pre_bytes need ≡ true
    → write_block true junk p block buf bytes
      ≡ store (record p { pre_bytes = need }) (resize junk need block) buf bytes
unfolding write_block
block_grows junk p block buf bytes need e small_block = rw (e, small_block) refl

block_stays :
    (junk : ℕ → ℕ) (p : Autom) (block buf : List ℕ) (bytes need : ℕ)
    → (p.cur_bytes + bytes + 1) % size_mod ≡ need
    → ltb p.pre_bytes need ≡ false
    → write_block true junk p block buf bytes ≡ store p block buf bytes
unfolding write_block
block_stays junk p block buf bytes need e large_block = rw (e, large_block) refl

-- `autom_write` on a well-formed buffer keeps it well-formed and never writes out of its block,
-- grown or not; the bytes that the next reads return are then the first `cur_bytes` bytes of the
-- block followed by those written. Where nothing was read since the last write or reset, the first
-- ones are the bytes not read yet; after a read they are bytes that were read already. `realloc`
-- succeeds, the source has the bytes, and the sizes fit a `size_t`.
pub write_behind :
    (junk : ℕ → ℕ) (p : Autom) (block buf : List ℕ) (bytes end : ℕ)
    → IsBuffer p block end
    → bytes ≤ length buf
    → p.cur_bytes + bytes + 1 < size_mod
    → (q : Autom) × (write true junk p buf bytes ≡ some (some bytes, q))
      × Written p block buf bytes q
      × (p.cur_bytes ≡ end → take p.cur_bytes block ≡ unread p.cur_bytes block end)
write_behind junk p block buf bytes end buffer given small =
    let need = p.cur_bytes + bytes + 1 in
    let no_wrap : need % size_mod ≡ need = omega arith in
    let fresh : p.cur_bytes ≡ end → take p.cur_bytes block ≡ unread p.cur_bytes block end =
      λ e. sym (ap (λ k. take p.cur_bytes (drop k block)) {y = 0} (omega (arith, e))) in
    elim (Bool-cases (ltb p.pre_bytes need)) [
      | inl small_block ↦
          let (q, run, (block', buffer', e, bytes_are)) =
            store_lem (record p { pre_bytes = need }) (resize junk need block) buf bytes
              (length-resize junk need block) (omega (arith, length-resize junk need block))
              given in
          (
            q,
            write-head true junk p block buf bytes buffer.head
                ∙ block_grows junk p block buf bytes need no_wrap small_block
                ∙ run,
            (
              block',
              buffer',
              e,
              bytes_are
                  ∙ ap (λ r. r ++ take bytes buf)
                      (take-resize junk need p.cur_bytes block (omega arith)
                        (omega (arith, buffer.cur, buffer.within))),
            ),
            fresh,
          )
      | inr large_block ↦
          let (q, run, written) =
            store_lem p block buf bytes buffer.size (ground (arith, large_block, buffer.size))
              given in
          (
            q,
            write-head true junk p block buf bytes buffer.head
                ∙ block_stays junk p block buf bytes need no_wrap large_block
                ∙ run,
            written,
            fresh,
          )
    ]
