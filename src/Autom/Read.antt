-- ===== src/Autom/Read.antt =====
-- What autom_read, autom_reset and autom_breset do to a buffer.
use package_compile_sys.Common.{
  ℕ, ◌+◌, ◌-◌, ◌≤◌, ◌<◌, ◌≡◌, refl, sym, ap, ap₂, ◌∙◌, List, Option, none, some, Bool, true, false,
  arith, length, take, drop, size_mod, le→ltb, lt→ltb, lt→leb, ◌%◌,
}
use package_compile_sys.Common.Pieces.{drop-take, drop-drop, take-take}
use package_compile_sys.Autom.{
  Autom, read, reset, breset, resize, shrink, write, write_block, store,
}
use package_compile_sys.Autom.Write.{IsBuffer, unread, length-resize, write-head}

-- `autom_read` of a well-formed buffer returns the place of the oldest bytes not read yet and takes
-- them off, keeping the buffer well-formed; it returns NULL and changes nothing when there are
-- fewer than asked for. `autom_reset` then makes all bytes up to `tail` unread again.
pub read_oldest :
    (p : Autom) (block : List ℕ) (bytes end : ℕ)
    → IsBuffer p block end
    → ((p.cur_bytes < bytes) → read p bytes ≡ some (none, p))
      × ((bytes ≤ p.cur_bytes)
          → (q : Autom) × (read p bytes ≡ some (some (end - p.cur_bytes), q))
            × IsBuffer q block end
            × (take bytes (drop (end - p.cur_bytes) block)
                ≡ take bytes (unread p.cur_bytes block end))
            × (unread q.cur_bytes block end ≡ drop bytes (unread p.cur_bytes block end))
            × ((r : Autom) × (reset q ≡ some r) × IsBuffer r block end × (r.cur_bytes ≡ end)))
unfolding read reset
read_oldest p block bytes end buffer = (
  (λ few. rw (lt→ltb p.cur_bytes bytes few) refl),
  (λ enough. (
    record p { cur_bytes = p.cur_bytes - bytes },
    simp (le→ltb p.cur_bytes bytes enough, buffer.tail) refl,
    record {
      head = buffer.head;
      tail = buffer.tail;
      size = buffer.size;
      cur = omega (arith, buffer.cur);
      within = buffer.within;
    },
    sym (take-take p.cur_bytes bytes (drop (end - p.cur_bytes) block) enough),
    ap (λ k. take (p.cur_bytes - bytes) (drop k block)) {y = end - p.cur_bytes + bytes}
          (omega (arith, buffer.cur))
        ∙ ap (λ r. take (p.cur_bytes - bytes) r) (sym (drop-drop (end - p.cur_bytes) bytes block))
        ∙ sym (drop-take p.cur_bytes bytes (drop (end - p.cur_bytes) block)),
    (
      record p { cur_bytes = end },
      simp (buffer.head, buffer.tail) refl,
      record {
        head = buffer.head;
        tail = buffer.tail;
        size = buffer.size;
        cur = omega arith;
        within = buffer.within;
      },
      refl,
    ),
  )),
)

reset-tail :
    (p : Autom) (block : List ℕ) (end : ℕ)
    → p.head ≡ some block
    → p.tail ≡ some end
    → reset p ≡ some (record p { cur_bytes = end })
unfolding reset
reset-tail p block end h e =
    ap₂
      (λ (o : Option (List ℕ)) (t : Option ℕ). elim o as (λ _. Option Autom) [
        | none ↦ none
        | some b ↦ elim t as (λ _. Option Autom) [
          | none ↦ none
          | some tail ↦ some (record p { cur_bytes = tail })
        ]
      ])
      h e

-- After `autom_breset` to fewer bytes than the block has, `pre_bytes` still tells the old size: a
-- write that fits the old block and not the new one runs out of the block.
breset_then_overruns :
    (junk : ℕ → ℕ) (p : Autom) (block buf : List ℕ) (small bytes end : ℕ)
    → IsBuffer p block end
    → small < p.pre_bytes
    → small < end + bytes + 1
    → end + bytes + 1 ≤ p.pre_bytes
    → p.pre_bytes < size_mod
    → (q : Autom) × (breset true false junk p small ≡ some (true, q))
      × (write true junk q buf bytes ≡ none)
unfolding breset shrink write_block store
breset_then_overruns junk p block buf small bytes end buffer shrinks over under word =
    let size = length-resize junk small block in
    let q : Autom = record p { cur_bytes = end; head = some (resize junk small block) } in
    (
      q,
      rw (reset-tail p block end buffer.head buffer.tail, breset, lt→ltb small p.pre_bytes shrinks)
          (ap
            (λ h. elim h as (λ _. Option (Bool × Autom)) [
              | none ↦ none
              | some b ↦ some (shrink true false junk (record p { cur_bytes = end }) b small)
            ])
            buffer.head),
      write-head true junk q (resize junk small block) buf bytes refl
          ∙ rw
              (
                le→ltb p.pre_bytes ((end + bytes + 1) % size_mod) (omega arith),
                lt→leb (end + bytes + 1) (length (resize junk small block)) (omega (arith, size)),
              )
              refl,
    )
