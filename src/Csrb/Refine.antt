-- ===== src/Csrb/Refine.antt =====
-- Turns of a producer and a consumer at the mirrored ring, against a queue of bytes.
use package_compile_sys.Common.{
  ℕ, ◌+◌, ◌-◌, ◌*◌, ◌≤◌, ◌<◌, ◌^◌, ◌≡◌, refl, ◌∙◌, ap, List, ◌++◌, Option, none, some, arith, ltb,
  leb, ◌&&◌, if◌then◌else◌, length, get_or, take, drop, write_at, length-write_at, Bool-cases, inl,
  inr, length-take, length-drop,
}
use package_compile_sys.Common.Window.{
  wrap, window, get_or-write_at, get_or-take, get_or-drop, window_extend, window_split,
}
use package_compile_sys.Csrb.{Csrb, write_query, read_query, write_sync, read_sync}
use package_compile_sys.Csrb.{copy_up, synced, is_inside}
use package_compile_sys.Csrb.Mirror.{
  length-copy_up, length-copy_down, copy_up_outside, copy_up_none, copy_down_at,
}

-- The counters cover the first half, and the writer stands `contex` cells after the reader.
pub record IsValid (p : Csrb) : Type 0 where
  pub storage : length p.mem ≡ 2 * p.capacity
  pub nonempty : 0 < p.capacity
  pub small : p.capacity ≤ 2 ^ 30
  pub total : p.contex + p.empty ≡ p.capacity
  pub ri_in : p.ri < p.capacity
  pub place : p.wi ≡ wrap p.capacity (p.ri + p.contex)

-- The queue, as the first half holds it.
abbrev pub contents : Csrb → List ℕ
contents p = window p.mem p.capacity p.ri p.contex

-- The caller stores its bytes at the pointer, across the end of the first half if need be.
abbrev pub filled : Csrb → List ℕ → Csrb
filled p bytes = record p { mem = write_at p.mem p.wi bytes }

-- The turn of a producer.
unfoldable pub produce : Csrb → List ℕ → Option Csrb
produce p bytes = elim (write_query p (length bytes)) [
  | none ↦ none
  | some i ↦ write_sync (filled p bytes) (length bytes)
]

-- The turn of a consumer: `size` bytes from the pointer on.
unfoldable pub consume : Csrb → ℕ → Option (List ℕ × Csrb)
consume p size = elim (read_query p size) [
  | none ↦ none
  | some i ↦ some (take size (drop i p.mem), read_sync p size)
]

pub record Produced (p : Csrb) (bytes : List ℕ) (q : Csrb) : Type 0 where
  pub appended : contents q ≡ contents p ++ bytes
  pub valid : IsValid q
  pub ri_kept : q.ri ≡ p.ri
  pub capacity_kept : q.capacity ≡ p.capacity

module _ (p : Csrb) (bytes : List ℕ) (v : IsValid p) (room : length bytes ≤ p.empty) where
  produce_at : produce p bytes ≡ some (synced (filled p bytes) (length bytes))
  unfolding produce write_query write_sync is_inside
  produce_at = ground (arith, length-write_at p.mem p.wi bytes)

  after-IsValid : IsValid (synced (filled p bytes) (length bytes))
  unfolding synced
  after-IsValid = ground (
    arith,
    length-write_at p.mem p.wi bytes,
    length-copy_up p.capacity (length bytes - p.wi) p.wi (write_at p.mem p.wi bytes),
    length-copy_up p.capacity (p.capacity - p.wi - p.wi) p.wi (write_at p.mem p.wi bytes),
    length-copy_down p.capacity (length bytes - (p.capacity - p.wi)) 0
        (copy_up p.capacity (p.capacity - p.wi - p.wi) p.wi (write_at p.mem p.wi bytes)),
  )

  -- The cells after the caller's store.
  stored :
      (j : ℕ)
      → get_or (write_at p.mem p.wi bytes) j 0 ≡ (
          if leb p.wi j && ltb j (p.wi + length bytes)
          then get_or bytes (j - p.wi) 0
          else get_or p.mem j 0)
  stored j = get_or-write_at p.mem p.wi bytes j 0 (ground arith)

  -- The cells of the first half, after the sync.
  cell_near :
      p.wi + length bytes < p.capacity
      → (j : ℕ) → j < p.capacity
      → get_or (synced (filled p bytes) (length bytes)).mem j 0
        ≡ get_or (write_at p.mem p.wi bytes) j 0
  unfolding synced
  cell_near near j lt =
      ground
        (arith, copy_up_outside p.capacity (length bytes - p.wi) p.wi (write_at p.mem p.wi bytes) j)

  abbrev mirrored : List ℕ
  mirrored = copy_up p.capacity (p.capacity - p.wi - p.wi) p.wi (write_at p.mem p.wi bytes)

  cell_far :
      p.capacity ≤ p.wi + length bytes
      → (j : ℕ) → j < p.capacity
      → get_or (synced (filled p bytes) (length bytes)).mem j 0 ≡ (
          if ltb (p.capacity + j) (p.wi + length bytes)
          then get_or (write_at p.mem p.wi bytes) (p.capacity + j) 0
          else get_or (write_at p.mem p.wi bytes) j 0)
  unfolding synced
  cell_far far j lt = ground (
    arith,
    copy_down_at p.capacity (length bytes - (p.capacity - p.wi)) 0 mirrored j,
    length-copy_up p.capacity (p.capacity - p.wi - p.wi) p.wi (write_at p.mem p.wi bytes),
    length-write_at p.mem p.wi bytes,
    copy_up_outside p.capacity (p.capacity - p.wi - p.wi) p.wi (write_at p.mem p.wi bytes) j,
    copy_up_outside p.capacity (p.capacity - p.wi - p.wi) p.wi (write_at p.mem p.wi bytes)
        (p.capacity + j),
  )

  cell :
      (j : ℕ)
      → j < p.capacity
      → get_or (synced (filled p bytes) (length bytes)).mem j 0 ≡ (
          if ltb (p.capacity + j) (p.wi + length bytes)
          then get_or bytes (p.capacity + j - p.wi) 0
          else (if leb p.wi j && ltb j (p.wi + length bytes)
              then get_or bytes (j - p.wi) 0
              else get_or p.mem j 0))
  cell j lt = elim (Bool-cases (ltb (p.wi + length bytes) p.capacity)) [
    | inl near ↦ ground (arith, cell_near (ground arith) j lt, stored j)
    | inr far ↦ ground (arith, cell_far (ground arith) j lt, stored j, stored (p.capacity + j))
  ]

  old_byte :
      (k : ℕ)
      → k < p.contex
      → get_or (synced (filled p bytes) (length bytes)).mem (wrap p.capacity (p.ri + k)) 0
        ≡ get_or p.mem (wrap p.capacity (p.ri + k)) 0
  old_byte k lt = ground (arith, cell (wrap p.capacity (p.ri + k)))

  new_byte :
      (k : ℕ)
      → k < length bytes
      → get_or
          (synced (filled p bytes) (length bytes)).mem
          (wrap p.capacity (p.ri + (p.contex + k)))
          0
        ≡ get_or bytes k 0
  new_byte k lt = elim (Bool-cases (ltb (p.wi + k) p.capacity)) [
    | inl near ↦
        let j : wrap p.capacity (p.ri + (p.contex + k)) ≡ p.wi + k = ground arith in
        let i : p.wi + k - p.wi ≡ k = omega arith in
        rw j (ground (arith, cell (p.wi + k), ap (λ m. get_or bytes m 0) i))
    | inr far ↦
        let j : wrap p.capacity (p.ri + (p.contex + k)) ≡ p.wi + k - p.capacity = ground arith in
        let i : p.capacity + (p.wi + k - p.capacity) - p.wi ≡ k = ground arith in
        rw j (ground (arith, cell (p.wi + k - p.capacity), ap (λ m. get_or bytes m 0) i))
  ]

  kept :
      let q = synced (filled p bytes) (length bytes) in
      (q.ri ≡ p.ri) × (q.capacity ≡ p.capacity) × (q.contex ≡ p.contex + length bytes)
  unfolding synced
  kept = ground arith

  -- The turn of a producer with room for its bytes goes through, and the first half holds the
  -- queue longer by those bytes; the ring stays well formed, the reader and the capacity as before.
  pub produce_keeps_queue : (q : Csrb) × (produce p bytes ≡ some q) × Produced p bytes q
  produce_keeps_queue =
      let q = synced (filled p bytes) (length bytes) in
      let longer = window_extend p.mem q.mem bytes p.capacity p.ri p.contex old_byte new_byte in
      (
        q,
        produce_at,
        record {
          appended = ground (arith, kept, longer);
          valid = after-IsValid;
          ri_kept = kept.0;
          capacity_kept = kept.1;
        },
      )

-- The turn of a consumer whose chunk ends inside the first half takes the oldest bytes off the
-- queue, in order, and leaves the ring well formed with the writer and the cells as before.
consume_inside_half :
    (p : Csrb) (size : ℕ)
    → IsValid p
    → size ≤ p.contex
    → p.ri + size ≤ p.capacity
    → (bytes : List ℕ) × (q : Csrb) × (consume p size ≡ some (bytes, q))
      × (length bytes ≡ size)
      × (contents p ≡ bytes ++ contents q)
      × IsValid q
      × (q.mem ≡ p.mem)
unfolding consume read_query read_sync
consume_inside_half p size v enough inside = (
  take size (drop p.ri p.mem),
  record p { ri = wrap p.capacity (p.ri + size); contex = p.contex - size; empty = p.empty + size },
  ground arith,
  count,
  ap (window p.mem p.capacity p.ri) whole
      ∙ window_split p.mem _ p.capacity p.ri (wrap p.capacity (p.ri + size)) size (p.contex - size)
          (λ k lt.
            ground (arith, get_or-take size (drop p.ri p.mem) k 0, get_or-drop p.ri p.mem k 0))
          count (λ k lt. ap (λ j. get_or p.mem j 0) (shift k lt)),
  ground arith,
  refl,
)
  where
    whole : p.contex ≡ size + (p.contex - size)
    whole = omega arith

    count : length (take size (drop p.ri p.mem)) ≡ size
    count = ground (arith, length-take size (drop p.ri p.mem), length-drop p.ri p.mem)

    shift :
        (k : ℕ)
        → k < p.contex - size
        → wrap p.capacity (p.ri + (size + k)) ≡ wrap p.capacity (wrap p.capacity (p.ri + size) + k)
    shift k lt = ground arith

-- Where the mirror goes stale: a write that starts at or past its own length and ends before the
-- end of the first half is queued, but no cell of the second half changes.
pub mirror_stale :
    (p : Csrb) (bytes : List ℕ) (j : ℕ)
    → IsValid p
    → length bytes ≤ p.wi
    → p.wi + length bytes < p.capacity
    → length bytes ≤ p.empty
    → p.capacity ≤ j
    → (q : Csrb) × (produce p bytes ≡ some q) × (get_or q.mem j 0 ≡ get_or p.mem j 0)
unfolding produce write_query write_sync synced is_inside
mirror_stale p bytes j v late near room up = (
  record p {
    mem = write_at p.mem p.wi bytes;
    wi = p.wi + length bytes;
    empty = p.empty - length bytes;
    contex = p.contex + length bytes;
  },
  ground (
    arith,
    length-write_at p.mem p.wi bytes,
    copy_up_none p.capacity (length bytes - p.wi) p.wi (write_at p.mem p.wi bytes),
  ),
  ground (arith, get_or-write_at p.mem p.wi bytes j 0),
)
