-- ===== src/Ccsrb/Consume.antt =====
-- A consumer's turn at the ring, against a queue of bytes.
use package_compile_sys.Common.{
  ℕ, ◌+◌, ◌-◌, ◌≤◌, ◌<◌, ◌≡◌, ◌∙◌, ap, List, ◌++◌, Option, none, some, arith, length, get_or, take,
  drop, write_at, replicate, length-write_at, take_all, length-take, length-drop, length-replicate,
  Bool-cases, ltb, inl, inr, zero, refl,
}
use package_compile_sys.Common.Window.{
  wrap, window, get_or-write_at, get_or-take, get_or-drop, window_split,
}
use package_compile_sys.Ccsrb.{Ccsrb, Address, read_query, read_sync, fetch}
use package_compile_sys.Ccsrb.Inv.{IsValid, contents}

abbrev consume_at : ℕ → Option (Option Address × Ccsrb) → Option (List ℕ × Ccsrb)
consume_at size none = none
consume_at size (some (none, p)) = none
consume_at size (some (some a, p)) = some (fetch p a size, read_sync p size)

-- The turn of a consumer: ask for a chunk, read it, give the room back.
pub consume : Ccsrb → ℕ → Option (List ℕ × Ccsrb)
consume p size = consume_at size (read_query p size)

-- What a consumer's turn takes and leaves: the oldest `size` bytes of the queue, in order; the ring
-- well formed, no read cache; the writer's cache and the capacity as before.
pub record Consumed (p : Ccsrb) (size : ℕ) (bytes : List ℕ) (q : Ccsrb) : Type 0 where
  pub count : length bytes ≡ size
  pub taken : contents p ≡ bytes ++ contents q
  pub valid : IsValid q
  pub rcm_free : q.rcm ≡ none
  pub wcm_kept : q.wcm ≡ p.wcm
  pub capacity_kept : q.c_bytes ≡ p.c_bytes

abbrev after_read : Ccsrb → ℕ → Ccsrb
after_read p size = record p {
  ri = wrap p.c_bytes (p.ri + size);
  rcm = none;
  contex = p.contex - size;
  empty = p.empty + size;
}

module _ (p : Ccsrb) (size : ℕ) (v : IsValid p) (idle : p.rcm ≡ none)
    (enough : size ≤ p.contex) where
  consume_near :
      p.ri + size < p.c_bytes
      → consume p size ≡ some (take size (drop p.ri p.mm), after_read p size)
  unfolding consume read_query fetch read_sync
  consume_near near = ground arith

  abbrev gathered_block : List ℕ
  gathered_block =
      write_at (write_at (replicate size 0) 0 (take (p.c_bytes - p.ri) (drop p.ri p.mm)))
        (p.c_bytes - p.ri) (take (size - (p.c_bytes - p.ri)) p.mm)

  length-gathered_block : length gathered_block ≡ size
  length-gathered_block = ground (
    arith,
    length-write_at (replicate size 0) 0 (take (p.c_bytes - p.ri) (drop p.ri p.mm)),
    length-write_at (write_at (replicate size 0) 0 (take (p.c_bytes - p.ri) (drop p.ri p.mm)))
        (p.c_bytes - p.ri) (take (size - (p.c_bytes - p.ri)) p.mm),
    length-replicate size (zero),
  )

  consume_far : p.c_bytes ≤ p.ri + size → consume p size ≡ some (gathered_block, after_read p size)
  unfolding consume read_query fetch read_sync
  consume_far far = ground (
    arith,
    length-gathered_block,
    take_all size gathered_block,
    length-replicate size zero,
    length-write_at (replicate size 0) 0 (take (p.c_bytes - p.ri) (drop p.ri p.mm)),
  )

  split :
      (block : List ℕ)
      → length block ≡ size
      → ((k : ℕ) → k < size → get_or block k 0 ≡ get_or p.mm (wrap p.c_bytes (p.ri + k)) 0)
      → contents p ≡ block ++ contents (after_read p size)
  split block l first =
      ap (window p.mm p.c_bytes p.ri) whole
      ∙ window_split p.mm block p.c_bytes p.ri (wrap p.c_bytes (p.ri + size)) size (p.contex - size)
          first l (λ k lt. ap (λ j. get_or p.mm j 0) (shift k lt))
    where
      whole : p.contex ≡ size + (p.contex - size)
      whole = omega arith

      shift :
          (k : ℕ)
          → k < p.contex - size
          → wrap p.c_bytes (p.ri + (size + k)) ≡ wrap p.c_bytes (wrap p.c_bytes (p.ri + size) + k)
      shift k lt = ground arith

  near_byte :
      p.ri + size < p.c_bytes
      → (k : ℕ) → k < size
      → get_or (take size (drop p.ri p.mm)) k 0 ≡ get_or p.mm (wrap p.c_bytes (p.ri + k)) 0
  near_byte near k lt =
      ground (arith, get_or-take size (drop p.ri p.mm) k 0, get_or-drop p.ri p.mm k 0)

  gathered_byte :
      p.c_bytes ≤ p.ri + size
      → (k : ℕ) → k < size
      → get_or gathered_block k 0 ≡ get_or p.mm (wrap p.c_bytes (p.ri + k)) 0
  gathered_byte far k lt = ground (
    arith,
    get_or-write_at (write_at (replicate size 0) 0 (take (p.c_bytes - p.ri) (drop p.ri p.mm)))
        (p.c_bytes - p.ri) (take (size - (p.c_bytes - p.ri)) p.mm) k 0,
    get_or-write_at (replicate size 0) 0 (take (p.c_bytes - p.ri) (drop p.ri p.mm)) k 0,
    length-write_at (replicate size 0) 0 (take (p.c_bytes - p.ri) (drop p.ri p.mm)),
    length-replicate size zero,
    length-take (p.c_bytes - p.ri) (drop p.ri p.mm),
    length-drop p.ri p.mm,
    length-take (size - (p.c_bytes - p.ri)) p.mm,
    get_or-take (p.c_bytes - p.ri) (drop p.ri p.mm) k 0,
    get_or-drop p.ri p.mm k 0,
    get_or-take (size - (p.c_bytes - p.ri)) p.mm (k - (p.c_bytes - p.ri)) 0,
  )

  after_read-IsValid : IsValid (after_read p size)
  after_read-IsValid = ground arith

  -- The turn of a consumer that asks for no more than there is, at a well-formed ring with no read
  -- cache, goes through whatever chunk it is given. It takes the oldest `size` bytes off the queue,
  -- in order, and leaves the ring well formed with no read cache, the writer's cache and the
  -- capacity as before.
  pub consume_refines :
      (bytes : List ℕ) × (q : Ccsrb) × (consume p size ≡ some (bytes, q)) × Consumed p size bytes q
  consume_refines = elim (Bool-cases (ltb (p.ri + size) p.c_bytes)) [
    | inl near ↦
        let count : length (take size (drop p.ri p.mm)) ≡ size =
          ground (arith, length-take size (drop p.ri p.mm), length-drop p.ri p.mm) in
        (
          _,
          after_read p size,
          consume_near (ground arith),
          record {
            count = count;
            taken = split _ count (near_byte (ground arith));
            valid = after_read-IsValid;
            rcm_free = refl;
            wcm_kept = refl;
            capacity_kept = refl;
          },
        )
    | inr far ↦ (
      gathered_block,
      after_read p size,
      consume_far (ground arith),
      record {
        count = length-gathered_block;
        taken = split _ length-gathered_block (gathered_byte (ground arith));
        valid = after_read-IsValid;
        rcm_free = refl;
        wcm_kept = refl;
        capacity_kept = refl;
      },
    )
  ]

pub consume_refused :
    (p : Ccsrb) (size : ℕ)
    → p.contex < size
    → (consume p size ≡ none) × (read_query p size ≡ some (none, p))
unfolding consume read_query
consume_refused p size h = ground arith
