-- ===== src/Ccsrb/Produce.antt =====
-- A producer's turn at the ring, against a queue of bytes.
use package_compile_sys.Common.{
  ℕ, ◌+◌, ◌-◌, ◌≤◌, ◌<◌, ◌≡◌, List, ◌++◌, Option, none, some, arith, length, take, drop, write_at,
  length-write_at, write_at_all, take_all, length-take, length-drop, Bool-cases, ltb, inl, inr,
  refl,
}
use package_compile_sys.Common.Blocks.{extend_direct, extend_round}
use package_compile_sys.Ccsrb.{Ccsrb, Address, write_query, write_sync, fill}
use package_compile_sys.Ccsrb.Inv.{IsValid, contents}

abbrev produce_at : List ℕ → Option Address × Ccsrb → Option Ccsrb
produce_at bytes (none, p) = none
produce_at bytes (some a, p) = write_sync (fill p a bytes) (length bytes)

-- The turn of a producer: ask for room, store the bytes, hand them over.
pub produce : Ccsrb → List ℕ → Option (List ℕ) → Option Ccsrb
produce p bytes fresh = produce_at bytes (write_query p (length bytes) fresh)

-- What a producer's turn leaves behind: the queue is longer by its bytes, the ring well formed, no
-- write cache; the reader's cache and the capacity are as before.
pub record Produced (p : Ccsrb) (bytes : List ℕ) (q : Ccsrb) : Type 0 where
  pub appended : contents q ≡ contents p ++ bytes
  pub valid : IsValid q
  pub wcm_free : q.wcm ≡ none
  pub rcm_kept : q.rcm ≡ p.rcm
  pub capacity_kept : q.c_bytes ≡ p.c_bytes

abbrev after_near : Ccsrb → List ℕ → Ccsrb
after_near p bytes = record p {
  mm = write_at p.mm p.wi bytes;
  wi = p.wi + length bytes;
  empty = p.empty - length bytes;
  contex = p.contex + length bytes;
}

abbrev after_far : Ccsrb → List ℕ → Ccsrb
after_far p bytes = record p {
  wcm = none;
  mm =
      write_at (write_at p.mm p.wi (take (p.c_bytes - p.wi) bytes)) 0
        (drop (p.c_bytes - p.wi) bytes);
  wi = length bytes - (p.c_bytes - p.wi);
  empty = p.empty - length bytes;
  contex = p.contex + length bytes;
}

module _ (p : Ccsrb) (bytes block : List ℕ) (v : IsValid p) (idle : p.wcm ≡ none)
    (size : length block ≡ length bytes) (room : length bytes ≤ p.empty) where
  produce_near :
      p.wi + length bytes < p.c_bytes → produce p bytes (some block) ≡ some (after_near p bytes)
  unfolding produce write_query fill write_sync
  produce_near near = ground arith

  produce_far :
      p.c_bytes ≤ p.wi + length bytes → produce p bytes (some block) ≡ some (after_far p bytes)
  unfolding produce write_query fill write_sync
  produce_far far = ground (
    arith,
    write_at_all block bytes size,
    length-take (p.c_bytes - p.wi) bytes,
    length-drop (p.c_bytes - p.wi) bytes,
    length-write_at p.mm p.wi (take (p.c_bytes - p.wi) bytes),
    take_all (length bytes - (p.c_bytes - p.wi)) (drop (p.c_bytes - p.wi) bytes),
  )

  produce_near-IsValid : p.wi + length bytes < p.c_bytes → IsValid (after_near p bytes)
  produce_near-IsValid near = ground (arith, length-write_at p.mm p.wi bytes)

  produce_far-IsValid : p.c_bytes ≤ p.wi + length bytes → IsValid (after_far p bytes)
  produce_far-IsValid far = ground (
    arith,
    length-write_at p.mm p.wi (take (p.c_bytes - p.wi) bytes),
    length-write_at (write_at p.mm p.wi (take (p.c_bytes - p.wi) bytes)) 0
        (drop (p.c_bytes - p.wi) bytes),
  )

  -- The turn of a producer with room for its bytes, at a well-formed ring that has no write cache,
  -- goes through whatever chunk it is given. The queue is longer by those bytes, the ring well
  -- formed with no write cache, the reader's cache and the capacity as before.
  pub produce_refines : (q : Ccsrb) × (produce p bytes (some block) ≡ some q) × Produced p bytes q
  produce_refines = elim (Bool-cases (ltb (p.wi + length bytes) p.c_bytes)) [
    | inl near ↦ (
      after_near p bytes,
      produce_near (ground arith),
      record {
        appended =
            extend_direct p.mm bytes p.c_bytes p.ri p.contex p.wi v.storage v.ri_in (omega arith)
              v.place (ground arith);
        valid = produce_near-IsValid (ground arith);
        wcm_free = idle;
        rcm_kept = refl;
        capacity_kept = refl;
      },
    )
    | inr far ↦ (
      after_far p bytes,
      produce_far (ground arith),
      record {
        appended =
            extend_round p.mm bytes p.c_bytes p.ri p.contex p.wi v.storage v.ri_in (omega arith)
              v.place (ground arith);
        valid = produce_far-IsValid (ground arith);
        wcm_free = refl;
        rcm_kept = refl;
        capacity_kept = refl;
      },
    )
  ]

-- A refused request, or a block that `malloc` cannot supply, gives NULL and leaves the ring alone.
pub produce_refused :
    (p : Ccsrb) (bytes : List ℕ) (fresh : Option (List ℕ))
    → p.empty < length bytes
    → (produce p bytes fresh ≡ none) × (write_query p (length bytes) fresh ≡ (none, p))
unfolding produce write_query
produce_refused p bytes fresh h = ground arith

pub produce_out_of_memory :
    (p : Ccsrb) (bytes : List ℕ)
    → IsValid p
    → p.wcm ≡ none
    → p.c_bytes ≤ p.wi + length bytes
    → (produce p bytes none ≡ none) × (write_query p (length bytes) none ≡ (none, p))
unfolding produce write_query
produce_out_of_memory p bytes v w h = ground arith

-- A producer that was lent a scratch block and hands over fewer bytes than fit behind the writer's
-- index makes `ccsrb_write_sync` copy out of range: the length of its second copy wraps below zero.
pub short_sync_faults :
    (p : Ccsrb) (block : List ℕ) (size : ℕ)
    → IsValid p
    → p.wcm ≡ some block
    → length block ≤ p.c_bytes
    → p.wi + size < p.c_bytes
    → write_sync p size ≡ none
unfolding write_sync
short_sync_faults p block size v w l h = ground arith
