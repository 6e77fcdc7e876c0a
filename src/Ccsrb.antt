-- ===== src/Ccsrb.antt =====
-- app/lzUtils/ccsrb/ccsrb.c and ccsrb.h: a byte ring whose queries hand out contiguous chunks. A
-- chunk that would cross the end of the storage is a scratch block: the reader's copy is made by
-- the query, the writer's is copied back by the sync. Each function is what follows its test of
-- the handle against NULL. The state is the fields of `ccsrb_t`; `malloc` blocks enter as
-- arguments. `none` as the result of a sync is a copy that leaves its object.
pub mod Inv
pub mod Produce
pub mod Consume
pub mod Run
mod Tests
use package_compile_sys.Common.{
  ℕ, ◌+◌, ◌-◌, List, [], Option, none, some, Bool, true, false, ltb, leb, if◌then◌else◌, length,
  replicate, write_at, take, drop, add_size, sub_size,
}
use package_compile_sys.Common.Window.{memcpy}

-- `ccsrb_t`, less its mutex. A cache is `none` while the pointer is NULL.
pub record Ccsrb : Type 0 where
  pub ri : ℕ
  pub contex : ℕ
  pub rcm : Option (List ℕ)
  pub wi : ℕ
  pub empty : ℕ
  pub wcm : Option (List ℕ)
  pub c_bytes : ℕ
  pub mm : List ℕ

-- What a query returns: a place in `mm`, or the start of a scratch block.
pub data Address : Type 0 where
  main : ℕ → Address
  read_cache : Address
  write_cache : Address

-- `malloc` of the storage returns `block`, with whatever bytes it holds.
unfoldable pub create : Bool → Option (List ℕ) → ℕ → Option Ccsrb
create false block size = none
create true none size = none
create true (some block) size = some (record {
  ri = 0;
  contex = 0;
  rcm = none;
  wi = 0;
  empty = size;
  wcm = none;
  c_bytes = size;
  mm = block;
})

-- `fresh` is what `malloc(size)` returns, if it is called.
unfoldable pub write_query : Ccsrb → ℕ → Option (List ℕ) → Option Address × Ccsrb
write_query p size fresh =
    if leb size p.empty
    then (if ltb (add_size p.wi size) p.c_bytes
        then (some (main p.wi), p)
        else (elim fresh [ none ↦ none | some _ ↦ some write_cache ], record p { wcm = fresh }))
    else (none, p)

-- The index and the two counters after `size` bytes were written up to `wi`.
abbrev pub written : Ccsrb → ℕ → ℕ → Ccsrb
written p wi size = record p {
  wi = wi;
  empty = sub_size p.empty size;
  contex = add_size p.contex size;
}

abbrev pub copied_back : Ccsrb → ℕ → ℕ → Option (List ℕ) → Option Ccsrb
copied_back p size room none = none
copied_back p size room (some mm) =
    some (written (record p { mm = mm; wcm = none }) (sub_size size room) size)

abbrev pub copy_rest : List ℕ → ℕ → ℕ → Option (List ℕ) → Option (List ℕ)
copy_rest block room rest none = none
copy_rest block room rest (some mm) = memcpy mm 0 block room rest

-- With a write cache: its first part goes behind `wi`, the rest to the start of the storage.
write_sync_by : Option (List ℕ) → Ccsrb → ℕ → Option Ccsrb
write_sync_by none p size = some (written p (add_size p.wi size) size)
write_sync_by (some block) p size =
    let room = sub_size p.c_bytes p.wi in
    copied_back p size room
      (copy_rest block room (sub_size size room) (memcpy p.mm p.wi block 0 room))

unfoldable pub write_sync : Ccsrb → ℕ → Option Ccsrb
unfolding write_sync_by
write_sync p size = write_sync_by p.wcm p size

abbrev pub gathered : Ccsrb → Option (List ℕ) → Option (Option Address × Ccsrb)
gathered p none = none
gathered p (some block) = some (some read_cache, record p { rcm = some block })

abbrev pub gather_rest : List ℕ → ℕ → ℕ → Option (List ℕ) → Option (List ℕ)
gather_rest mm room rest none = none
gather_rest mm room rest (some block) = memcpy block room mm 0 rest

-- The block comes from `calloc`, which is taken to succeed, as the code does.
unfoldable pub read_query : Ccsrb → ℕ → Option (Option Address × Ccsrb)
read_query p size =
    if leb size p.contex
    then (if ltb (add_size p.ri size) p.c_bytes
        then some (some (main p.ri), p)
        else (let room = sub_size p.c_bytes p.ri in
            gathered p (
              gather_rest p.mm room (sub_size size room)
                (memcpy (replicate size 0) 0 p.mm p.ri room))))
    else some (none, p)

unfoldable pub read_sync : Ccsrb → ℕ → Ccsrb
read_sync p size = record p {
  ri = elim p.rcm [ none ↦ add_size p.ri size | some _ ↦ sub_size size (sub_size p.c_bytes p.ri) ];
  rcm = none;
  contex = sub_size p.contex size;
  empty = add_size p.empty size;
}

-- The caches stay as they are.
unfoldable pub clear : Ccsrb → Ccsrb
clear p = record p { wi = 0; ri = 0; contex = 0; empty = p.c_bytes }

-- The caller stores `bytes` from the address that a query returned.
unfoldable pub fill : Ccsrb → Address → List ℕ → Ccsrb
fill p (main i) bytes = record p { mm = write_at p.mm i bytes }
fill p read_cache bytes = p
fill p write_cache bytes = record p {
  wcm = elim p.wcm [ none ↦ none | some block ↦ some (write_at block 0 bytes) ];
}

-- The caller reads `size` bytes from the address that a query returned.
unfoldable pub fetch : Ccsrb → Address → ℕ → List ℕ
fetch p (main i) size = take size (drop i p.mm)
fetch p read_cache size = elim p.rcm [ none ↦ [] | some block ↦ take size block ]
fetch p write_cache size = []
