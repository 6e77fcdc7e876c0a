-- ===== src/Csrb.antt =====
-- app/lzUtils/csrb/csrb.c and csrb.h: a byte ring of `capacity` cells in a block of twice that
-- size. The second half (`tail` in the code) is meant to mirror the first, so that every query can
-- hand out a contiguous range. Each function is what follows its test of the handle against NULL.
-- The block is one list: `head[i]` is cell `i`, `tail[i]` is cell `capacity + i`.
pub mod Mirror
pub mod Refine
mod Tests
use package_compile_sys.Common.{
  ℕ, zero, suc, ◌+◌, ◌-◌, ◌*◌, List, Option, none, some, Bool, true, false, ltb, leb, ◌==◌, ◌&&◌,
  ◌||◌, length, if◌then◌else◌, get_or, set, replicate, add_size, sub_size,
}

-- `csrb_t`, less its mutex.
pub record Csrb : Type 0 where
  pub ri : ℕ
  pub wi : ℕ
  pub contex : ℕ
  pub empty : ℕ
  pub mem : List ℕ
  pub capacity : ℕ
  pub alloc : Bool

abbrev start : List ℕ → ℕ → Bool → Csrb
start mem size alloc = record {
  ri = 0;
  wi = 0;
  contex = 0;
  empty = size;
  mem = mem;
  capacity = size;
  alloc = alloc;
}

-- `head` is the caller's block, if it gives one; the flags say whether each `calloc` succeeds.
unfoldable pub create : Bool → Bool → Option (List ℕ) → ℕ → Option Csrb
create false _ head size = none
create true _ (some block) size = some (start block size true)
create true true none size = some (start (replicate (2 * size) 0) size false)
create true false none size = none

-- The cell that the pointer returned points to.
unfoldable pub write_query : Csrb → ℕ → Option ℕ
write_query p size = if ltb p.empty size then none else some p.wi

unfoldable pub read_query : Csrb → ℕ → Option ℕ
read_query p size = if ltb p.contex size then none else some p.ri

-- The rounds of a copy from `i` on stay inside the block.
unfoldable pub is_inside : List ℕ → ℕ → ℕ → ℕ → Bool
is_inside mem cap n i = n == 0 || leb (cap + (i + n)) (length mem)

-- `tail[i] = head[i]`, for so many rounds from `i` on.
pub copy_up : ℕ → ℕ → ℕ → List ℕ → List ℕ
copy_up cap zero i mem = mem
copy_up cap (suc n) i mem = copy_up cap n (i + 1) (set mem (cap + i) (get_or mem i 0))

-- `head[i] = tail[i]`, for so many rounds from `i` on.
pub copy_down : ℕ → ℕ → ℕ → List ℕ → List ℕ
copy_down cap zero i mem = mem
copy_down cap (suc n) i mem = copy_down cap n (i + 1) (set mem i (get_or mem (cap + i) 0))

-- The ring as the loops leave it. A loop `for(; i < limit; i++)` runs `limit - i` rounds, none if `i`
-- starts at or past the limit.
unfoldable pub synced : Csrb → ℕ → Csrb
synced p size =
    let room = sub_size p.capacity p.wi in
    if ltb (add_size p.wi size) p.capacity
    then record p {
      mem = copy_up p.capacity (size - p.wi) p.wi p.mem;
      wi = add_size p.wi size;
      empty = sub_size p.empty size;
      contex = add_size p.contex size;
    }
    else record p {
      mem =
          copy_down p.capacity (sub_size size room) 0 (copy_up p.capacity (room - p.wi) p.wi p.mem);
      wi = sub_size size room;
      empty = sub_size p.empty size;
      contex = add_size p.contex size;
    }

-- A copy out of the block has no result.
unfoldable pub write_sync : Csrb → ℕ → Option Csrb
write_sync p size =
    let room = sub_size p.capacity p.wi in
    let inside =
      if ltb (add_size p.wi size) p.capacity
      then is_inside p.mem p.capacity (size - p.wi) p.wi
      else is_inside p.mem p.capacity (room - p.wi) p.wi
        && is_inside p.mem p.capacity (sub_size size room) 0 in
    if inside then some (synced p size) else none

unfoldable pub read_sync : Csrb → ℕ → Csrb
read_sync p size = record p {
  ri =
      if ltb (add_size p.ri size) p.capacity
      then add_size p.ri size
      else sub_size size (sub_size p.capacity p.ri);
  contex = sub_size p.contex size;
  empty = add_size p.empty size;
}

-- The argument `side` is not read.
unfoldable pub clear : Csrb → Csrb
clear p = record p { wi = 0; ri = 0; contex = 0; empty = p.capacity }
