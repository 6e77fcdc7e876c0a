-- ===== src/Autom.antt =====
-- app/lzUtils/autom/autom.c and autom.h: a block that grows as it is written, and is read back in
-- pieces. `head` is the block, or NULL after a failed `realloc`; `tail` is a place in the block,
-- counted from `head`, or a pointer into a block that is gone. The functions are given a handle
-- that is not NULL. A write out of the block has no result.
pub mod Write
pub mod Read
mod Tests
use package_compile_sys.Common.{
  ℕ, zero, suc, ◌+◌, ◌-◌, ◌%◌, List, [], ◌∷◌, Option, none, some, Bool, true, false, ltb, leb,
  if◌then◌else◌, ◌&&◌, length, take, drop, set, write_at, replicate, size_mod,
}

-- `autom_t`.
pub record Autom : Type 0 where
  pub pre_bytes : ℕ
  pub cur_bytes : ℕ
  pub head : Option (List ℕ)
  pub tail : Option ℕ

-- The flags tell whether the two `calloc` succeeded.
unfoldable pub create : Bool → Bool → ℕ → Option Autom
create called head_called pre_bytes =
    if called && head_called
    then some record {
      pre_bytes = pre_bytes;
      cur_bytes = 0;
      head = some (replicate pre_bytes 0);
      tail = some 0;
    }
    else none

-- `realloc`: the old bytes as far as they go, and any bytes behind them.
unfoldable pub resize : (ℕ → ℕ) → ℕ → List ℕ → List ℕ
resize junk zero block = []
resize junk (suc n) [] = junk n ∷ resize junk n []
resize junk (suc n) (x ∷ block) = x ∷ resize junk n block

-- `memcpy` of the `bytes` first bytes of `buf`, and the NUL behind them.
unfoldable pub store : Autom → List ℕ → List ℕ → ℕ → Option (Option ℕ × Autom)
store ptr block buf bytes =
    if leb (ptr.cur_bytes + bytes + 1) (length block) && leb bytes (length buf)
    then some (
      some bytes,
      record ptr {
        head = some (set (write_at block ptr.cur_bytes (take bytes buf)) (ptr.cur_bytes + bytes) 0);
        cur_bytes = ptr.cur_bytes + bytes;
        tail = some (ptr.cur_bytes + bytes);
      },
    )
    else none

-- `grown` tells whether `realloc` succeeded; the return of -1 is `some (none, _)`. A sum that does
-- not fit a `size_t` makes the test pass and the copy run out of the block.
unfoldable pub write_block :
    Bool → (ℕ → ℕ) → Autom → List ℕ → List ℕ → ℕ → Option (Option ℕ × Autom)
write_block grown junk ptr block buf bytes =
    let need = (ptr.cur_bytes + bytes + 1) % size_mod in
    if ltb ptr.pre_bytes need
    then (if grown
        then store (record ptr { pre_bytes = need }) (resize junk need block) buf bytes
        else some (none, record ptr { pre_bytes = need; head = none }))
    else store ptr block buf bytes

-- From a `head` of NULL, `realloc` allocates; a copy to it has no result.
unfoldable pub write : Bool → (ℕ → ℕ) → Autom → List ℕ → ℕ → Option (Option ℕ × Autom)
write grown junk ptr buf bytes = elim ptr.head [
  | none ↦ write_block grown junk ptr [] buf bytes
  | some block ↦ write_block grown junk ptr block buf bytes
]

-- The place in the block that is returned, or NULL. Arithmetic on a pointer into a block that is
-- gone has no result.
unfoldable pub read : Autom → ℕ → Option (Option ℕ × Autom)
read ptr bytes = if ltb ptr.cur_bytes bytes then some (none, ptr) else elim ptr.tail [
  | none ↦ none
  | some tail ↦ some (some (tail - ptr.cur_bytes), record ptr { cur_bytes = ptr.cur_bytes - bytes })
]

-- The difference of two pointers into one block; with a `head` of NULL it has no result.
unfoldable pub reset : Autom → Option Autom
reset ptr = elim ptr.head [
  | none ↦ none
  | some block ↦ elim ptr.tail [ none ↦ none | some tail ↦ some (record ptr { cur_bytes = tail }) ]
]

-- Only a block that is too large is shrunk; `pre_bytes` is not changed, nor is `tail`, which then
-- points into the old block if `realloc` moved it.
unfoldable pub shrink : Bool → Bool → (ℕ → ℕ) → Autom → List ℕ → ℕ → Bool × Autom
shrink grown moved junk ptr block bytes =
    if grown
    then (
      true,
      record ptr { head = some (resize junk bytes block); tail = if moved then none else ptr.tail },
    )
    else (false, record ptr { head = none; tail = none })

unfoldable pub breset : Bool → Bool → (ℕ → ℕ) → Autom → ℕ → Option (Bool × Autom)
breset grown moved junk ptr bytes = elim (reset ptr) [
  | none ↦ none
  | some back ↦
      if ltb bytes back.pre_bytes
      then elim back.head [
        | none ↦ none
        | some block ↦ some (shrink grown moved junk back block bytes)
      ]
      else some (true, back)
]

unfoldable pub clear : Autom → Option Autom
clear ptr = elim ptr.head [
  | none ↦ none
  | some block ↦
      if leb ptr.cur_bytes (length block)
      then some (record ptr {
        head = some (write_at block 0 (replicate ptr.cur_bytes 0));
        cur_bytes = 0;
        tail = some 0;
      })
      else none
]
