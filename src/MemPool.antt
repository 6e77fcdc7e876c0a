-- ===== src/MemPool.antt =====
-- app/cppUtils/MemPool/MemPool.cpp and MemPool.h: blocks that are handed out and given back. The pool is
-- the list of its units; a block is its address, and NULL is `none`. The mutex is held from the
-- first to the last line of a function.
pub mod Held
mod Tests
use package_compile_sys.Common.{
  ℕ, zero, suc, ◌+◌, List, [], ◌∷◌, ◌++◌, Option, none, some, Bool, true, false, ◌==◌,
  if◌then◌else◌, length, get_elem?,
}
use package_compile_sys.Common.Int.{ℤ, pos, negsuc}

-- `MemUnit`.
pub record MemUnit : Type 0 where
  pub is_act : Bool
  pub block : ℕ
  pub size : ℕ

abbrev pub Units : Type 0
Units = List MemUnit

unfoldable pub add : MemUnit → Units → Bool × Units
add mu m_vct = (true, m_vct ++ mu ∷ [])

-- Whether a unit has the block.
unfoldable pub has_block : ℕ → Units → Bool
has_block addr [] = false
has_block addr (mu ∷ m_vct) =
    let rest = has_block addr m_vct in if addr == mu.block then true else rest

unfoldable pub has_active : Units → Bool
has_active [] = false
has_active (mu ∷ m_vct) = let rest = has_active m_vct in if mu.is_act then true else rest

-- Once a unit is found, the loop goes on with an iterator that `erase` has made invalid: no result.
unfoldable pub del : Option ℕ → Units → Option (Bool × Units)
del none m_vct = if has_active m_vct then none else some (false, m_vct)
del (some addr) m_vct = if has_block addr m_vct then none else some (false, m_vct)

-- The block of the first active unit and its size.
unfoldable pub get : Units → Option (ℕ × ℕ) × Units
get [] = (none, [])
get (mu ∷ m_vct) =
    let (found, rest) = get m_vct in
    if mu.is_act
    then (some (mu.block, mu.size), record mu { is_act = false } ∷ m_vct)
    else (found, mu ∷ rest)

unfoldable pub put : ℕ → Units → Bool × Units
put addr [] = (false, [])
put addr (mu ∷ m_vct) =
    let (found, rest) = put addr m_vct in
    if mu.block == addr then (true, record mu { is_act = true } ∷ m_vct) else (found, mu ∷ rest)

unfoldable pub clear : Units → Units
clear [] = []
clear (mu ∷ m_vct) = record mu { is_act = true } ∷ clear m_vct

unfoldable pub get_size : Units → ℕ
get_size m_vct = length m_vct

-- A negative index only prints the pool.
unfoldable pub query : ℤ → Units → Option ℕ
query (negsuc n) m_vct = none
query (pos i) m_vct = elim (get_elem? m_vct i) [ none ↦ none | some mu ↦ some mu.block ]
