-- ===== src/Ccsrb/Inv.antt =====
-- The well-formed states of `ccsrb_t`, and the queue of bytes that such a state holds.
use package_compile_sys.Common.{ℕ, ◌+◌, ◌≤◌, ◌<◌, ◌^◌, ◌≡◌, List, true, some, arith, length}
use package_compile_sys.Common.Window.{wrap, window}
use package_compile_sys.Ccsrb.{Ccsrb, create, clear}

-- The counters cover the storage, and the writer stands `contex` cells after the reader. Half the
-- range of `size_t` is more than the 32-bit target can allocate.
pub record IsValid (p : Ccsrb) : Type 0 where
  pub storage : length p.mm ≡ p.c_bytes
  pub nonempty : 0 < p.c_bytes
  pub small : p.c_bytes ≤ 2 ^ 31
  pub total : p.contex + p.empty ≡ p.c_bytes
  pub ri_in : p.ri < p.c_bytes
  pub place : p.wi ≡ wrap p.c_bytes (p.ri + p.contex)

abbrev pub contents : Ccsrb → List ℕ
contents p = window p.mm p.c_bytes p.ri p.contex

pub create-IsValid :
    (block : List ℕ) (size : ℕ) {p : Ccsrb}
    → length block ≡ size
    → 0 < size
    → size ≤ 2 ^ 31
    → create true (some block) size ≡ some p
    → IsValid p × (p.empty ≡ size)
unfolding create
create-IsValid block size l h s e = ground arith

pub clear-IsValid : {p : Ccsrb} → IsValid p → IsValid (clear p) × ((clear p).empty ≡ p.c_bytes)
unfolding clear
clear-IsValid v = ground arith
