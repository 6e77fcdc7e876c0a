-- ===== src/Csrb/Mirror.antt =====
-- What the two copy loops of `csrb_write_sync` do to each cell of the block.
use package_compile_sys.Common.{
  ℕ, zero, suc, ◌+◌, ◌≤◌, ◌≡◌, refl, ◌∙◌, List, arith, ltb, leb, ◌&&◌, if◌then◌else◌, length,
  get_or, set, length-set, get_or-set_self, get_or-set_ne, ◌⊎◌, true,
}
use package_compile_sys.Csrb.{copy_up, copy_down}

pub length-copy_up : (cap n i : ℕ) (mem : List ℕ) → length (copy_up cap n i mem) ≡ length mem
unfolding copy_up
length-copy_up cap zero i mem = refl
length-copy_up cap (suc n) i mem =
    length-copy_up cap n (i + 1) (set mem (cap + i) (get_or mem i 0)) ∙ length-set mem (cap + i) _

pub length-copy_down : (cap n i : ℕ) (mem : List ℕ) → length (copy_down cap n i mem) ≡ length mem
unfolding copy_down
length-copy_down cap zero i mem = refl
length-copy_down cap (suc n) i mem =
    length-copy_down cap n (i + 1) (set mem i (get_or mem (cap + i) 0)) ∙ length-set mem i _

-- Mirroring touches only the mirror of the cells that it runs over.
pub copy_up_outside :
    (cap n i : ℕ) (mem : List ℕ) (j : ℕ)
    → (ltb j (cap + i) ≡ true) ⊎ (leb (cap + (i + n)) j ≡ true)
    → get_or (copy_up cap n i mem) j 0 ≡ get_or mem j 0
unfolding copy_up
copy_up_outside cap zero i mem j h = refl
copy_up_outside cap (suc n) i mem j h = ground (
  arith,
  copy_up_outside cap n (i + 1) (set mem (cap + i) (get_or mem i 0)) j,
  get_or-set_ne mem (cap + i) j (get_or mem i 0) 0,
)

pub copy_up_none : (cap n i : ℕ) (mem : List ℕ) → n ≡ 0 → copy_up cap n i mem ≡ mem
unfolding copy_up
copy_up_none cap zero i mem h = refl
copy_up_none cap (suc n) i mem h = absurd (omega arith)

-- Folding back gives each cell that it runs over the byte of its mirror, and touches no other.
pub copy_down_at :
    (cap n i : ℕ) (mem : List ℕ) (j : ℕ)
    → i + n ≤ cap
    → cap ≤ length mem
    → get_or (copy_down cap n i mem) j 0
      ≡ (if leb i j && ltb j (i + n) then get_or mem (cap + j) 0 else get_or mem j 0)
unfolding copy_down
copy_down_at cap zero i mem j h l = ground arith
copy_down_at cap (suc n) i mem j h l = ground (
  arith,
  copy_down_at cap n (i + 1) (set mem i (get_or mem (cap + i) 0)) j,
  length-set mem i (get_or mem (cap + i) 0),
  get_or-set_self mem i (get_or mem (cap + i) 0) 0,
  get_or-set_ne mem i j (get_or mem (cap + i) 0) 0,
  get_or-set_ne mem i (cap + j) (get_or mem (cap + i) 0) 0,
)
