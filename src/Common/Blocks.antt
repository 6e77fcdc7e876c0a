-- ===== src/Common/Blocks.antt =====
-- Blocks stored into a ring behind its writer's index, whole or in two parts.
use package_compile_sys.Common.Tests.{ltb, leb, if◌then◌else◌, Bool-cases}
use package_compile_sys.Common.Lists.{
  length, get_or, take, drop, write_at, length-write_at, length-take, length-drop,
}
use package_compile_sys.Common.Window.{
  wrap, window, get_or-write_at, get_or-take, get_or-drop, window_extend,
}
use Prim.Native.Nat.{ℕ, ◌+◌, ◌-◌, ◌≤◌, ◌<◌}
use mathlib.Core.Path.{◌≡◌, ap, ◌∙◌}
use mathlib.Core.Bool.{◌&&◌}
use mathlib.Core.Logic.{inl, inr}
use mathlib.Core.List.{List, ◌++◌}
use native.Mathlib.Omega.{arith}

-- Storing behind the writer's index, without going round.
pub extend_direct :
    (mm vs : List ℕ) (c h n w : ℕ)
    → length mm ≡ c
    → h < c
    → n + length vs ≤ c
    → w ≡ wrap c (h + n)
    → w + length vs ≤ c
    → window (write_at mm w vs) c h (n + length vs) ≡ window mm c h n ++ vs
extend_direct mm vs c h n w l hh hn e hw =
    window_extend mm (write_at mm w vs) vs c h n
      (λ k lt. ground (arith, get_or-write_at mm w vs (wrap c (h + k)) 0))
      (λ k lt. ground (
        arith,
        get_or-write_at mm w vs (wrap c (h + (n + k))) 0,
        ap (λ i. get_or vs i 0) (index k lt),
      ))
  where
    index : (k : ℕ) → k < length vs → wrap c (h + (n + k)) - w ≡ k
    index k lt = ground arith

two_blocks_at :
    (mm first rest : List ℕ) (w j : ℕ)
    → w + length first ≤ length mm
    → length rest ≤ length mm
    → get_or (write_at (write_at mm w first) 0 rest) j 0 ≡ (
        if ltb j (length rest)
        then get_or rest j 0
        else (if leb w j && ltb j (w + length first)
            then get_or first (j - w) 0
            else get_or mm j 0))
two_blocks_at mm first rest w j hf hr = ground (
  arith,
  get_or-write_at (write_at mm w first) 0 rest j 0,
  length-write_at mm w first,
  get_or-write_at mm w first j 0,
)

-- Storing round the end: the first part of the block behind the writer's index, the rest at 0.
module _ (mm vs : List ℕ) (c h n w : ℕ) (l : length mm ≡ c) (hh : h < c) (hn : n + length vs ≤ c)
    (e : w ≡ wrap c (h + n)) (hw : c ≤ w + length vs) where
  abbrev first : List ℕ
  first = take (c - w) vs

  abbrev rest : List ℕ
  rest = drop (c - w) vs

  sizes : (w < c) × (length first ≡ c - w) × (length rest ≡ length vs - (c - w))
  sizes = ground (arith, length-take (c - w) vs, length-drop (c - w) vs)

  old_byte :
      (k : ℕ)
      → k < n
      → get_or (write_at (write_at mm w first) 0 rest) (wrap c (h + k)) 0
        ≡ get_or mm (wrap c (h + k)) 0
  old_byte k lt = ground (arith, two_blocks_at mm first rest w (wrap c (h + k)), sizes)

  first_byte :
      (k : ℕ) → k < c - w → get_or (write_at (write_at mm w first) 0 rest) (w + k) 0 ≡ get_or vs k 0
  first_byte k lt = ground (
    arith,
    two_blocks_at mm first rest w (w + k),
    sizes,
    get_or-take (c - w) vs k 0,
    ap (λ i. get_or first i 0) (shift k),
  )
    where
      shift : (k : ℕ) → w + k - w ≡ k
      shift k = omega arith

  rest_byte :
      (k : ℕ)
      → k < length vs - (c - w)
      → get_or (write_at (write_at mm w first) 0 rest) k 0 ≡ get_or vs (c - w + k) 0
  rest_byte k lt =
      ground (arith, two_blocks_at mm first rest w k, sizes, get_or-drop (c - w) vs k 0)

  new_byte :
      (k : ℕ)
      → k < length vs
      → get_or (write_at (write_at mm w first) 0 rest) (wrap c (h + (n + k))) 0 ≡ get_or vs k 0
  new_byte k lt = elim (Bool-cases (ltb k (c - w))) [
    | inl near ↦
        let j : wrap c (h + (n + k)) ≡ w + k = ground (arith, sizes) in
        rw j (first_byte k (ground arith))
    | inr far ↦
        let j : wrap c (h + (n + k)) ≡ k - (c - w) = ground (arith, sizes) in
        let i : c - w + (k - (c - w)) ≡ k = ground arith in
        rw j (rest_byte (k - (c - w)) (ground (arith, sizes)) ∙ ap (λ i. get_or vs i 0) i)
  ]

  pub extend_round :
      window (write_at (write_at mm w first) 0 rest) c h (n + length vs) ≡ window mm c h n ++ vs
  extend_round = window_extend mm _ vs c h n old_byte new_byte
