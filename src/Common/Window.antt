-- ===== src/Common/Window.antt =====
-- The run of cells that a ring buffer holds, and how block copies change the cells of an array.
use package_compile_sys.Common.Tests.{ltb, leb, if◌then◌else◌}
use package_compile_sys.Common.Lists.{
  length, get_or, set, take, drop, write_at, length-set, get_or-set_self, get_or-set_ne,
}
use Prim.Native.Nat.add
use Prim.Native.Nat.{ℕ, zero, suc, ◌+◌, ◌-◌, ◌≤◌, ◌<◌}
use mathlib.Core.Path.{◌≡◌, refl, ap, ap₂, sym, ◌∙◌}
use mathlib.Core.Bool.{◌&&◌}
use mathlib.Core.Option.{Option, none, some}
use mathlib.Core.List.{List, [], ◌∷◌, ◌++◌}
use native.Mathlib.Omega.{arith}

-- `memcpy(dst + i, src + j, n)`; `none` when a range leaves its object.
abbrev pub memcpy {ℓ} : {A : Type ℓ} → List A → ℕ → List A → ℕ → ℕ → Option (List A)
memcpy dst i src j n =
    if leb (i + n) (length dst) && leb (j + n) (length src)
    then some (write_at dst i (take n (drop j src)))
    else none

-- An index below `2 * c`, brought below `c`.
abbrev pub wrap : ℕ → ℕ → ℕ
wrap c i = if ltb i c then i else i - c

sub-sub : (j i : ℕ) → j - i - 1 ≡ j - suc i
sub-sub j i = omega arith

module _ {A : Type 0} where
  abbrev pub tabulate : ℕ → (ℕ → A) → List A
  tabulate zero f = []
  tabulate (suc n) f = f 0 ∷ tabulate n (λ k. f (suc k))

  pub tabulate-ext :
      (n : ℕ) (f g : ℕ → A) → ((k : ℕ) → k < n → f k ≡ g k) → tabulate n f ≡ tabulate n g
  tabulate-ext zero f g h = refl
  tabulate-ext (suc n) f g h =
      ap₂ ◌∷◌ (h 0 (omega arith))
        (tabulate-ext n (λ k. f (suc k)) (λ k. g (suc k)) (λ k lt. h (suc k) (omega arith)))

  pub tabulate-add :
      (n m : ℕ) (f : ℕ → A) → tabulate (n + m) f ≡ tabulate n f ++ tabulate m (λ k. f (n + k))
  tabulate-add zero m f = simp add.zero
  tabulate-add (suc n) m f = simp add.suc (ap (λ r. f 0 ∷ r) (tabulate-add n m (λ k. f (suc k))))

  pub length-tabulate : (n : ℕ) (f : ℕ → A) → length (tabulate n f) ≡ n
  length-tabulate zero f = refl
  length-tabulate (suc n) f = ap suc (length-tabulate n (λ k. f (suc k)))

  pub tabulate-get_or : (xs : List A) (d : A) → tabulate (length xs) (λ k. get_or xs k d) ≡ xs
  tabulate-get_or [] d = refl
  tabulate-get_or (x ∷ xs) d = ap (λ r. x ∷ r) (tabulate-get_or xs d)

  pub take-tabulate : (n m : ℕ) (f : ℕ → A) → n ≤ m → take n (tabulate m f) ≡ tabulate n f
  take-tabulate zero m f h = refl
  take-tabulate (suc n) zero f h = absurd (omega arith)
  take-tabulate (suc n) (suc m) f h =
      ap (λ r. f 0 ∷ r) (take-tabulate n m (λ k. f (suc k)) (omega arith))

  pub drop-tabulate :
      (n m : ℕ) (f : ℕ → A) → drop n (tabulate (n + m) f) ≡ tabulate m (λ k. f (n + k))
  drop-tabulate zero m f = simp add.zero
  drop-tabulate (suc n) m f = simp add.suc (drop-tabulate n m (λ k. f (suc k)))

  pub get_or-take :
      (n : ℕ) (xs : List A) (k : ℕ) (d : A) → k < n → get_or (take n xs) k d ≡ get_or xs k d
  get_or-take zero xs k d h = absurd (omega arith)
  get_or-take (suc n) [] k d h = refl
  get_or-take (suc n) (x ∷ xs) zero d h = refl
  get_or-take (suc n) (x ∷ xs) (suc k) d h = get_or-take n xs k d (omega arith)

  pub get_or-drop :
      (n : ℕ) (xs : List A) (k : ℕ) (d : A) → get_or (drop n xs) k d ≡ get_or xs (n + k) d
  get_or-drop zero xs k d = simp add.zero
  get_or-drop (suc n) [] k d = refl
  get_or-drop (suc n) (x ∷ xs) k d = simp add.suc (get_or-drop n xs k d)

  get_or-cons :
      (x : A) (xs : List A) (k : ℕ) (d : A) → 0 < k → get_or (x ∷ xs) k d ≡ get_or xs (k - 1) d
  get_or-cons x xs zero d h = absurd (omega arith)
  get_or-cons x xs (suc k) d h = ap (λ m. get_or xs m d) (omega arith)

  pub get_or-write_at :
      (xs : List A) (i : ℕ) (vs : List A) (j : ℕ) (d : A)
      → i + length vs ≤ length xs
      → get_or (write_at xs i vs) j d
        ≡ (if leb i j && ltb j (i + length vs) then get_or vs (j - i) d else get_or xs j d)
  get_or-write_at xs i [] j d h = ground arith
  get_or-write_at xs i (v ∷ vs) j d h = ground (
    arith,
    get_or-write_at (set xs i v) (suc i) vs j d,
    length-set xs i v,
    get_or-set_self xs i v d,
    get_or-set_ne xs i j v d,
    get_or-cons v vs (j - i) d,
    ap (λ m. get_or vs m d) (sub-sub j i),
  )

-- The `n` cells from index `h` on, going round at `c`.
abbrev pub window : List ℕ → ℕ → ℕ → ℕ → List ℕ
window buf c h n = tabulate n (λ k. get_or buf (wrap c (h + k)) 0)

-- A ring extended by `vs`: the old cells keep their bytes, the next ones hold `vs`.
pub window_extend :
    (mm mm' vs : List ℕ) (c h n : ℕ)
    → ((k : ℕ) → k < n → get_or mm' (wrap c (h + k)) 0 ≡ get_or mm (wrap c (h + k)) 0)
    → ((k : ℕ) → k < length vs → get_or mm' (wrap c (h + (n + k))) 0 ≡ get_or vs k 0)
    → window mm' c h (n + length vs) ≡ window mm c h n ++ vs
window_extend mm mm' vs c h n old new =
    tabulate-add n (length vs) _
    ∙ ap₂ ◌++◌ (tabulate-ext n _ _ old) (tabulate-ext (length vs) _ _ new ∙ tabulate-get_or vs 0)

-- A block that holds the first `n` cells of a ring of `n + m`, and the ring that is left.
pub window_split :
    (mm block : List ℕ) (c h h' n m : ℕ)
    → ((k : ℕ) → k < n → get_or block k 0 ≡ get_or mm (wrap c (h + k)) 0)
    → length block ≡ n
    → ((k : ℕ) → k < m → get_or mm (wrap c (h + (n + k))) 0 ≡ get_or mm (wrap c (h' + k)) 0)
    → window mm c h (n + m) ≡ block ++ window mm c h' m
window_split mm block c h h' n m first size rest =
    tabulate-add n m _
    ∙ ap₂ ◌++◌
        (tabulate-ext n _ _ (λ k lt. sym (first k lt))
          ∙ ap (λ j. tabulate j (λ k. get_or block k 0)) (sym size)
          ∙ tabulate-get_or block 0)
        (tabulate-ext m _ _ rest)
