-- ===== src/Common/Pieces.antt =====
-- Pieces of arrays: what a block copy leaves in the first cells, and runs cut from a run.
use Prim.Native.Nat.{ℕ, zero, suc, ◌+◌, ◌-◌, ◌≤◌, ◌<◌}
use mathlib.Core.Path.{◌≡◌, refl, sym, ap, ◌∙◌}
use mathlib.Core.List.{List, [], ◌∷◌, ◌++◌, append-nil}
use native.Mathlib.Omega.{arith}
use package_compile_sys.Common.Lists.{length, set, take, drop, write_at, length-set}

module _ {ℓ} {A : Type ℓ} where
  pub take-set_past : (xs : List A) (n i : ℕ) (v : A) → n ≤ i → take n (set xs i v) ≡ take n xs
  take-set_past xs zero i v h = refl
  take-set_past [] (suc n) i v h = refl
  take-set_past (x ∷ xs) (suc n) zero v h = absurd (omega arith)
  take-set_past (x ∷ xs) (suc n) (suc i) v h =
      ap (λ r. x ∷ r) (take-set_past xs n i v (omega arith))

  take-set :
      (xs : List A) (i : ℕ) (v : A)
      → i < length xs
      → take (suc i) (set xs i v) ≡ take i xs ++ v ∷ []
  take-set [] i v h = absurd (omega arith)
  take-set (x ∷ xs) zero v h = refl
  take-set (x ∷ xs) (suc i) v h = ap (λ r. x ∷ r) (take-set xs i v (omega arith))

  append_one : (xs ys : List A) (v : A) → (xs ++ v ∷ []) ++ ys ≡ xs ++ v ∷ ys
  append_one [] ys v = refl
  append_one (x ∷ xs) ys v = ap (λ r. x ∷ r) (append_one xs ys v)

  pub take-write_at :
      (xs : List A) (i : ℕ) (vs : List A)
      → i + length vs ≤ length xs
      → take (i + length vs) (write_at xs i vs) ≡ take i xs ++ vs
  take-write_at xs i [] h = ap (λ m. take m xs) (omega arith) ∙ sym (append-nil (take i xs))
  take-write_at xs i (v ∷ vs) h =
      ap (λ m. take m (write_at (set xs i v) (suc i) vs)) (omega arith)
      ∙ take-write_at (set xs i v) (suc i) vs (omega (arith, length-set xs i v))
      ∙ ap (λ r. r ++ vs) (take-set xs i v (omega arith))
      ∙ append_one (take i xs) vs v

  take_nil : (n : ℕ) → take {A = A} n [] ≡ []
  take_nil zero = refl
  take_nil (suc n) = refl

  pub drop-take : (m n : ℕ) (xs : List A) → drop n (take m xs) ≡ take (m - n) (drop n xs)
  drop-take m zero xs = ap (λ k. take k xs) (omega arith)
  drop-take zero (suc n) xs = ap (λ k. take k (drop (suc n) xs)) {x = 0} (omega arith)
  drop-take (suc m) (suc n) [] = sym (take_nil (suc m - suc n))
  drop-take (suc m) (suc n) (x ∷ xs) = drop-take m n xs ∙ ap (λ k. take k (drop n xs)) (omega arith)

  drop_nil : (n : ℕ) → drop {A = A} n [] ≡ []
  drop_nil zero = refl
  drop_nil (suc n) = refl

  pub drop-drop : (m n : ℕ) (xs : List A) → drop n (drop m xs) ≡ drop (m + n) xs
  drop-drop zero n xs = ap (λ k. drop k xs) (omega arith)
  drop-drop (suc m) n [] = drop_nil n ∙ sym (drop_nil (suc m + n))
  drop-drop (suc m) n (x ∷ xs) =
      drop-drop m n xs ∙ ap (λ k. drop k (x ∷ xs)) {x = suc (m + n)} (omega arith)

  pub take-take : (m n : ℕ) (xs : List A) → n ≤ m → take n (take m xs) ≡ take n xs
  take-take m zero xs h = refl
  take-take zero (suc n) xs h = absurd (omega arith)
  take-take (suc m) (suc n) [] h = refl
  take-take (suc m) (suc n) (x ∷ xs) h = ap (λ r. x ∷ r) (take-take m n xs (omega arith))
