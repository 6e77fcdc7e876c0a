-- ===== src/Url/Strings.antt =====
-- The same file, where the searches of a string stop.
use package_compile_sys.Common.{
  ℕ, suc, ◌+◌, ◌<◌, ◌≡◌, ◌≢◌, refl, ap, ◌∙◌, List, [], ◌∷◌, ◌++◌, none, some, arith, take, drop,
  length, ne→==, ==_refl, ◌==◌, true, Bool-cases, inl, inr, Option-cases,
}
use package_compile_sys.Url.{find_first_of, find, starts_with}

-- The character stands nowhere in the string.
abbrev pub Lacks : ℕ → List ℕ → Type 0
Lacks c [] = Unit {0}
Lacks c (x ∷ s) = (x ≢ c) × Lacks c s

pub Lacks-append : (c : ℕ) (s t : List ℕ) → Lacks c s → Lacks c t → Lacks c (s ++ t)
Lacks-append c [] t l m = m
Lacks-append c (x ∷ s) t (ne, l) m = (ne, Lacks-append c s t l m)

pub find-lacking : (c : ℕ) (s : List ℕ) → Lacks c s → find_first_of c s ≡ none
unfolding find_first_of
find-lacking c [] l = refl
find-lacking c (x ∷ s) (ne, l) = rw (find_first_of, ne→== x c ne, find-lacking c s l) refl

pub find-there : (c : ℕ) (s t : List ℕ) → Lacks c s → find_first_of c (s ++ c ∷ t) ≡ some (length s)
unfolding find_first_of
find-there c [] t l = rw (==_refl c) refl
find-there c (x ∷ s) t (ne, l) = rw (ne→== x c ne, find-there c s t l) refl

-- A word that starts with a character is not found before it.
pub find_word-there :
    (c : ℕ) (word s t : List ℕ)
    → Lacks c s
    → starts_with (c ∷ word) t ≡ true
    → find (c ∷ word) (s ++ t) ≡ some (length s)
unfolding find starts_with
find_word-there c word [] [] l h = cc
find_word-there c word [] (x ∷ t) l h = rw h refl
find_word-there c word (x ∷ s) t (ne, l) h = rw (ne→== x c ne, find_word-there c word s t l h) refl

pub take-length : (s t : List ℕ) → take (length s) (s ++ t) ≡ s
take-length [] t = refl
take-length (x ∷ s) t = ap (λ r. x ∷ r) (take-length s t)

suc_plus : (m n : ℕ) → suc m + n ≡ suc (m + n)
suc_plus m n = omega arith

pub drop-length : (s t : List ℕ) (n : ℕ) → drop (length s + n) (s ++ t) ≡ drop n t
drop-length [] t n = ap (λ k. drop k t) (omega arith)
drop-length (x ∷ s) t n = ap (λ k. drop k (x ∷ s ++ t)) (suc_plus (length s) n) ∙ drop-length s t n

some_inj : (m n : ℕ) → some m ≡ some n → m ≡ n
some_inj m n e = cc

none-some : (n : ℕ) → none ≢ some n
none-some n e = cc

-- An index that was found lies in the string.
pub find_bound : (c : ℕ) (s : List ℕ) (i : ℕ) → find_first_of c s ≡ some i → i < length s
unfolding find_first_of
find_bound c [] i e = cc
find_bound c (x ∷ s) i e = elim (Bool-cases (x == c)) [
  | inl a ↦ omega (arith, some_inj 0 i (rw a refl ∙ e))
  | inr a ↦ elim (Option-cases (find_first_of c s)) [
    | inl n ↦ absurd (none-some i (rw (a, n) refl ∙ e))
    | inr (k, n) ↦ omega (arith, some_inj (suc k) i (rw (a, n) refl ∙ e), find_bound c s k n)
  ]
]
