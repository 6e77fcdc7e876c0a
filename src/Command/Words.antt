-- ===== src/Command/Words.antt =====
-- What the two splitters make of a line of words with single spaces.
use package_compile_sys.Common.{
  ℕ, ◌+◌, ◌<◌, ◌≡◌, ◌≢◌, refl, ap, ◌∙◌, List, [], ◌∷◌, ◌++◌, none, some, true, false, arith, length,
}
use package_compile_sys.Command.{space, is_end, is_break, Split, emit, start, split_line}

abbrev pub Plain : List ℕ → Type 0
Plain [] = Unit {0}
Plain (c ∷ cs) = (is_break c ≡ false) × Plain cs

-- A word has a char, and no blank, newline or NUL.
abbrev pub IsWord : List ℕ → Type 0
IsWord [] = 0 < 0
IsWord (c ∷ cs) = Plain (c ∷ cs)

-- Words follow a word, and the last one stands before the end of the line.
abbrev pub Words : List ℕ → List (List ℕ) → Type 0
Words w [] = IsWord w
Words w (v ∷ vs) = IsWord w × Words v vs

abbrev pub line_of : List ℕ → List (List ℕ) → ℕ → List ℕ → List ℕ
line_of w [] end rest = w ++ end ∷ rest
line_of w (v ∷ vs) end rest = w ++ space ∷ line_of v vs end rest

-- The same with a NUL behind each word.
abbrev pub cut_line : List ℕ → List (List ℕ) → List ℕ → List ℕ
cut_line w [] rest = w ++ 0 ∷ rest
cut_line w (v ∷ vs) rest = w ++ 0 ∷ cut_line v vs rest

abbrev pub starts_of : List ℕ → List (List ℕ) → ℕ → List ℕ
starts_of w [] i = (i + length w + 1) ∷ []
starts_of w (v ∷ vs) i = (i + length w + 1) ∷ starts_of v vs (i + length w + 1)

abbrev before : List ℕ → Split → Split
before w split = elim split [ none ↦ none | some (starts, line) ↦ some (starts, w ++ line) ]

before-emit : (c : ℕ) (w : List ℕ) (split : Split) → emit c (before w split) ≡ before (c ∷ w) split
before-emit c w none = refl
before-emit c w (some x) = refl

before-nil : (split : Split) → split ≡ before [] split
before-nil none = refl
before-nil (some x) = refl

split_line-plain :
    (c : ℕ) (rest : List ℕ) (i : ℕ)
    → is_break c ≡ false
    → split_line none (c ∷ rest) i ≡ emit c (split_line none rest (i + 1))
unfolding split_line
split_line-plain c rest i h = rw (h, split_line) refl

split_line-word :
    (w rest : List ℕ) (i : ℕ)
    → Plain w
    → split_line none (w ++ rest) i ≡ before w (split_line none rest (i + length w))
split_line-word [] rest i h =
    before-nil (split_line none rest i) ∙ ap (λ k. before [] (split_line none rest k)) (omega arith)
split_line-word (c ∷ w) rest i h =
    split_line-plain c (w ++ rest) i h.0
    ∙ ap (emit c) (split_line-word w rest (i + 1) h.1)
    ∙ before-emit c w (split_line none rest (i + 1 + length w))
    ∙ ap (λ k. before (c ∷ w) (split_line none rest k)) (omega arith)

split_line-end :
    (end d : ℕ) (rest : List ℕ) (i : ℕ)
    → is_end end ≡ true
    → d ≢ space
    → split_line none (end ∷ d ∷ rest) i ≡ some ((i + 1) ∷ [], 0 ∷ d ∷ rest)
unfolding split_line
split_line-end end d rest i h ne = ground (arith, h, ne)

split_line-space :
    (c : ℕ) (rest : List ℕ) (i : ℕ)
    → is_break c ≡ false
    → split_line none (space ∷ c ∷ rest) i
      ≡ start (i + 1) (emit 0 (split_line none (c ∷ rest) (i + 1)))
unfolding split_line
split_line-space c rest i h = ground (arith, h)

pub IsWord-Plain : (w : List ℕ) → IsWord w → Plain w
IsWord-Plain [] h = tt
IsWord-Plain (c ∷ cs) h = h

split_line-next :
    (v : List ℕ) (vs : List (List ℕ)) (end : ℕ) (rest : List ℕ) (i : ℕ)
    → Words v vs
    → split_line none (space ∷ line_of v vs end rest) i
      ≡ start (i + 1) (emit 0 (split_line none (line_of v vs end rest) (i + 1)))
split_line-next [] [] end rest i h = absurd (omega arith)
split_line-next [] (u ∷ vs) end rest i h = absurd (omega (arith, h.0))
split_line-next (c ∷ v) [] end rest i h = split_line-space c (v ++ end ∷ rest) i h.0
split_line-next (c ∷ v) (u ∷ vs) end rest i h =
    split_line-space c (v ++ space ∷ line_of u vs end rest) i h.0.0

pub split_line-cut :
    (w : List ℕ) (vs : List (List ℕ)) (end d : ℕ) (rest : List ℕ) (i : ℕ)
    → Words w vs
    → is_end end ≡ true
    → d ≢ space
    → split_line none (line_of w vs end (d ∷ rest)) i
      ≡ some (starts_of w vs i, cut_line w vs (d ∷ rest))
split_line-cut w [] end d rest i h e ne =
    split_line-word w (end ∷ d ∷ rest) i (IsWord-Plain w h)
    ∙ ap (before w) (split_line-end end d rest (i + length w) e ne)
split_line-cut w (v ∷ vs) end d rest i h e ne =
    split_line-word w (space ∷ line_of v vs end (d ∷ rest)) i (IsWord-Plain w h.0)
    ∙ ap (before w) (
        split_line-next v vs end (d ∷ rest) (i + length w) h.1
        ∙ ap (λ r. start (i + length w + 1) (emit 0 r))
            (split_line-cut v vs end d rest (i + length w + 1) h.1 e ne))

split_line-cut_off : (end i : ℕ) → is_end end ≡ true → split_line none (end ∷ []) i ≡ none
unfolding split_line
split_line-cut_off end i h = ground (arith, h)

pub split_line-over :
    (w : List ℕ) (vs : List (List ℕ)) (end i : ℕ)
    → Words w vs
    → is_end end ≡ true
    → split_line none (line_of w vs end []) i ≡ none
split_line-over w [] end i h e =
    split_line-word w (end ∷ []) i (IsWord-Plain w h)
    ∙ ap (before w) (split_line-cut_off end (i + length w) e)
split_line-over w (v ∷ vs) end i h e =
    split_line-word w (space ∷ line_of v vs end []) i (IsWord-Plain w h.0)
    ∙ ap (before w) (
        split_line-next v vs end [] (i + length w) h.1
        ∙ ap (λ r. start (i + length w + 1) (emit 0 r))
            (split_line-over v vs end (i + length w + 1) h.1 e))
