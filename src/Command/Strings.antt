-- ===== src/Command/Strings.antt =====
-- The arguments as strings.
use package_compile_sys.Common.{
  ℕ, ◌+◌, ◌≡◌, ◌≢◌, refl, sym, ap, ap₂, ◌∙◌, List, [], ◌∷◌, ◌++◌, Option, none, some, true, false,
  ◌==◌, arith, length, drop, append_assoc, append-nil, length-append,
}
use package_compile_sys.Command.{
  space, is_end, is_break, but_last, split_line, argl_to_argv, c_string, dup_line, argl_dup2_argv,
}
use package_compile_sys.Command.Words.{
  Plain, Words, line_of, cut_line, starts_of, IsWord-Plain, split_line-cut, split_line-over,
}

abbrev pub argv_of : List ℕ → List (List ℕ) → ℕ → List ℕ
argv_of w [] i = i ∷ []
argv_of w (v ∷ vs) i = i ∷ argv_of v vs (i + length w + 1)

but_last-starts_of :
    (w : List ℕ) (vs : List (List ℕ)) (i : ℕ) → i ∷ but_last (starts_of w vs i) ≡ argv_of w vs i
but_last-starts_of w [] i = refl
but_last-starts_of w (v ∷ []) i = refl
but_last-starts_of w (v ∷ u ∷ vs) i =
    ap (λ r. i ∷ r) (but_last-starts_of v (u ∷ vs) (i + length w + 1))

c_string-word : (w rest : List ℕ) → Plain w → c_string (w ++ 0 ∷ rest) ≡ w
c_string-word [] rest h = refl
c_string-word (c ∷ w) rest h =
    let not_nul : (c == 0) ≡ false = ground (arith, h.0) in
    rw not_nul (ap (λ r. c ∷ r) (c_string-word w rest h.1))

drop-append : (xs ys : List ℕ) → drop (length xs) (xs ++ ys) ≡ ys
drop-append [] ys = refl
drop-append (x ∷ xs) ys = drop-append xs ys

-- The strings that the places stand for.
abbrev pub strings_at : List ℕ → List ℕ → List (List ℕ)
strings_at line [] = []
strings_at line (i ∷ is) = c_string (drop i line) ∷ strings_at line is

strings_at-argv :
    (before w : List ℕ) (vs : List (List ℕ)) (rest : List ℕ) (i : ℕ)
    → Words w vs
    → i ≡ length before
    → strings_at (before ++ cut_line w vs rest) (argv_of w vs i) ≡ w ∷ vs
strings_at-argv before w [] rest i h e =
    ap (λ s. s ∷ [])
      (ap (λ k. c_string (drop k (before ++ (w ++ 0 ∷ rest)))) e
        ∙ ap c_string (drop-append before (w ++ 0 ∷ rest))
        ∙ c_string-word w rest (IsWord-Plain w h))
strings_at-argv before w (v ∷ vs) rest i h e =
    let tail = cut_line v vs rest in
    let longer = before ++ (w ++ 0 ∷ []) in
    let regroup : before ++ (w ++ 0 ∷ tail) ≡ longer ++ tail =
      ap (λ r. before ++ r) (sym (append_assoc w (0 ∷ []) tail))
      ∙ sym (append_assoc before (w ++ 0 ∷ []) tail) in
    ap₂ ◌∷◌
      (ap (λ k. c_string (drop k (before ++ (w ++ 0 ∷ tail)))) e
        ∙ ap c_string (drop-append before (w ++ 0 ∷ tail))
        ∙ c_string-word w tail (IsWord-Plain w h.0))
      (ap (λ l. strings_at l (argv_of v vs (i + length w + 1))) regroup
        ∙ strings_at-argv longer v vs rest (i + length w + 1) h.1
            (omega (arith, e, length-append before (w ++ 0 ∷ []), length-append w (0 ∷ []))))

-- The first byte of a line of words is one of the first word.
first_byte :
    (w : List ℕ) (vs : List (List ℕ)) (end : ℕ) (rest : List ℕ)
    → Words w vs
    → (c : ℕ) × (more : List ℕ) × (line_of w vs end rest ≡ c ∷ more) × (is_break c ≡ false)
first_byte [] [] end rest h = absurd (omega arith)
first_byte [] (v ∷ vs) end rest h = absurd (omega (arith, h.0))
first_byte (c ∷ w) [] end rest h = (c, w ++ end ∷ rest, refl, h.0)
first_byte (c ∷ w) (v ∷ vs) end rest h = (c, w ++ space ∷ line_of v vs end rest, refl, h.0.0)

dup_line-word :
    (arg w rest : List ℕ) → Plain w → dup_line arg (w ++ rest) ≡ dup_line (arg ++ w) rest
unfolding dup_line
dup_line-word arg [] rest h = ap (λ a. dup_line a rest) (sym (append-nil arg))
dup_line-word arg (c ∷ w) rest h =
    let not_space : (c == space) ≡ false = ground (arith, h.0) in
    let not_end : is_end c ≡ false = ground (arith, h.0) in
    rw (not_space, not_end, dup_line)
      (dup_line-word (arg ++ c ∷ []) w rest h.1
        ∙ ap (λ a. dup_line a rest) (append_assoc arg (c ∷ []) w))

dup_line-end :
    (arg : List ℕ) (end : ℕ) (rest : List ℕ)
    → is_end end ≡ true
    → dup_line arg (end ∷ rest) ≡ some (arg ∷ [])
unfolding dup_line
dup_line-end arg end rest h = ground (arith, h)

abbrev with_arg : List ℕ → Option (List (List ℕ)) → Option (List (List ℕ))
with_arg arg copies = elim copies [ none ↦ none | some args ↦ some (arg ∷ args) ]

dup_line-space :
    (arg : List ℕ) (c : ℕ) (rest : List ℕ)
    → is_break c ≡ false
    → dup_line arg (space ∷ c ∷ rest) ≡ with_arg arg (dup_line [] (c ∷ rest))
unfolding dup_line
dup_line-space arg c rest h =
    let not_space : (c == space) ≡ false = ground (arith, h) in
    ap
      (λ b. elim b as (λ _. Option (List (List ℕ))) [
        | true ↦ dup_line (arg ++ space ∷ []) (c ∷ rest)
        | false ↦ with_arg arg (dup_line [] (c ∷ rest))
      ])
      not_space

dup_line-Words :
    (w : List ℕ) (vs : List (List ℕ)) (end : ℕ) (rest : List ℕ)
    → Words w vs
    → is_end end ≡ true
    → dup_line [] (line_of w vs end rest) ≡ some (w ∷ vs)
dup_line-Words w [] end rest h e =
    dup_line-word [] w (end ∷ rest) (IsWord-Plain w h) ∙ dup_line-end w end rest e
dup_line-Words w (v ∷ vs) end rest h e =
    let (c, more, starts, plain) = first_byte v vs end rest h.1 in
    dup_line-word [] w (space ∷ line_of v vs end rest) (IsWord-Plain w h.0)
    ∙ ap (λ l. dup_line w (space ∷ l)) starts
    ∙ dup_line-space w c more plain
    ∙ ap (with_arg w) (ap (dup_line []) (sym starts) ∙ dup_line-Words v vs end rest h.1 e)

first_round :
    (c : ℕ) (more argv line : List ℕ)
    → is_break c ≡ false
    → split_line none (c ∷ more) 0 ≡ some (argv, line)
    → argl_to_argv (c ∷ more) ≡ some (some (0 ∷ but_last argv, line))
unfolding argl_to_argv
first_round c more argv line h run =
    let not_nul : (c == 0) ≡ false = ground (arith, h) in rw (not_nul, run) refl

first_copy :
    (c : ℕ) (more : List ℕ) (args : List (List ℕ))
    → is_break c ≡ false
    → dup_line [] (c ∷ more) ≡ some args
    → argl_dup2_argv (c ∷ more) ≡ some (some args)
unfolding argl_dup2_argv
first_copy c more args h run =
    let not_nul : (c == 0) ≡ false = ground (arith, h) in rw (not_nul, run) refl

-- Both splitters find the words of a line that has single blanks between them and a newline or NUL
-- behind the last: argl_to_argv returns places whose strings are the words, in the line it has cut,
-- and argl_dup2_argv returns the words as copies. The first one needs a byte behind the end of the
-- line that is not a blank, which it reads too.
pub split-Words :
    (w : List ℕ) (vs : List (List ℕ)) (end d : ℕ) (rest : List ℕ)
    → Words w vs
    → is_end end ≡ true
    → d ≢ space
    → (argv : List ℕ) × (line : List ℕ) × (argl_to_argv (line_of w vs end (d ∷ rest))
        ≡ some (some (argv, line)))
      × (strings_at line argv ≡ w ∷ vs)
      × (argl_dup2_argv (line_of w vs end (d ∷ rest)) ≡ some (some (w ∷ vs)))
split-Words w vs end d rest h e ne =
    let (c, more, starts, plain) = first_byte w vs end (d ∷ rest) h in
    (
      argv_of w vs 0,
      cut_line w vs (d ∷ rest),
      ap argl_to_argv starts
          ∙ first_round c more (starts_of w vs 0) (cut_line w vs (d ∷ rest)) plain
              (ap (λ l. split_line none l 0) (sym starts) ∙ split_line-cut w vs end d rest 0 h e ne)
          ∙ ap (λ a. some (some (a, cut_line w vs (d ∷ rest)))) (but_last-starts_of w vs 0),
      strings_at-argv [] w vs (d ∷ rest) 0 h refl,
      ap argl_dup2_argv starts
          ∙ first_copy c more (w ∷ vs) plain
              (ap (dup_line []) (sym starts) ∙ dup_line-Words w vs end (d ∷ rest) h e),
    )

first_fault :
    (c : ℕ) (more : List ℕ)
    → is_break c ≡ false
    → split_line none (c ∷ more) 0 ≡ none
    → argl_to_argv (c ∷ more) ≡ none
unfolding argl_to_argv
first_fault c more h run =
    let not_nul : (c == 0) ≡ false = ground (arith, h) in rw (not_nul, run) refl

-- A line of words with single blanks between them, whose buffer ends with its NUL or newline, makes argl_to_argv read one byte past the buffer.
split_overreads :
    (w : List ℕ) (vs : List (List ℕ)) (end : ℕ)
    → Words w vs
    → is_end end ≡ true
    → argl_to_argv (line_of w vs end []) ≡ none
split_overreads w vs end h e =
    let (c, more, starts, plain) = first_byte w vs end [] h in
    ap argl_to_argv starts
    ∙ first_fault c more plain
        (ap (λ l. split_line none l 0) (sym starts) ∙ split_line-over w vs end 0 h e)
