-- ===== src/Fifo/Frames.antt =====
-- The frames that the reader finds.
use package_compile_sys.Common.{
  ℕ, zero, suc, ◌<◌, ◌≡◌, ◌≢◌, refl, sym, ap, ◌∙◌, List, [], ◌∷◌, ◌++◌, none, some, arith, length,
  ne→==, append_assoc,
}
use package_compile_sys.Fifo.{prefix, suffix, framed, split_at, messages}

abbrev pub Without : ℕ → List ℕ → Type 0
Without c [] = Unit {0}
Without c (x ∷ xs) = (x ≢ c) × Without c xs

abbrev pub AllWithout : ℕ → List (List ℕ) → Type 0
AllWithout c [] = Unit {0}
AllWithout c (t ∷ ts) = Without c t × AllWithout c ts

-- The messages, one behind the other.
abbrev pub on_pipe : List (List ℕ) → List ℕ
on_pipe [] = []
on_pipe (t ∷ ts) = framed t ++ on_pipe ts

split_at-first :
    (c : ℕ) (xs rest : List ℕ) → Without c xs → split_at c (xs ++ c ∷ rest) ≡ some (xs, rest)
unfolding split_at
split_at-first c [] rest h = ground arith
split_at-first c (x ∷ xs) rest h = rw (ne→== x c h.0, split_at-first c xs rest h.1) refl

split_at-none : (c : ℕ) (xs : List ℕ) → Without c xs → split_at c xs ≡ none
unfolding split_at
split_at-none c [] h = refl
split_at-none c (x ∷ xs) h = rw (ne→== x c h.0, split_at-none c xs h.1) refl

-- What user_fifo_write_fmt frames, user_fifo_read_proc hands out: the texts of any number of
-- messages that one read brings, with nothing between them, in order and unchanged, where no text
-- holds a newline. A round for each message and one more are enough.
pub messages-on_pipe :
    (fuel : ℕ) (texts : List (List ℕ))
    → AllWithout suffix texts
    → length texts < fuel
    → messages fuel (on_pipe texts) ≡ texts
unfolding messages split_at
messages-on_pipe zero texts h enough = absurd (omega arith)
messages-on_pipe (suc fuel) [] h enough = refl
messages-on_pipe (suc fuel) (t ∷ ts) h enough =
    ap (λ r. elim r as (λ _. List (List ℕ)) [ none ↦ [] | some x ↦ x.0 ∷ messages fuel x.1 ])
      (ap (split_at suffix) (append_assoc t (suffix ∷ []) (on_pipe ts))
        ∙ split_at-first suffix t (on_pipe ts) h.0)
    ∙ ap (λ r. t ∷ r) (messages-on_pipe fuel ts h.1 (omega arith))

no_start : (fuel : ℕ) (buf : List ℕ) → Without prefix buf → messages fuel buf ≡ []
unfolding messages
no_start zero buf h = refl
no_start (suc fuel) buf h = rw (split_at-none prefix buf h, messages) refl

no_end : (fuel : ℕ) (text : List ℕ) → Without suffix text → messages fuel (prefix ∷ text) ≡ []
unfolding messages split_at
no_end zero text h = refl
no_end (suc fuel) text h =
    ap (λ r. elim r as (λ _. List (List ℕ)) [ none ↦ [] | some x ↦ x.0 ∷ messages fuel x.1 ])
      (split_at-none suffix text h)

Without-append : (c : ℕ) (xs : List ℕ) → c ≢ suffix → Without c xs → Without c (xs ++ suffix ∷ [])
Without-append c [] ne h = ((λ q. ne (sym q)), tt)
Without-append c (x ∷ xs) ne h = (h.0, Without-append c xs ne h.1)

-- A message that two reads bring in parts is lost: each read looks for whole frames in its own
-- bytes, and hands out nothing.
split_message_lost :
    (fuel fuel' : ℕ) (first second : List ℕ)
    → Without suffix first
    → Without prefix second
    → (messages fuel (prefix ∷ first) ≡ []) × (messages fuel' (second ++ suffix ∷ []) ≡ [])
split_message_lost fuel fuel' first second h h' = (
  no_end fuel first h,
  no_start fuel' (second ++ suffix ∷ []) (Without-append prefix second (λ q. omega arith) h'),
)
