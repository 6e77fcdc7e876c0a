-- ===== src/Ccsrb/Run.antt =====
-- Any history of whole turns at the ring, against a bounded queue of bytes.
use package_compile_sys.Common.{
  ℕ, ◌+◌, ◌≡◌, refl, ap, ◌∙◌, List, [], ◌∷◌, ◌++◌, Option, none, some, arith, length, take, drop,
  leb, if◌then◌else◌, Bool-cases, inl, inr, suc, zero,
}
use package_compile_sys.Common.Window.{length-tabulate}
use package_compile_sys.Ccsrb.{Ccsrb}
use package_compile_sys.Ccsrb.Inv.{IsValid, contents}
use package_compile_sys.Ccsrb.Produce.{produce, produce_refines, produce_refused}
use package_compile_sys.Ccsrb.Consume.{consume, consume_refines, consume_refused}

pub data Turn : Type 0 where
  put : List ℕ → Turn
  get : ℕ → Turn

-- What a turn gives back: the bytes read (none for a producer), or `none` for a refusal.
abbrev pub Reply : Type 0
Reply = Option (List ℕ)

-- The queue of at most `cap` bytes.
module _ (cap : ℕ) where
  unfoldable pub queue_run : List ℕ → List Turn → List Reply
  queue_run q [] = []
  queue_run q (put bytes ∷ turns) =
      let taken = some [] ∷ queue_run (q ++ bytes) turns in
      let refused = none ∷ queue_run q turns in
      if leb (length q + length bytes) cap then taken else refused
  queue_run q (get size ∷ turns) =
      let served = some (take size q) ∷ queue_run (drop size q) turns in
      let refused = none ∷ queue_run q turns in if leb size (length q) then served else refused

-- The ring, with the blocks that `malloc` returns. A refused query changes nothing.
module _ (malloc : ℕ → List ℕ) where
  pub ring_run : Ccsrb → List Turn → List Reply
  ring_run p [] = []
  ring_run p (put bytes ∷ turns) = elim (produce p bytes (some (malloc (length bytes)))) [
    | none ↦ none ∷ ring_run p turns
    | some q ↦ some [] ∷ ring_run q turns
  ]
  ring_run p (get size ∷ turns) = elim (consume p size) [
    | none ↦ none ∷ ring_run p turns
    | some (bytes, q) ↦ some bytes ∷ ring_run q turns
  ]

take_front : (xs ys : List ℕ) (n : ℕ) → length xs ≡ n → take n (xs ++ ys) ≡ xs
take_front [] ys zero e = refl
take_front [] ys (suc n) e = absurd (omega arith)
take_front (x ∷ xs) ys zero e = absurd (omega arith)
take_front (x ∷ xs) ys (suc n) e = ap (λ r. x ∷ r) (take_front xs ys n (omega arith))

drop_front : (xs ys : List ℕ) (n : ℕ) → length xs ≡ n → drop n (xs ++ ys) ≡ ys
drop_front [] ys zero e = refl
drop_front [] ys (suc n) e = absurd (omega arith)
drop_front (x ∷ xs) ys zero e = absurd (omega arith)
drop_front (x ∷ xs) ys (suc n) e = drop_front xs ys n (omega arith)

length-contents : (p : Ccsrb) → length (contents p) ≡ p.contex
length-contents p = length-tabulate p.contex _

module _ (malloc : ℕ → List ℕ) (sized : (n : ℕ) → length (malloc n) ≡ n) where
  -- No history of turns tells an idle, well-formed ring from the bounded queue of its contents:
  -- the same turns are refused, and the same bytes come out.
  pub ring_run_refines :
      (turns : List Turn) (p : Ccsrb)
      → IsValid p
      → p.rcm ≡ none
      → p.wcm ≡ none
      → ring_run malloc p turns ≡ queue_run p.c_bytes (contents p) turns
  unfolding ring_run queue_run
  ring_run_refines [] p v r w = refl
  ring_run_refines (put bytes ∷ turns) p v r w =
      elim (Bool-cases (leb (length (contents p) + length bytes) p.c_bytes)) [
        | inl fits ↦
            let (q, done, made) =
              produce_refines p bytes (malloc (length bytes)) v w (sized (length bytes))
                (ground (arith, length-contents p)) in
            let rest = ring_run_refines turns q made.valid (made.rcm_kept ∙ r) made.wcm_free in
            ground (arith, done, rest, made.appended, made.capacity_kept)
        | inr full ↦
            let refused =
              produce_refused p bytes (some (malloc (length bytes)))
                (ground (arith, length-contents p)) in
            ground (arith, refused.0, ring_run_refines turns p v r w)
      ]
  ring_run_refines (get size ∷ turns) p v r w = elim (Bool-cases (leb size (length (contents p)))) [
    | inl enough ↦
        let (bytes, q, done, made) =
          consume_refines p size v r (ground (arith, length-contents p)) in
        let rest = ring_run_refines turns q made.valid made.rcm_free (made.wcm_kept ∙ w) in
        ground (
          arith,
          done,
          rest,
          made.taken,
          made.capacity_kept,
          take_front bytes (contents q) size made.count,
          drop_front bytes (contents q) size made.count,
        )
    | inr short ↦
        let refused = consume_refused p size (ground (arith, length-contents p)) in
        ground (arith, refused.0, ring_run_refines turns p v r w)
  ]
