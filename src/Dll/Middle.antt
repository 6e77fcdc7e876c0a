-- ===== src/Dll/Middle.antt =====
-- `dll_fifo_erase` and `dll_fifo_remove`: which cell goes, and what a missing one answers.
use package_compile_sys.Common.{
  ℕ, zero, suc, ◌≤◌, ◌<◌, ◌≡◌, ◌≢◌, refl, ap, ◌∙◌, [], ◌∷◌, ◌++◌, some, true, false, arith, length,
  ne→==, ==_refl, if◌then◌else◌,
}
use package_compile_sys.Dll.{DllFifo, DllFifoPar, seek, find, unlink, erase, remove}
use package_compile_sys.Dll.Heap.{null, Store, bind_ok}
use package_compile_sys.Dll.Chain.{Cells, first_or, Chain-split}
use package_compile_sys.Dll.Queue.{IsList}
use package_compile_sys.Dll.Walk.{addr_at, addr_of, seek_lem, find_lem}
use package_compile_sys.Dll.Unlink.{unlink_lem}

-- No cell has the payload.
abbrev pub Lacks : ℕ → Cells → Type 0
Lacks x [] = Unit {0}
Lacks x ((a, d) ∷ xs) = (d ≢ x) × Lacks x xs

addr_of-first : (x a : ℕ) (xs ys : Cells) → Lacks x xs → addr_of x (xs ++ (a, x) ∷ ys) ≡ a
addr_of-first x a [] ys h = rw (==_refl x)
addr_of-first x a ((b, e) ∷ xs) ys h = rw (ne→== e x h.0) (addr_of-first x a xs ys h.1)

addr_of-none : (x : ℕ) (xs : Cells) → Lacks x xs → addr_of x xs ≡ null
addr_of-none x [] h = refl
addr_of-none x ((b, e) ∷ xs) h = rw (ne→== e x h.0) (addr_of-none x xs h.1)

pub addr_at-length : (a d : ℕ) (xs ys : Cells) → addr_at (length xs) (xs ++ (a, d) ∷ ys) ≡ a
addr_at-length a d [] ys = refl
addr_at-length a d ((b, e) ∷ xs) ys = addr_at-length a d xs ys

addr_at-past : (n : ℕ) (xs : Cells) → length xs ≤ n → addr_at n xs ≡ null
addr_at-past n [] h = refl
addr_at-past zero ((b, e) ∷ xs) h = absurd (omega arith)
addr_at-past (suc n) ((b, e) ∷ xs) h = addr_at-past n xs (omega arith)

pub front_of :
    (s : Store) (f : DllFifo) (xs ys : Cells) (a d : ℕ)
    → IsList s f (xs ++ (a, d) ∷ ys)
    → f.front ≡ first_or null (xs ++ (a, d) ∷ ys)
front_of s f [] ys a d l = l.ends.0
front_of s f ((b, e) ∷ xs) ys a d l = l.ends.0

-- What taking out one cell leaves behind.
pub record Without (s : Store) (par : DllFifoPar) (d : ℕ) (rest : Cells) (f : DllFifo) (t : Store)
    : Type 0 where
  pub list : IsList t f rest
  pub dropped : t.dropped ≡ (if par.dat_destroy then d ∷ s.dropped else s.dropped)

module _ (fuel : ℕ) (s : Store) (f : DllFifo) (par : DllFifoPar) (xs ys : Cells) (a d : ℕ)
    (l : IsList s f (xs ++ (a, d) ∷ ys)) (e : f.par ≡ some par)
    (enough : length (xs ++ (a, d) ∷ ys) < fuel) where
  there : a ≢ null
  there = (Chain-split s.cell null xs ((a, d) ∷ ys) null l.chain).1.0

  -- `dll_fifo_erase` on a well-formed list with parameters takes out the first cell with the
  -- payload, whatever stands before and behind it: the other cells stay in order, the payload goes to `dat_destroy` if that is set. A round
  -- for each cell and one more are enough.
  pub erase_lem :
      Lacks d xs
      → (f' : DllFifo) × (t : Store) × (erase fuel f d s ≡ some ((true, f'), t))
        × Without s par d (xs ++ ys) f' t
  unfolding erase
  erase_lem h =
      let (f', t, run, list, dropped) = unlink_lem s f par xs ys a d l e in
      (
        f',
        t,
        bind_ok (find fuel f.front d) _ s a s (
              ap (λ q. find fuel q d s) (front_of s f xs ys a d l)
              ∙ find_lem fuel d s null (xs ++ (a, d) ∷ ys) l.chain enough
              ∙ ap (λ q. some (q, s)) (addr_of-first d a xs ys h))
            ∙ rw (ne→== a null there) (bind_ok (unlink f a) _ s f' t run),
        record { list = list; dropped = dropped },
      )

  -- `dll_fifo_remove` on a well-formed list with parameters takes out the cell at an index below
  -- the count: the other cells stay in order, the payload goes to `dat_destroy` if that is set. A
  -- round for each cell and one more are enough.
  pub remove_lem :
      (f' : DllFifo) × (t : Store) × (remove fuel f (length xs) s ≡ some ((true, f'), t))
      × Without s par d (xs ++ ys) f' t
  unfolding remove
  remove_lem =
      let (f', t, run, list, dropped) = unlink_lem s f par xs ys a d l e in
      (
        f',
        t,
        bind_ok (seek fuel f.front (length xs)) _ s a s (
              ap (λ q. seek fuel q (length xs) s) (front_of s f xs ys a d l)
              ∙ seek_lem fuel (length xs) s null (xs ++ (a, d) ∷ ys) l.chain enough
              ∙ ap (λ q. some (q, s)) (addr_at-length a d xs ys))
            ∙ rw (ne→== a null there) (bind_ok (unlink f a) _ s f' t run),
        record { list = list; dropped = dropped },
      )

-- A payload that no cell has is refused; an index past the end is not: `dll_fifo_remove` answers
-- true and changes nothing, on every well-formed list whose `front` is the first cell.
pub missing_answers :
    (fuel : ℕ) (s : Store) (f : DllFifo) (xs : Cells) (x n : ℕ)
    → IsList s f xs
    → f.front ≡ first_or null xs
    → length xs < fuel
    → Lacks x xs
    → length xs ≤ n
    → (erase fuel f x s ≡ some ((false, f), s)) × (remove fuel f n s ≡ some ((true, f), s))
unfolding erase remove
missing_answers fuel s f xs x n l e lt h past = (
  bind_ok (find fuel f.front x) _ s null s (
      ap (λ q. find fuel q x s) e
      ∙ find_lem fuel x s null xs l.chain lt
      ∙ ap (λ q. some (q, s)) (addr_of-none x xs h)),
  bind_ok (seek fuel f.front n) _ s null s (
      ap (λ q. seek fuel q n s) e
      ∙ seek_lem fuel n s null xs l.chain lt
      ∙ ap (λ q. some (q, s)) (addr_at-past n xs past)),
)
