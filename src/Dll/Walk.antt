-- ===== src/Dll/Walk.antt =====
-- The loops of `dll_fifo.c` along a chain: they end, and find what a list would give.
use package_compile_sys.Common.{
  ℕ, zero, suc, ◌<◌, ◌≡◌, ◌≢◌, refl, ap, ◌∙◌, List, [], ◌∷◌, Option, none, some, arith, length,
  ne→==, eq→==, get_elem?, ◌==◌, if◌then◌else◌, Bool-cases, inl, inr, ◌⊎◌,
}
use package_compile_sys.Dll.{DllFifo, DllFifoPar, seek, find, get, release}
use package_compile_sys.Dll.Heap.{Ptr, null, Node, node, Store, bind_ok, load_ok, load}
use package_compile_sys.Dll.Chain.{Cells, first_or, payloads, Chain}
use package_compile_sys.Dll.Queue.{IsList}

-- The address of the `n`-th cell, of the first cell with a payload; NULL if there is none.
abbrev pub addr_at : ℕ → Cells → Ptr
addr_at n [] = null
addr_at zero ((a, d) ∷ xs) = a
addr_at (suc n) ((a, d) ∷ xs) = addr_at n xs

abbrev pub addr_of : ℕ → Cells → Ptr
addr_of x [] = null
addr_of x ((a, d) ∷ xs) = if d == x then a else addr_of x xs

pub seek_lem :
    (fuel n : ℕ) (s : Store) (prev : Ptr) (xs : Cells)
    → Chain s.cell prev xs null
    → length xs < fuel
    → seek fuel (first_or null xs) n s ≡ some (addr_at n xs, s)
unfolding seek
seek_lem zero n s prev xs h lt = absurd (omega arith)
seek_lem (suc k) zero s prev [] h lt = refl
seek_lem (suc k) (suc n) s prev [] h lt = refl
seek_lem (suc k) zero s prev ((a, d) ∷ xs) h lt = refl
seek_lem (suc k) (suc n) s prev ((a, d) ∷ xs) h lt =
    rw (ne→== a null h.0, seek)
      (bind_ok (load a) _ s (node prev (first_or null xs) d) s (load_ok a s _ h.1)
        ∙ seek_lem k n s a xs h.3 (omega arith))

pub find_lem :
    (fuel x : ℕ) (s : Store) (prev : Ptr) (xs : Cells)
    → Chain s.cell prev xs null
    → length xs < fuel
    → find fuel (first_or null xs) x s ≡ some (addr_of x xs, s)
unfolding find
find_lem zero x s prev xs h lt = absurd (omega arith)
find_lem (suc k) x s prev [] h lt = refl
find_lem (suc k) x s prev ((a, d) ∷ xs) h lt =
    rw (ne→== a null h.0, find)
      (bind_ok (load a) _ s (node prev (first_or null xs) d) s (load_ok a s _ h.1)
        ∙ elim (Bool-cases (d == x)) [
          | inl hit ↦ rw (hit, find)
          | inr miss ↦ rw (miss, find) (find_lem k x s a xs h.3 (omega arith))
        ])

-- What the node at `addr_at` holds.
at_lem :
    (n : ℕ) (s : Store) (prev : Ptr) (xs : Cells)
    → Chain s.cell prev xs null
    → ((addr_at n xs ≡ null) × (get_elem? (payloads xs) n ≡ none))
      ⊎ ((m : Node) × (addr_at n xs ≢ null)
          × (s.cell (addr_at n xs) ≡ some m)
          × (get_elem? (payloads xs) n ≡ some m.payload))
at_lem n s prev [] h = inl (refl, refl)
at_lem zero s prev ((a, d) ∷ xs) h = inr (node prev (first_or null xs) d, h.0, h.1, refl)
at_lem (suc n) s prev ((a, d) ∷ xs) h = at_lem n s a xs h.3

-- `dll_fifo_get` returns the payload at an index, or NULL past the end, and changes nothing, on
-- every well-formed list whose `front` is the first cell; a round for each cell and one more are
-- enough.
get_lem :
    (fuel : ℕ) (f : DllFifo) (n : ℕ) (s : Store) (xs : Cells)
    → IsList s f xs
    → f.front ≡ first_or null xs
    → length xs < fuel
    → get fuel f n s ≡ some (get_elem? (payloads xs) n, s)
unfolding get
get_lem fuel f n s xs l e lt =
    bind_ok (seek fuel f.front n) _ s (addr_at n xs) s
      (ap (λ q. seek fuel q n s) e ∙ seek_lem fuel n s null xs l.chain lt)
    ∙ elim (at_lem n s null xs l.chain) [
      | inl (gone, none_there) ↦ rw (eq→== (addr_at n xs) null gone, none_there)
      | inr (m, there, at, found) ↦
          rw (ne→== (addr_at n xs) null there, found)
            (bind_ok (load (addr_at n xs)) _ s m s (load_ok (addr_at n xs) s m at))
    ]

-- The payloads that the loop hands to `dat_destroy`, if it is set.
abbrev pub dropped_by : DllFifoPar → Cells → List ℕ → List ℕ
dropped_by par [] before = before
dropped_by par ((a, d) ∷ xs) before =
    dropped_by par xs (if par.dat_destroy then d ∷ before else before)

pub release_lem :
    (f : DllFifo) (par : DllFifoPar) (d : ℕ) (s : Store)
    → f.par ≡ some par
    → release f d s
      ≡ some (tt, record s { dropped = if par.dat_destroy then d ∷ s.dropped else s.dropped })
unfolding release
release_lem f par d s e = elim (Bool-cases par.dat_destroy) [
  | inl set ↦ rw (e, release, set)
  | inr unset ↦ rw (e, release, unset)
]

-- The nodes of a list are gone.
abbrev pub AllFree : (Ptr → Option Node) → Cells → Type 0
AllFree c [] = Unit {0}
AllFree c ((a, d) ∷ xs) = (c a ≡ none) × AllFree c xs
