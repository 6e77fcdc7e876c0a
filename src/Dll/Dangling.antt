-- ===== src/Dll/Dangling.antt =====
-- Where the handle is left with a pointer to no node, and where it has no callbacks.
use package_compile_sys.Common.{
  ℕ, zero, suc, ◌≡◌, ◌≢◌, refl, ap, sym, ◌∙◌, [], ◌∷◌, none, some, ne→==,
}
use package_compile_sys.Dll.{DllFifo, get, clear, seek, free_all, pop_back, release}
use package_compile_sys.Dll.Heap.{
  Ptr, null, node, Store, load, bind_ok, load_ok, bind_none, load-none,
}
use package_compile_sys.Dll.Chain.{Cells, first_or}
use package_compile_sys.Dll.Queue.{IsList}
use package_compile_sys.Dll.Ends.{front_dangles}

free_all_faults :
    (fuel : ℕ) (f : DllFifo) (p : Ptr) (s : Store)
    → p ≢ null
    → s.cell p ≡ none
    → free_all fuel f p s ≡ none
unfolding free_all
free_all_faults zero f p s there gone = refl
free_all_faults (suc k) f p s there gone =
    rw (ne→== p null there, free_all) (bind_none (load p) _ s (load-none p s gone))

clear_faults :
    (fuel : ℕ) (f : DllFifo) (s : Store) → free_all fuel f f.front s ≡ none → clear fuel f s ≡ none
unfolding clear
clear_faults fuel f s e = bind_none (free_all fuel f f.front) _ s e

get_faults :
    (fuel : ℕ) (f : DllFifo) (s : Store)
    → f.front ≢ null
    → s.cell f.front ≡ none
    → get fuel f 0 s ≡ none
unfolding get seek
get_faults zero f s there gone = refl
get_faults (suc k) f s there gone =
    rw (ne→== f.front null there) (bind_none (load f.front) _ s (load-none f.front s gone))

release_faults : (f : DllFifo) (d : ℕ) (s : Store) → f.par ≡ none → release f d s ≡ none
unfolding release
release_faults f d s e = rw (e, release)

-- After `dll_fifo_pop_back` has taken the only cell of a list, `dll_fifo_get` at index 0 reads the
-- freed node, and so does `dll_fifo_clear`: neither has a result, however long it may run.
pop_back_then_faults :
    (s : Store) (f : DllFifo) (a d : ℕ) (fuel : ℕ)
    → IsList s f ((a, d) ∷ [])
    → (f' : DllFifo) × (t : Store) × (pop_back f s ≡ some ((some d, f'), t))
      × (get fuel f' 0 t ≡ none)
      × (clear fuel f' t ≡ none)
pop_back_then_faults s f a d fuel l =
    let (f', t, run, at, size, gone) = front_dangles s f a d l in
    let there : f'.front ≢ null = λ q. l.chain.0 (sym at ∙ q) in
    let hole : t.cell f'.front ≡ none = ap t.cell at ∙ gone in
    (
      f',
      t,
      run,
      get_faults fuel f' t there hole,
      clear_faults fuel f' t (free_all_faults fuel f' f'.front t there hole),
    )

free_all_stuck :
    (k : ℕ) (s : Store) (f : DllFifo) (a d : ℕ) (xs : Cells)
    → IsList s f ((a, d) ∷ xs)
    → f.par ≡ none
    → free_all k f a s ≡ none
unfolding free_all
free_all_stuck zero s f a d xs l e = refl
free_all_stuck (suc k) s f a d xs l e =
    let nd = node null (first_or null xs) d in
    rw (ne→== a null l.chain.0, free_all)
      (bind_ok (load a) _ s nd s (load_ok a s nd l.chain.1)
        ∙ bind_none (release f d) _ s (release_faults f d s e))

-- A list made with no parameters cannot be cleared once it has a node: `mPar` is read through NULL.
clear_without_par :
    (fuel : ℕ) (s : Store) (f : DllFifo) (a d : ℕ) (xs : Cells)
    → IsList s f ((a, d) ∷ xs)
    → f.par ≡ none
    → clear fuel f s ≡ none
clear_without_par fuel s f a d xs l e =
    clear_faults fuel f s
      (ap (λ q. free_all fuel f q s) l.ends.0 ∙ free_all_stuck fuel s f a d xs l e)
