-- ===== src/Dfq/Read.antt =====
-- The readers of dfq_fifo.
use package_compile_sys.Common.{
  ℕ, ◌≡◌, refl, ◌∙◌, ◌++◌, List, [], ◌∷◌, none, some, true, false, arith, leb, lt→leb, le→leb,
}
use package_compile_sys.Dll.{pop_front}
use package_compile_sys.Dll.Heap.{Store, bind_ok}
use package_compile_sys.Dll.Chain.{Cells}
use package_compile_sys.Dll.Queue.{IsList, pop_front_lem}
use package_compile_sys.Dfq.{DfqFifo, Wait, pop, read, td_read}

-- Each of the waits runs, finds the queue as the one before left it, and leaves it empty with the
-- exit flag down; the last one leaves the handle and the heap at the end.
abbrev pub Idle : List Wait → DfqFifo → Store → DfqFifo → Store → Type 0
Idle [] p s p' s' = (p ≡ p') × (s ≡ s')
Idle (wait ∷ waits) p s p' s' =
    (IsList s p.que [])
    × ((q : DfqFifo) × (t : Store) × (wait p s ≡ some (q, t))
        × (q.is_wait_was_exited ≡ false)
        × Idle waits q t p' s')

pop_lem :
    (s : Store) (p : DfqFifo) (a d : ℕ) (xs : Cells)
    → IsList s p.que ((a, d) ∷ xs)
    → (p' : DfqFifo) × (t : Store) × (pop p s ≡ some ((some (some d), p'), t)) × IsList t p'.que xs
unfolding pop
pop_lem s p a d xs l =
    let (q, t, run, list, same) = pop_front_lem s p.que a d xs l in
    (record p { que = q }, t, bind_ok (pop_front p.que) _ s (some d, q) t run, list)

waits_for :
    (waits more : List Wait) (p p' : DfqFifo) (s s' : Store)
    → Idle waits p s p' s'
    → (read (waits ++ more) p s ≡ read more p' s')
      × (td_read (waits ++ more) p s ≡ td_read more p' s')
unfolding read td_read
waits_for [] more p p' s s' h = (cc (h.0, h.1), cc (h.0, h.1))
waits_for (wait ∷ waits) more p p' s s' (l, (q, t, run, flag, h)) =
    let (ih, ih') = waits_for waits more q p' t s' h in
    let none_there : leb p.que.size 0 ≡ true = le→leb p.que.size 0 (ground (arith, l.size)) in
    (
      rw (none_there, read) (bind_ok (wait p) _ s q t run ∙ ih),
      rw (none_there, td_read) (bind_ok (wait p) _ s q t run ∙ simp (flag) ih'),
    )

pops_at_once :
    (waits : List Wait) (p : DfqFifo) (s : Store) (a d : ℕ) (xs : Cells)
    → IsList s p.que ((a, d) ∷ xs)
    → (read waits p s ≡ pop p s) × (td_read waits p s ≡ pop p s)
unfolding read td_read
pops_at_once [] p s a d xs l =
    let some_there : leb p.que.size 0 ≡ false = lt→leb p.que.size 0 (ground (arith, l.size)) in
    (rw some_there refl, rw some_there refl)
pops_at_once (wait ∷ waits) p s a d xs l =
    let some_there : leb p.que.size 0 ≡ false = lt→leb p.que.size 0 (ground (arith, l.size)) in
    (rw some_there refl, rw some_there refl)

-- A reader waits as long as the queue is empty, however often it is woken; when a wait leaves a
-- payload it takes the oldest one, and the others keep their order, whatever waits could still
-- follow. The timed reader does the same while the exit flag is down.
pub read_lem :
    (waits more : List Wait) (p p' : DfqFifo) (s s' : Store) (a d : ℕ) (xs : Cells)
    → Idle waits p s p' s'
    → IsList s' p'.que ((a, d) ∷ xs)
    → (q : DfqFifo) × (t : Store) × (read (waits ++ more) p s ≡ some ((some (some d), q), t))
      × (td_read (waits ++ more) p s ≡ some ((some (some d), q), t))
      × IsList t q.que xs
read_lem waits more p p' s s' a d xs h l =
    let (waited, waited') = waits_for waits more p p' s s' h in
    let (now, now') = pops_at_once more p' s' a d xs l in
    let (q, t, run, list) = pop_lem s' p' a d xs l in
    (q, t, waited ∙ now ∙ run, waited' ∙ now' ∙ run, list)

-- The timed reader has no time limit: as long as the queue stays empty and the exit flag is down it
-- still waits, whatever the number of waits that have ended.
td_read_never_times_out :
    (waits : List Wait) (p p' : DfqFifo) (s s' : Store)
    → Idle waits p s p' s'
    → IsList s' p'.que []
    → td_read (waits ++ []) p s ≡ some ((none, p'), s')
unfolding td_read
td_read_never_times_out waits p p' s s' h l =
    (waits_for waits [] p p' s s' h).1 ∙ rw (le→leb p'.que.size 0 (ground (arith, l.size))) refl
