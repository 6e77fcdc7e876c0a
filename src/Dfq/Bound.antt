-- ===== src/Dfq/Bound.antt =====
-- How many payloads the writers of dfq_fifo let the queue hold.
use package_compile_sys.Common.{
  ℕ, ◌≤◌, ◌<◌, ◌≡◌, ◌≢◌, refl, ◌∙◌, [], ◌∷◌, ◌++◌, none, some, true, false, leb, ltb, arith, length,
  length-append, lt→leb, le→leb, Bool-cases, if◌then◌else◌, inl, inr,
}
use package_compile_sys.Dll.{push_back, erase}
use package_compile_sys.Dll.Heap.{null, Store, pure, bind_ok}
use package_compile_sys.Dll.Chain.{Cells, first_or}
use package_compile_sys.Dll.Queue.{IsList, push_back_lem}
use package_compile_sys.Dll.Middle.{Lacks, missing_answers}
use package_compile_sys.Dfq.{DfqFifo, Wait, push, write, td_write, cyc_write}

-- The queue `xs` with one more payload behind, the handle otherwise as before.
abbrev pub Appended : Store → DfqFifo → ℕ → ℕ → Cells → DfqFifo → Type 0
Appended t p nd d xs p' = IsList t p'.que (xs ++ (nd, d) ∷ []) × (p'.size ≡ p.size)

push_lem :
    (s : Store) (p : DfqFifo) (nd d : ℕ) (xs : Cells)
    → nd ≢ null
    → s.cell nd ≡ none
    → IsList s p.que xs
    → (p' : DfqFifo) × (t : Store) × (push nd p d s ≡ some ((true, p'), t))
      × Appended t p nd d xs p'
unfolding push
push_lem s p nd d xs there fresh l =
    let (q, t, run, list, same) = push_back_lem s p.que nd d xs there fresh l in
    (record p { que = q }, t, bind_ok (push_back nd p.que d) _ s (true, q) t run, (list, refl))

not_full :
    (s : Store) (p : DfqFifo) (xs : Cells)
    → IsList s p.que xs
    → length xs < p.size
    → leb p.size p.que.size ≡ false
not_full s p xs l lt = lt→leb p.size p.que.size (ground (arith, l.size))

is_full :
    (s : Store) (p : DfqFifo) (xs : Cells)
    → IsList s p.que xs
    → p.size ≤ length xs
    → leb p.size p.que.size ≡ true
is_full s p xs l le = le→leb p.size p.que.size (ground (arith, l.size))

-- A write to a queue that is not full puts the payload behind the others and waits for nothing,
-- whichever of the three writers is called; the queue stays within its size.
write_lem :
    (s : Store) (p : DfqFifo) (nd d fuel : ℕ) (xs : Cells) (wait : Wait)
    → nd ≢ null
    → s.cell nd ≡ none
    → IsList s p.que xs
    → length xs < p.size
    → (p' : DfqFifo) × (t : Store) × (write wait nd p d s ≡ some ((true, p'), t))
      × (td_write wait nd p d s ≡ some ((true, p'), t))
      × (cyc_write fuel nd p d s ≡ some ((true, p'), t))
      × Appended t p nd d xs p'
      × (length (xs ++ (nd, d) ∷ []) ≤ p'.size)
unfolding write td_write cyc_write
write_lem s p nd d fuel xs wait there fresh l lt =
    let (p', t, run, (list, same)) = push_lem s p nd d xs there fresh l in
    let room = not_full s p xs l lt in
    (
      p',
      t,
      rw room run,
      rw room run,
      rw room run,
      (list, same),
      ground (arith, same, length-append xs ((nd, d) ∷ [])),
    )

-- A timed write to a full queue looks again after its wait, in which the other threads may do
-- anything to the queue, also leave it over its size. It succeeds exactly when they left it shorter
-- than its size: then the payload stands behind what they left, and the queue is within its size.
-- Else it returns false and leaves the queue as they left it.
pub td_write_keeps_bound :
    (s s' : Store) (p p' : DfqFifo) (nd d : ℕ) (xs xs' : Cells) (wait : Wait)
    → IsList s p.que xs
    → p.size ≤ length xs
    → wait p s ≡ some (p', s')
    → IsList s' p'.que xs'
    → nd ≢ null
    → s'.cell nd ≡ none
    → let res = ltb (length xs') p'.size in
      (q : DfqFifo) × (t : Store) × (ys : Cells) × (td_write wait nd p d s ≡ some ((res, q), t))
      × IsList t q.que ys
      × (ys ≡ (if res then xs' ++ (nd, d) ∷ [] else xs'))
      × (q.size ≡ p'.size)
      × (length ys ≤ (if res then q.size else length xs'))
unfolding td_write
td_write_keeps_bound s s' p p' nd d xs xs' wait l packed waited l' there fresh =
    let start : td_write wait nd p d s
        ≡ (if leb p'.size p'.que.size then pure (false, p') else push nd p' d) s' =
      rw (is_full s p xs l packed) (bind_ok (wait p) _ s p' s' waited) in
    elim (Bool-cases (ltb (length xs') p'.size)) [
      | inr packed' ↦
          let still = is_full s' p' xs' l' (ground (arith, packed')) in
          rw packed' (p', s', xs', start ∙ rw still refl, l', refl, refl, omega arith)
      | inl free ↦
          let (q, t, run, (list, same)) = push_lem s' p' nd d xs' there fresh l' in
          let room = not_full s' p' xs' l' (ground (arith, free)) in
          rw free (
            q,
            t,
            xs' ++ (nd, d) ∷ [],
            start ∙ rw room run,
            list,
            refl,
            same,
            ground (arith, same, free, length-append xs' ((nd, d) ∷ [])),
          )
    ]

-- `dfq_fifo_write` does not look again: a wait that ends with the queue still full (another writer
-- was first, or the wait ended by itself) puts the queue over its size.
write_exceeds :
    (s s' : Store) (p p' : DfqFifo) (nd d : ℕ) (xs xs' : Cells) (wait : Wait)
    → IsList s p.que xs
    → p.size ≤ length xs
    → wait p s ≡ some (p', s')
    → IsList s' p'.que xs'
    → p'.size ≤ length xs'
    → nd ≢ null
    → s'.cell nd ≡ none
    → (q : DfqFifo) × (t : Store) × (write wait nd p d s ≡ some ((true, q), t))
      × (q.size < q.que.size)
unfolding write
write_exceeds s s' p p' nd d xs xs' wait l packed waited l' still there fresh =
    let (q, t, run, (list, same)) = push_lem s' p' nd d xs' there fresh l' in
    (
      q,
      t,
      rw (is_full s p xs l packed) (bind_ok (wait p) _ s p' s' waited ∙ run),
      ground (arith, same, list.size, length-append xs' ((nd, d) ∷ [])),
    )

-- `dfq_fifo_cycWrite` to a full queue erases the payload it is about to write, not the oldest one:
-- a payload that the queue does not hold leaves every old one in place, and the queue goes over its
-- size.
cyc_write_exceeds :
    (s : Store) (p : DfqFifo) (nd d fuel : ℕ) (xs : Cells)
    → IsList s p.que xs
    → p.que.front ≡ first_or null xs
    → length xs < fuel
    → p.size ≤ length xs
    → Lacks d xs
    → nd ≢ null
    → s.cell nd ≡ none
    → (q : DfqFifo) × (t : Store) × (cyc_write fuel nd p d s ≡ some ((true, q), t))
      × IsList t q.que (xs ++ (nd, d) ∷ [])
      × (q.size < q.que.size)
unfolding cyc_write
cyc_write_exceeds s p nd d fuel xs l front enough packed lacks there fresh =
    let (q, t, run, (list, same)) = push_lem s p nd d xs there fresh l in
    (
      q,
      t,
      rw (is_full s p xs l packed) (
          bind_ok (erase fuel p.que d) _ s (false, p.que) s
            (missing_answers fuel s p.que xs d (length xs) l front enough lacks (omega arith)).0
          ∙ run),
      list,
      ground (arith, same, list.size, length-append xs ((nd, d) ∷ [])),
    )
