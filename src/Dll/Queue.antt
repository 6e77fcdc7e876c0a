-- ===== src/Dll/Queue.antt =====
-- The handle and its chain as a queue: what `dll_fifo_push_back` and `dll_fifo_pop_front` do.
use package_compile_sys.Common.{
  ℕ, ◌+◌, ◌-◌, ◌≡◌, ◌≢◌, refl, sym, ap, ◌∙◌, [], ◌∷◌, ◌++◌, Option, none, some, true, arith, length,
  length-append, ne→==, eq→==, subst,
}
use package_compile_sys.Dll.{DllFifo, push_back, pop_front}
use package_compile_sys.Dll.Heap.{
  Ptr, null, Node, node, Store, update, update_self, update_ne, set_prev, set_next, bind_ok,
  load_ok, set_prev_ok, set_next_ok, free_ok, load, free_node,
}
use package_compile_sys.Dll.Chain.{
  Cells, first_or, last_or, Absent, Chain, Chain-frame, Absent-fresh, Absent-last, Apart-single,
  Chain-join, relink_last, relink_first, last_or-append,
}

-- The ends of a handle that has nodes. One that has none may point anywhere.
abbrev pub Ends : DllFifo → Cells → Type 0
Ends f [] = Unit {0}
Ends f ((a, d) ∷ xs) = (f.front ≡ a) × (f.back ≡ last_or a xs)

-- The handle owns the cells `xs`, front to back.
pub record IsList (s : Store) (f : DllFifo) (xs : Cells) : Type 0 where
  pub chain : Chain s.cell null xs null
  pub size : f.size ≡ length xs
  pub ends : Ends f xs

module _ (s : Store) (f : DllFifo) (nd d : ℕ) (there : nd ≢ null) (fresh : s.cell nd ≡ none) where
  back_to_empty :
      IsList s f []
      → (f' : DllFifo) × (t : Store) × (push_back nd f d s ≡ some ((true, f'), t))
        × IsList t f' ((nd, d) ∷ [])
        × (t.dropped ≡ s.dropped)
  unfolding push_back
  back_to_empty l = (
    record f { front = nd; back = nd; size = f.size + 1 },
    record s { cell = update s.cell nd (some (node null null d)) },
    ground arith,
    record {
      chain = (there, update_self s.cell nd _, tt, tt);
      size = ground arith;
      ends = (refl, refl);
    },
    refl,
  )

  abbrev with_node : Ptr → Option Node
  with_node = update s.cell nd (some (node null null d))

  abbrev with_prev : Ptr → Option Node
  with_prev = update with_node nd (some (node f.back null d))

  push_back_run :
      f.size ≢ 0
      → (n : Node) → with_prev f.back ≡ some n
      → push_back nd f d s
        ≡ some (
          (true, record f { back = nd; size = f.size + 1 }),
          record s { cell = update with_prev f.back (some (record n { next = nd })) },
        )
  unfolding push_back
  push_back_run some_node n at =
      rw (ne→== nd null there, ne→== f.size 0 some_node, push_back)
        (bind_ok (set_prev nd f.back) _ (record s { cell = with_node }) tt
            (record s { cell = with_prev })
            (set_prev_ok nd f.back (record s { cell = with_node }) (node null null d)
              (update_self s.cell nd (some (node null null d))))
          ∙ bind_ok (set_next f.back nd) _ (record s { cell = with_prev }) tt _
              (set_next_ok f.back nd (record s { cell = with_prev }) n at))

  back_to_some :
      (b e : ℕ) (xs : Cells)
      → IsList s f ((b, e) ∷ xs)
      → (f' : DllFifo) × (t : Store) × (push_back nd f d s ≡ some ((true, f'), t))
        × IsList t f' (((b, e) ∷ xs) ++ (nd, d) ∷ [])
        × (t.dropped ≡ s.dropped)
  back_to_some b e xs l =
      let own_node = λ (n : Node).
        update_ne with_prev (last_or b xs) nd (some (record n { next = nd })) (λ q.
          Absent-last nd b e xs (Absent-fresh s.cell nd null ((b, e) ∷ xs) null fresh l.chain)
            (sym q))
        ∙ update_self with_node nd (some (node f.back null d))
        ∙ ap (λ q. some (node q null d)) l.ends.1 in
      let absent : Absent nd ((b, e) ∷ xs) =
        Absent-fresh s.cell nd null ((b, e) ∷ xs) null fresh l.chain in
      let framed : Chain with_prev null ((b, e) ∷ xs) null =
        Chain-frame with_node nd _ null ((b, e) ∷ xs) null absent
          (Chain-frame s.cell nd _ null ((b, e) ∷ xs) null absent l.chain) in
      let (n, at, points, linked) = relink_last with_prev null b e xs null nd framed in
      (
        record f { back = nd; size = f.size + 1 },
        record s { cell = update with_prev (last_or b xs) (some (record n { next = nd })) },
        push_back_run (λ q. ground (arith, l.size)) n (ap with_prev l.ends.1 ∙ at)
            ∙ ap
                (λ q. some (
                  (true, record f { back = nd; size = f.size + 1 }),
                  record s { cell = update with_prev q (some (record n { next = nd })) },
                ))
                l.ends.1,
        record {
          chain =
              Chain-join _ null ((b, e) ∷ xs) ((nd, d) ∷ []) null linked (there, own_node n, tt, tt)
                (Apart-single nd d ((b, e) ∷ xs) absent);
          size = ground (arith, l.size, length-append ((b, e) ∷ xs) ((nd, d) ∷ []));
          ends = (l.ends.0, sym (last_or-append b nd d xs));
        },
        refl,
      )

-- `dll_fifo_push_back` of a fresh node succeeds on every well-formed list, and the list has the
-- new cell at its back; no payload is dropped.
pub push_back_lem :
    (s : Store) (f : DllFifo) (nd d : ℕ) (xs : Cells)
    → nd ≢ null
    → s.cell nd ≡ none
    → IsList s f xs
    → (f' : DllFifo) × (t : Store) × (push_back nd f d s ≡ some ((true, f'), t))
      × IsList t f' (xs ++ (nd, d) ∷ [])
      × (t.dropped ≡ s.dropped)
push_back_lem s f nd d [] there fresh l = back_to_empty s f nd d there fresh l
push_back_lem s f nd d ((b, e) ∷ xs) there fresh l = back_to_some s f nd d there fresh b e xs l

pop_front_last :
    (s : Store) (f : DllFifo) (a d : ℕ)
    → IsList s f ((a, d) ∷ [])
    → (f' : DllFifo) × (t : Store) × (pop_front f s ≡ some ((some d, f'), t))
      × IsList t f' []
      × (t.dropped ≡ s.dropped)
unfolding pop_front
pop_front_last s f a d l = (
  record f { front = null; size = f.size - 1 },
  record s { cell = update s.cell f.front none },
  rw (ne→== f.size 0 (λ q. ground (arith, l.size)), eq→== f.size 1 l.size, pop_front)
      (bind_ok (load f.front) _ s n s (load_ok f.front s n at)
        ∙ bind_ok (free_node f.front) _ s tt _ (free_ok f.front s n at)),
  record { chain = tt; size = ground (arith, l.size); ends = tt },
  refl,
)
  where
    n : Node
    n = node null null d

    at : s.cell f.front ≡ some n
    at = ap s.cell l.ends.0 ∙ l.chain.1

pop_front_more :
    (s : Store) (f : DllFifo) (a d b e : ℕ) (xs : Cells)
    → IsList s f ((a, d) ∷ (b, e) ∷ xs)
    → (f' : DllFifo) × (t : Store) × (pop_front f s ≡ some ((some d, f'), t))
      × IsList t f' ((b, e) ∷ xs)
      × (t.dropped ≡ s.dropped)
unfolding pop_front
pop_front_more s f a d b e xs l = (
  record f { front = b; size = f.size - 1 },
  record s { cell = update (update s.cell b (some m)) f.front none },
  rw
      (
        ne→== f.size 0 (λ q. ground (arith, l.size)),
        ne→== f.size 1 (λ q. ground (arith, l.size)),
        pop_front,
      )
      (bind_ok (load f.front) _ s (node null b d) s (load_ok f.front s _ at)
        ∙ bind_ok (set_prev b null) _ s tt s' (set_prev_ok b null s _ l.chain.3.1)
        ∙ bind_ok (free_node f.front) _ s' tt _ (free_ok f.front s' (node null b d) (kept ∙ at))),
  record {
    chain =
        subst (λ q. Chain (update (update s.cell b (some m)) q none) null ((b, e) ∷ xs) null)
          (sym l.ends.0)
          (Chain-frame (update s.cell b (some m)) a none null ((b, e) ∷ xs) null l.chain.2
            (relink_first s.cell a b e xs null null l.chain.3));
    size = ground (arith, l.size);
    ends = (refl, l.ends.1);
  },
  refl,
)
  where
    m : Node
    m = node null (first_or null xs) e

    at : s.cell f.front ≡ some (node null b d)
    at = ap s.cell l.ends.0 ∙ l.chain.1

    s' : Store
    s' = record s { cell = update s.cell b (some m) }

    kept : update s.cell b (some m) f.front ≡ s.cell f.front
    kept = update_ne s.cell b f.front _ (λ q. l.chain.2.0 (sym (q ∙ l.ends.0)))

-- `dll_fifo_pop_front` takes the front cell off every well-formed list that has one, and returns
-- its payload; no payload is dropped.
pub pop_front_lem :
    (s : Store) (f : DllFifo) (a d : ℕ) (xs : Cells)
    → IsList s f ((a, d) ∷ xs)
    → (f' : DllFifo) × (t : Store) × (pop_front f s ≡ some ((some d, f'), t))
      × IsList t f' xs
      × (t.dropped ≡ s.dropped)
pop_front_lem s f a d [] l = pop_front_last s f a d l
pop_front_lem s f a d ((b, e) ∷ xs) l = pop_front_more s f a d b e xs l
