-- ===== src/Dll/Ends.antt =====
-- The other two ends: what `dll_fifo_push_front` and `dll_fifo_pop_back` do.
use package_compile_sys.Common.{
  ℕ, ◌+◌, ◌-◌, ◌≡◌, ◌≢◌, refl, sym, ap, ◌∙◌, [], ◌∷◌, ◌++◌, none, some, true, arith, length-append,
  ne→==, eq→==, subst,
}
use package_compile_sys.Dll.{DllFifo, push_front, pop_back}
use package_compile_sys.Dll.Heap.{
  null, Node, node, Store, update, update_self, update_ne, set_prev, set_next, bind_ok, load_ok,
  set_prev_ok, set_next_ok, free_ok, load, free_node,
}
use package_compile_sys.Dll.Chain.{
  Cells, first_or, last_or, Absent, Chain, Chain-frame, Absent-fresh, Absent-last, Chain-split,
  relink_last, relink_first, last_or-append, Absent-of-Apart,
}
use package_compile_sys.Dll.Queue.{IsList}

module _ (s : Store) (f : DllFifo) (nd d : ℕ) (there : nd ≢ null) (fresh : s.cell nd ≡ none) where
  front_to_empty :
      IsList s f []
      → (f' : DllFifo) × (t : Store) × (push_front nd f d s ≡ some ((true, f'), t))
        × IsList t f' ((nd, d) ∷ [])
        × (t.dropped ≡ s.dropped)
  unfolding push_front
  front_to_empty l = (
    record f { front = nd; back = nd; size = f.size + 1 },
    record s { cell = update s.cell nd (some (node null null d)) },
    rw (ne→== nd null there, eq→== f.size 0 l.size, push_front),
    record {
      chain = (there, update_self s.cell nd _, tt, tt);
      size = ground (arith, l.size);
      ends = (refl, refl);
    },
    refl,
  )

  module _ (b e : ℕ) (xs : Cells) (l : IsList s f ((b, e) ∷ xs)) where
    abbrev zeroed : Store
    zeroed = record s { cell = update s.cell nd (some (node null null d)) }

    abbrev aimed : Store
    aimed = record s { cell = update zeroed.cell nd (some (node null f.front d)) }

    abbrev linked : Store
    linked = record s { cell = update aimed.cell f.front (some (node nd (first_or null xs) e)) }

    absent : Absent nd ((b, e) ∷ xs)
    absent = Absent-fresh s.cell nd null ((b, e) ∷ xs) null fresh l.chain

    framed : Chain aimed.cell null ((b, e) ∷ xs) null
    framed =
        Chain-frame zeroed.cell nd _ null ((b, e) ∷ xs) null absent
          (Chain-frame s.cell nd _ null ((b, e) ∷ xs) null absent l.chain)

    front_run :
        push_front nd f d s ≡ some ((true, record f { front = nd; size = f.size + 1 }), linked)
    unfolding push_front
    front_run =
        rw (ne→== nd null there, ne→== f.size 0 (λ q. ground (arith, l.size)), push_front)
          (bind_ok (set_next nd f.front) _ zeroed tt aimed
              (set_next_ok nd f.front zeroed (node null null d) (update_self s.cell nd _))
            ∙ bind_ok (set_prev f.front nd) _ aimed tt linked (
                set_prev_ok f.front nd aimed (node null (first_or null xs) e)
                  (ap aimed.cell l.ends.0 ∙ framed.1)))

    front-Chain : Chain linked.cell null ((nd, d) ∷ (b, e) ∷ xs) null
    front-Chain = (
      there,
      update_ne aimed.cell f.front nd _ (λ q. absent.0 (sym (sym l.ends.0 ∙ q)))
          ∙ update_self zeroed.cell nd _
          ∙ ap (λ q. some (node null q d)) l.ends.0,
      absent,
      subst
          (λ q.
            Chain (update aimed.cell q (some (node nd (first_or null xs) e))) nd ((b, e) ∷ xs) null)
          (sym l.ends.0) (relink_first aimed.cell null b e xs null nd framed),
    )

-- `dll_fifo_push_front` of a fresh node succeeds on every well-formed list, and the list has the
-- new cell at its front; no payload is dropped.
push_front_lem :
    (s : Store) (f : DllFifo) (nd d : ℕ) (xs : Cells)
    → nd ≢ null
    → s.cell nd ≡ none
    → IsList s f xs
    → (f' : DllFifo) × (t : Store) × (push_front nd f d s ≡ some ((true, f'), t))
      × IsList t f' ((nd, d) ∷ xs)
      × (t.dropped ≡ s.dropped)
push_front_lem s f nd d [] there fresh l = front_to_empty s f nd d there fresh l
push_front_lem s f nd d ((b, e) ∷ xs) there fresh l = (
  record f { front = nd; size = f.size + 1 },
  linked s f nd d there fresh b e xs l,
  front_run s f nd d there fresh b e xs l,
  record {
    chain = front-Chain s f nd d there fresh b e xs l;
    size = ground (arith, l.size);
    ends = (refl, l.ends.1);
  },
  refl,
)

pop_back_last :
    (s : Store) (f : DllFifo) (a d : ℕ)
    → IsList s f ((a, d) ∷ [])
    → (pop_back f s
        ≡ some (
          (some d, record f { back = null; size = f.size - 1 }),
          record s { cell = update s.cell f.back none },
        ))
unfolding pop_back
pop_back_last s f a d l =
    rw (ne→== f.size 0 (λ q. ground (arith, l.size)), eq→== f.size 1 l.size, pop_back)
      (bind_ok (load f.back) _ s n s (load_ok f.back s n at)
        ∙ bind_ok (free_node f.back) _ s tt _ (free_ok f.back s n at))
  where
    n : Node
    n = node null null d

    at : s.cell f.back ≡ some n
    at = ap s.cell l.ends.1 ∙ l.chain.1

pop_back_more :
    (s : Store) (f : DllFifo) (b e : ℕ) (xs : Cells) (a d : ℕ)
    → IsList s f (((b, e) ∷ xs) ++ (a, d) ∷ [])
    → (f' : DllFifo) × (t : Store) × (pop_back f s ≡ some ((some d, f'), t))
      × IsList t f' ((b, e) ∷ xs)
      × (t.dropped ≡ s.dropped)
unfolding pop_back
pop_back_more s f b e xs a d l =
    let (left, right, apart) = Chain-split s.cell null ((b, e) ∷ xs) ((a, d) ∷ []) null l.chain in
    let away : Absent a ((b, e) ∷ xs) = Absent-of-Apart a d ((b, e) ∷ xs) apart in
    let (m, at_last, points, cut) = relink_last s.cell null b e xs a null left in
    let p = last_or b xs in
    let back : f.back ≡ a = l.ends.1 ∙ last_or-append b a d xs in
    let nd = node p null d in
    let at : s.cell f.back ≡ some nd = ap s.cell back ∙ right.1 in
    let t : Store = record s { cell = update s.cell p (some (record m { next = null })) } in
    let kept : t.cell f.back ≡ some nd =
      update_ne s.cell p f.back _ (λ q. Absent-last a b e xs away (sym (q ∙ back))) ∙ at in
    (
      record f { back = p; size = f.size - 1 },
      record s { cell = update t.cell f.back none },
      rw
          (
            ne→== f.size 0 (λ q. ground (arith, l.size)),
            ne→== f.size 1 (λ q. ground (arith, l.size, length-append xs ((a, d) ∷ []))),
            pop_back,
          )
          (bind_ok (load f.back) _ s nd s (load_ok f.back s nd at)
            ∙ bind_ok (set_next p null) _ s tt t (set_next_ok p null s m at_last)
            ∙ bind_ok (free_node f.back) _ t tt _ (free_ok f.back t nd kept)),
      record {
        chain =
            subst (λ q. Chain (update t.cell q none) null ((b, e) ∷ xs) null) (sym back)
              (Chain-frame t.cell a none null ((b, e) ∷ xs) null away cut);
        size = ground (arith, l.size, length-append xs ((a, d) ∷ []));
        ends = (l.ends.0, refl);
      },
      refl,
    )

-- `dll_fifo_pop_back` takes the back cell off every well-formed list that has one, and returns its
-- payload; no payload is dropped.
pop_back_lem :
    (s : Store) (f : DllFifo) (xs : Cells) (a d : ℕ)
    → IsList s f (xs ++ (a, d) ∷ [])
    → (f' : DllFifo) × (t : Store) × (pop_back f s ≡ some ((some d, f'), t))
      × IsList t f' xs
      × (t.dropped ≡ s.dropped)
pop_back_lem s f [] a d l = (
  record f { back = null; size = f.size - 1 },
  record s { cell = update s.cell f.back none },
  pop_back_last s f a d l,
  record { chain = tt; size = ground (arith, l.size); ends = tt },
  refl,
)
pop_back_lem s f ((b, e) ∷ xs) a d l = pop_back_more s f b e xs a d l

-- After `dll_fifo_pop_back` of the last cell the handle's `front` still points to the freed node.
pub front_dangles :
    (s : Store) (f : DllFifo) (a d : ℕ)
    → IsList s f ((a, d) ∷ [])
    → (f' : DllFifo) × (t : Store) × (pop_back f s ≡ some ((some d, f'), t))
      × (f'.front ≡ a)
      × (f'.size ≡ 0)
      × (t.cell a ≡ none)
front_dangles s f a d l = (
  record f { back = null; size = f.size - 1 },
  record s { cell = update s.cell f.back none },
  pop_back_last s f a d l,
  l.ends.0,
  ground (arith, l.size),
  ap (λ q. update s.cell q none a) l.ends.1 ∙ update_self s.cell a none,
)
