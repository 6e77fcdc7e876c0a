-- ===== src/Dll/Unlink.antt =====
-- Taking a cell out of the middle: the common end of `dll_fifo_erase` and `dll_fifo_remove`.
use package_compile_sys.Common.{
  ℕ, ◌-◌, ◌≡◌, refl, sym, ap, ◌∙◌, [], ◌∷◌, ◌++◌, none, some, arith, length-append, append-nil,
  ne→==, ◌==◌, if◌then◌else◌,
}
use package_compile_sys.Dll.{DllFifo, DllFifoPar, release, unlink}
use package_compile_sys.Dll.Heap.{
  Ptr, null, Node, node, Store, Cmd, pure, update, update_ne, set_prev, set_next, bind_ok, load_ok,
  set_prev_ok, set_next_ok, free_ok, load, free_node,
}
use package_compile_sys.Dll.Chain.{
  Cells, first_or, last_or, Absent, Apart, Chain, Chain-frame, Chain-split, Chain-join, relink_last,
  relink_first, last_or-append_cons, last_or-ne-null, Absent-last-Apart, Absent-head-Apart,
  Apart-tail,
}
use package_compile_sys.Dll.Queue.{IsList, Ends}
use package_compile_sys.Dll.Walk.{release_lem}

-- `if(idx->prev) idx->prev->next = idx->next;` and the other half.
abbrev bridge_next : Ptr → Ptr → Cmd (Unit {0})
bridge_next p q = if p == null then pure tt else set_next p q

abbrev bridge_prev : Ptr → Ptr → Cmd (Unit {0})
bridge_prev p q = if p == null then pure tt else set_prev p q

bridge_next_lem :
    (s : Store) (xs ys : Cells) (a d q : ℕ)
    → Chain s.cell null xs a
    → Chain s.cell (last_or null xs) ((a, d) ∷ ys) null
    → Apart xs ((a, d) ∷ ys)
    → (t : Store) × (bridge_next (last_or null xs) q s ≡ some (tt, t))
      × Chain t.cell null xs q
      × Chain t.cell (last_or null xs) ((a, d) ∷ ys) null
      × (t.dropped ≡ s.dropped)
bridge_next_lem s [] ys a d q left right apart = (s, refl, tt, right, refl)
bridge_next_lem s ((b, e) ∷ xs) ys a d q left right apart =
    let (n, at, points, linked) = relink_last s.cell null b e xs a q left in
    let p = last_or b xs in
    (
      record s { cell = update s.cell p (some (record n { next = q })) },
      rw (ne→== p null (last_or-ne-null s.cell null b e xs a left)) (set_next_ok p q s n at),
      linked,
      Chain-frame s.cell p _ p ((a, d) ∷ ys) null (Absent-last-Apart b e xs ((a, d) ∷ ys) apart)
          right,
      refl,
    )

bridge_prev_lem :
    (s : Store) (xs ys : Cells) (a d p q : ℕ) (n : Node)
    → Chain s.cell null xs q
    → Chain s.cell a ys null
    → Absent a ys
    → Apart xs ys
    → s.cell a ≡ some n
    → (t : Store) × (bridge_prev (first_or null ys) p s ≡ some (tt, t))
      × Chain t.cell null xs q
      × Chain t.cell p ys null
      × (t.cell a ≡ some n)
      × (t.dropped ≡ s.dropped)
bridge_prev_lem s xs [] a d p q n left right away apart at = (s, refl, left, tt, at, refl)
bridge_prev_lem s xs ((b, e) ∷ ys) a d p q n left right away apart at =
    let m = node p (first_or null ys) e in
    (
      record s { cell = update s.cell b (some m) },
      rw (ne→== b null right.0) (set_prev_ok b p s _ right.1),
      Chain-frame s.cell b _ null xs q (Absent-head-Apart b e xs ys apart) left,
      relink_first s.cell a b e ys null p right,
      update_ne s.cell b a _ (λ r. away.0 (sym r)) ∙ at,
      refl,
    )

-- The handle after the cell is out.
abbrev relinked : DllFifo → Cells → Cells → DllFifo
relinked f xs ys = record f {
  front = if last_or null xs == null then first_or null ys else f.front;
  back = if first_or null ys == null then last_or null xs else f.back;
  size = f.size - 1;
}

relinked-Ends :
    (s : Store) (f : DllFifo) (xs ys : Cells) (a d : ℕ)
    → IsList s f (xs ++ (a, d) ∷ ys)
    → Chain s.cell null xs a
    → Chain s.cell a ys null
    → Ends (relinked f xs ys) (xs ++ ys)
relinked-Ends s f [] [] a d l left right = tt
relinked-Ends s f [] ((b, e) ∷ ys) a d l left right = (refl, rw (ne→== b null right.0) l.ends.1)
relinked-Ends s f ((b, e) ∷ xs) [] a d l left right =
    rw append-nil
      (rw (ne→== (last_or b xs) null (last_or-ne-null s.cell null b e xs a left)) l.ends.0, refl)
relinked-Ends s f ((b, e) ∷ xs) ((b', e') ∷ ys) a d l left right = (
  rw (ne→== (last_or b xs) null (last_or-ne-null s.cell null b e xs a left)) l.ends.0,
  rw (ne→== b' null right.0) (
      l.ends.1
      ∙ last_or-append_cons b a d xs ((b', e') ∷ ys)
      ∙ sym (last_or-append_cons b b' e' xs ys)),
)

-- Taking out the cell `a` of a well-formed list: its neighbours are joined, the ends and the count
-- follow, its payload goes to `dat_destroy` (if set), and its node is freed.
pub unlink_lem :
    (s : Store) (f : DllFifo) (par : DllFifoPar) (xs ys : Cells) (a d : ℕ)
    → IsList s f (xs ++ (a, d) ∷ ys)
    → f.par ≡ some par
    → (f' : DllFifo) × (t : Store) × (unlink f a s ≡ some (f', t))
      × IsList t f' (xs ++ ys)
      × (t.dropped ≡ (if par.dat_destroy then d ∷ s.dropped else s.dropped))
unfolding unlink
unlink_lem s f par xs ys a d l e =
    let (left, right, apart) = Chain-split s.cell null xs ((a, d) ∷ ys) null l.chain in
    let nd = node (last_or null xs) (first_or null ys) d in
    let (s1, run1, left1, right1, same1) =
      bridge_next_lem s xs ys a d (first_or null ys) left right apart in
    let (s2, run2, left2, right2, at2, same2) =
      bridge_prev_lem s1 xs ys a d (last_or null xs) (first_or null ys) nd left1 right1.3 right.2
        (Apart-tail a d xs ys apart) right1.1 in
    let s3 : Store = record s2 {
      dropped = if par.dat_destroy then d ∷ s2.dropped else s2.dropped;
    } in
    (
      relinked f xs ys,
      record s3 { cell = update s3.cell a none },
      bind_ok (load a) _ s nd s (load_ok a s nd right.1)
          ∙ bind_ok (bridge_next (last_or null xs) (first_or null ys)) _ s tt s1 run1
          ∙ bind_ok (bridge_prev (first_or null ys) (last_or null xs)) _ s1 tt s2 run2
          ∙ bind_ok (release f d) _ s2 tt s3 (release_lem f par d s2 e)
          ∙ bind_ok (free_node a) _ s3 tt _ (free_ok a s3 nd at2),
      record {
        chain =
            Chain-join _ null xs ys null
              (Chain-frame s2.cell a none null xs (first_or null ys)
                (Absent-head-Apart a d xs ys apart) left2)
              (Chain-frame s2.cell a none (last_or null xs) ys null right.2 right2)
              (Apart-tail a d xs ys apart);
        size = ground (arith, l.size, length-append xs ((a, d) ∷ ys), length-append xs ys);
        ends = relinked-Ends s f xs ys a d l left right.3;
      },
      ap (λ r. if par.dat_destroy then d ∷ r else r) (same2 ∙ same1),
    )
