-- ===== src/Dll/Insert.antt =====
-- `dll_fifo_insert` between two cells.
use package_compile_sys.Common.{
  ℕ, ◌+◌, ◌<◌, ◌≡◌, ◌≢◌, refl, sym, ap, ◌∙◌, [], ◌∷◌, ◌++◌, none, some, true, arith, length,
  length-append, ne→==, lt→leb,
}
use package_compile_sys.Dll.{DllFifo, seek, insert}
use package_compile_sys.Dll.Heap.{
  Ptr, null, node, Store, update, update_self, update_ne, bind_ok, load, load_ok, set_prev,
  set_next, set_prev_ok, set_next_ok,
}
use package_compile_sys.Dll.Chain.{
  Cells, first_or, last_or, Absent, Apart, Chain, Chain-split, Chain-join, Chain-frame,
  Absent-fresh, Absent-left, Absent-right, Absent-last, Absent-last-Apart, Absent-head-Apart,
  relink_last, relink_first, last_or-append_cons,
}
use package_compile_sys.Dll.Queue.{IsList}
use package_compile_sys.Dll.Walk.{seek_lem}
use package_compile_sys.Dll.Middle.{addr_at-length, front_of}

Apart-cons : (p d : ℕ) (xs ys : Cells) → Absent p xs → Apart xs ys → Apart xs ((p, d) ∷ ys)
Apart-cons p d [] ys h f = tt
Apart-cons p d ((a, e) ∷ xs) ys h f = (((λ q. h.0 (sym q)), f.0), Apart-cons p d xs ys h.1 f.1)

module _ (fuel : ℕ) (s : Store) (f : DllFifo) (b e : ℕ) (xs ys : Cells) (a d nd x : ℕ)
    (l : IsList s f (((b, e) ∷ xs) ++ (a, d) ∷ ys))
    (enough : length (((b, e) ∷ xs) ++ (a, d) ∷ ys) < fuel) (there : nd ≢ null)
    (fresh : s.cell nd ≡ none) where
  parts :
      Chain s.cell null ((b, e) ∷ xs) a
      × Chain s.cell (last_or b xs) ((a, d) ∷ ys) null
      × Apart ((b, e) ∷ xs) ((a, d) ∷ ys)
  parts = Chain-split s.cell null ((b, e) ∷ xs) ((a, d) ∷ ys) null l.chain

  absent : Absent nd (((b, e) ∷ xs) ++ (a, d) ∷ ys)
  absent = Absent-fresh s.cell nd null (((b, e) ∷ xs) ++ (a, d) ∷ ys) null fresh l.chain

  before : Absent nd ((b, e) ∷ xs)
  before = Absent-left nd ((b, e) ∷ xs) ((a, d) ∷ ys) absent

  behind : Absent nd ((a, d) ∷ ys)
  behind = Absent-right nd ((b, e) ∷ xs) ((a, d) ∷ ys) absent

  abbrev p : Ptr
  p = last_or b xs

  abbrev zeroed : Store
  zeroed = record s { cell = update s.cell nd (some (node null null x)) }

  abbrev aimed : Store
  aimed = record s { cell = update zeroed.cell nd (some (node null a x)) }

  abbrev both : Store
  both = record s { cell = update aimed.cell nd (some (node p a x)) }

  framed3 :
      (prev : Ptr) (zs : Cells) (after : Ptr)
      → Absent nd zs
      → Chain s.cell prev zs after
      → Chain both.cell prev zs after
  framed3 prev zs after h c =
      Chain-frame aimed.cell nd _ prev zs after h
        (Chain-frame zeroed.cell nd _ prev zs after h (Chain-frame s.cell nd _ prev zs after h c))

  seek_run : seek fuel f.front (length ((b, e) ∷ xs)) s ≡ some (a, s)
  seek_run =
      ap (λ q. seek fuel q (length ((b, e) ∷ xs)) s) (front_of s f ((b, e) ∷ xs) ys a d l)
      ∙ seek_lem fuel (length ((b, e) ∷ xs)) s null (((b, e) ∷ xs) ++ (a, d) ∷ ys) l.chain enough
      ∙ ap (λ q. some (q, s)) (addr_at-length a d ((b, e) ∷ xs) ys)

  -- `dll_fifo_insert` of a fresh node into a well-formed list, at an index above 0 and below the
  -- count, succeeds: the new cell stands at that index, the others stay in order, and no payload
  -- is dropped. A round for each cell and one more are enough.
  pub insert_lem :
      (f' : DllFifo) × (t : Store) × (insert fuel nd f x (length ((b, e) ∷ xs)) s
        ≡ some ((true, f'), t))
      × IsList t f' (((b, e) ∷ xs) ++ (nd, x) ∷ (a, d) ∷ ys)
      × (t.dropped ≡ s.dropped)
  unfolding insert
  insert_lem =
      let (left, right, apart) = parts in
      let here = node p (first_or null ys) d in
      let (m, at_p, points, linked) =
        relink_last both.cell null b e xs a nd (framed3 null ((b, e) ∷ xs) a before left) in
      let chained : Store = record s {
        cell = update both.cell p (some (record m { next = nd }));
      } in
      let right' : Chain chained.cell p ((a, d) ∷ ys) null =
        Chain-frame both.cell p _ p ((a, d) ∷ ys) null
          (Absent-last-Apart b e xs ((a, d) ∷ ys) apart)
          (framed3 p ((a, d) ∷ ys) null behind right) in
      let t : Store = record s {
        cell = update chained.cell a (some (node nd (first_or null ys) d));
      } in
      let nd_kept : t.cell nd ≡ some (node p a x) =
        update_ne chained.cell a nd _ (λ q. behind.0 (sym q))
        ∙ update_ne both.cell p nd _ (λ q. Absent-last nd b e xs before (sym q))
        ∙ update_self aimed.cell nd _ in
      (
        record f { size = f.size + 1 },
        t,
        rw
            (
              ne→== (length ((b, e) ∷ xs)) 0 (λ q. omega arith),
              lt→leb f.size (length ((b, e) ∷ xs))
                  (ground (arith, l.size, length-append xs ((a, d) ∷ ys))),
            )
            (bind_ok (seek fuel f.front (length ((b, e) ∷ xs))) _ s a s seek_run
              ∙ rw (ne→== nd null there) (
                  bind_ok (set_next nd a) _ zeroed tt aimed
                    (set_next_ok nd a zeroed _ (update_self s.cell nd _))
                  ∙ bind_ok (load a) _ aimed here aimed (
                      load_ok a aimed here (
                        update_ne zeroed.cell nd a _ behind.0
                        ∙ update_ne s.cell nd a _ behind.0
                        ∙ right.1))
                  ∙ bind_ok (set_prev nd p) _ aimed tt both
                      (set_prev_ok nd p aimed _ (update_self zeroed.cell nd _))
                  ∙ bind_ok (set_next p nd) _ both tt chained (set_next_ok p nd both m at_p)
                  ∙ bind_ok (set_prev a nd) _ chained tt t
                      (set_prev_ok a nd chained here right'.1))),
        record {
          chain =
              Chain-join t.cell null ((b, e) ∷ xs) ((nd, x) ∷ (a, d) ∷ ys) null
                (Chain-frame chained.cell a _ null ((b, e) ∷ xs) nd
                  (Absent-head-Apart a d ((b, e) ∷ xs) ys apart) linked)
                (there, nd_kept, behind, relink_first chained.cell p a d ys null nd right')
                (Apart-cons nd x ((b, e) ∷ xs) ((a, d) ∷ ys) before apart);
          size = ground (
            arith,
            l.size,
            length-append xs ((a, d) ∷ ys),
            length-append xs ((nd, x) ∷ (a, d) ∷ ys),
          );
          ends = (
            l.ends.0,
            l.ends.1
                ∙ last_or-append_cons b a d xs ys
                ∙ sym (last_or-append_cons b nd x xs ((a, d) ∷ ys)),
          );
        },
        refl,
      )
