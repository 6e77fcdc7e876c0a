-- ===== src/Sockets/Serve.antt =====
-- The same file, a round of a select server: which sockets are served, and how.
use package_compile_sys.Common.{
  ℕ, suc, ◌+◌, ◌-◌, ◌≤◌, ◌<◌, ◌≡◌, refl, ap, sym, ◌∙◌, inl, inr, List, [], ◌∷◌, ◌++◌, Option, none,
  some, Bool, true, false, ◌==◌, if◌then◌else◌, ◌&&◌, ◌||◌, not, arith, Bool-cases,
}
use package_compile_sys.Common.Int.{ℤ, pos, negsuc}
use package_compile_sys.Sockets.{
  FdSet, fd_clr, SelectServer, accepts, Call, reads, writes, Served, failed_int, turn, serve,
  SelectRound, serve_slots, select_round,
}

abbrev pub is_one : ℤ → Bool
is_one (pos n) = n == 1
is_one (negsuc n) = false

-- How many slots have a ready descriptor.
unfoldable pub ready : FdSet → List (Option ℕ) → ℕ
ready rset [] = 0
ready rset (none ∷ cs) = ready rset cs
ready rset (some fd ∷ cs) = let n = ready rset cs in if rset fd then suc n else n

-- The slots behind the turns of all the ready ones: a slot is freed when its read callback returned
-- 1 as no failure.
unfoldable pub slots_after : (ℤ → Bool) → (ℕ → ℤ) → FdSet → List (Option ℕ) → ℕ → List (Option ℕ)
slots_after failed rcbk rset [] i = []
slots_after failed rcbk rset (none ∷ cs) i = none ∷ slots_after failed rcbk rset cs (i + 1)
slots_after failed rcbk rset (some fd ∷ cs) i =
    (if rset fd && not (failed (rcbk i)) && is_one (rcbk i) then none else some fd)
    ∷ slots_after failed rcbk rset cs (i + 1)

-- The callbacks of all the ready slots, in the order of the slots: a read, and a write where the
-- read neither failed nor returned 1.
unfoldable pub calls_of : (ℤ → Bool) → (ℕ → ℤ) → FdSet → List (Option ℕ) → ℕ → List Call
calls_of failed rcbk rset [] i = []
calls_of failed rcbk rset (none ∷ cs) i = calls_of failed rcbk rset cs (i + 1)
calls_of failed rcbk rset (some fd ∷ cs) i =
    let rest = calls_of failed rcbk rset cs (i + 1) in
    if rset fd
    then (if failed (rcbk i) || is_one (rcbk i)
        then reads fd ∷ rest
        else reads fd ∷ writes fd ∷ rest)
    else rest

-- A slot of the descriptor is freed.
unfoldable pub is_closed : (ℤ → Bool) → (ℕ → ℤ) → FdSet → List (Option ℕ) → ℕ → ℕ → Bool
is_closed failed rcbk rset [] i n = false
is_closed failed rcbk rset (none ∷ cs) i n = is_closed failed rcbk rset cs (i + 1) n
is_closed failed rcbk rset (some fd ∷ cs) i n =
    (rset fd && not (failed (rcbk i)) && is_one (rcbk i) && (n == fd))
    || is_closed failed rcbk rset cs (i + 1) n

-- With no ready slot nothing is left to do.
idle_slots :
    (failed : ℤ → Bool) (rcbk : ℕ → ℤ) (rset : FdSet) (cs : List (Option ℕ)) (i : ℕ)
    → ready rset cs ≡ 0
    → (slots_after failed rcbk rset cs i ≡ cs)
      × (calls_of failed rcbk rset cs i ≡ [])
      × ((n : ℕ) → is_closed failed rcbk rset cs i n ≡ false)
unfolding ready slots_after calls_of is_closed
idle_slots failed rcbk rset [] i h = (refl, refl, λ n. refl)
idle_slots failed rcbk rset (none ∷ cs) i h =
    let t = idle_slots failed rcbk rset cs (i + 1) h in (ap (λ l. none ∷ l) t.0, t.1, t.2)
idle_slots failed rcbk rset (some fd ∷ cs) i h = elim (Bool-cases (rset fd)) [
  | inl a ↦ absurd (ground (arith, a))
  | inr a ↦
      let t = idle_slots failed rcbk rset cs (i + 1) (ground (arith, a)) in
      rw (slots_after, calls_of, is_closed, a) (ap (λ l. some fd ∷ l) t.0, t.1, t.2)
]

record IsServed (failed : ℤ → Bool) (rcbk : ℕ → ℤ) (rset : FdSet) (cs : List (Option ℕ)) (i : ℕ)
    (allset : FdSet) (done : Served) : Type 0 where
  pub slots : done.slots ≡ slots_after failed rcbk rset cs i
  pub calls : done.calls ≡ calls_of failed rcbk rset cs i
  pub set : (n : ℕ) → done.set n ≡ (if is_closed failed rcbk rset cs i n then false else allset n)

pub record IsTurn (failed : ℤ → Bool) (ret : ℤ) (fd : ℕ) (allset : FdSet) : Type 0 where
  pub slot :
      (turn failed ret fd allset).0 ≡ (if not (failed ret) && is_one ret then none else some fd)
  pub calls :
      (turn failed ret fd allset).2
      ≡ (if failed ret || is_one ret then reads fd ∷ [] else reads fd ∷ writes fd ∷ [])
  pub set :
      (n : ℕ)
      → (turn failed ret fd allset).1 n
        ≡ (if not (failed ret) && is_one ret && (n == fd) then false else allset n)

pub turn_lem : (failed : ℤ → Bool) (ret : ℤ) (fd : ℕ) (allset : FdSet) → IsTurn failed ret fd allset
unfolding turn fd_clr
turn_lem failed ret fd allset = elim (Bool-cases (failed ret)) [
  | inl a ↦ record {
    slot = rw (turn, a) refl;
    calls = rw (turn, a) refl;
    set = λ n. rw (turn, a) refl;
  }
  | inr a ↦ go ret a
]
  where
    go : (r : ℤ) → failed r ≡ false → IsTurn failed r fd allset
    go (negsuc m) b = record {
      slot = rw (turn, b) refl;
      calls = rw (turn, b) refl;
      set = λ n. rw (turn, b) refl;
    }
    go (pos m) b = elim (Bool-cases (m == 1)) [
      | inl c ↦ record {
        slot = rw (turn, b, c) refl;
        calls = rw (turn, b, c) refl;
        set = λ n. rw (turn, b, c) refl;
      }
      | inr c ↦ record {
        slot = rw (turn, b, c) refl;
        calls = rw (turn, b, c) refl;
        set = λ n. rw (turn, b, c) refl;
      }
    ]

if_or :
    (a b x : Bool) → (if b then false else (if a then false else x)) ≡ (if a || b then false else x)
if_or true true x = refl
if_or true false x = refl
if_or false b x = refl

if_append :
    (b : Bool) (x y : List Call) (rest : List Call)
    → (if b then x else y) ++ rest ≡ (if b then x ++ rest else y ++ rest)
if_append true x y rest = refl
if_append false x y rest = refl

serve-IsServed :
    (failed : ℤ → Bool) (rcbk : ℕ → ℤ) (rset : FdSet) (cs : List (Option ℕ)) (i nready : ℕ)
    (allset : FdSet)
    → 0 < nready
    → ready rset cs ≤ nready
    → IsServed failed rcbk rset cs i allset (serve failed rcbk rset cs i nready allset)
unfolding serve slots_after calls_of is_closed ready
serve-IsServed failed rcbk rset [] i nready allset h e = record {
  slots = refl;
  calls = refl;
  set = λ n. refl;
}
serve-IsServed failed rcbk rset (none ∷ cs) i nready allset h e =
    let t = serve-IsServed failed rcbk rset cs (i + 1) nready allset h e in
    record { slots = ap (λ l. none ∷ l) t.slots; calls = t.calls; set = t.set }
serve-IsServed failed rcbk rset (some fd ∷ cs) i nready allset h e = elim (Bool-cases (rset fd)) [
  | inr a ↦
      let z : (nready == 0) ≡ false = ground arith in
      let t = serve-IsServed failed rcbk rset cs (i + 1) nready allset h (ground (arith, a)) in
      rw (serve, a, z)
        record {
          slots = rw (slots_after, a) (ap (λ l. some fd ∷ l) t.slots);
          calls = rw (calls_of, a) t.calls;
          set = λ n. rw (is_closed, a) (t.set n);
        }
  | inl a ↦
      let u = turn_lem failed (rcbk i) fd allset in
      elim (Bool-cases (nready - 1 == 0)) [
        | inl z ↦
            let t = idle_slots failed rcbk rset cs (i + 1) (ground (arith, a)) in
            rw (serve, a, z)
              record {
                slots = rw (slots_after, a, u.slot, t.0) refl;
                calls = rw (calls_of, a, u.calls, t.1) refl;
                set = λ n.
                    rw (is_closed, a, t.2 n, u.set n)
                      (if_or (not (failed (rcbk i)) && is_one (rcbk i) && n == fd) false
                        (allset n));
              }
        | inr z ↦
            let t =
              serve-IsServed failed rcbk rset cs (i + 1) (nready - 1)
                (turn failed (rcbk i) fd allset).1 (ground arith) (ground (arith, a)) in
            rw (serve, a, z)
              record {
                slots = rw (slots_after, a, u.slot, t.slots) refl;
                calls =
                    rw (calls_of, a, u.calls, t.calls)
                      (if_append (failed (rcbk i) || is_one (rcbk i)) (reads fd ∷ [])
                        (reads fd ∷ writes fd ∷ []) (calls_of failed rcbk rset cs (i + 1)));
                set = λ n.
                    t.set n
                    ∙ rw (is_closed, a, u.set n)
                        (if_or (not (failed (rcbk i)) && is_one (rcbk i) && n == fd)
                          (is_closed failed rcbk rset cs (i + 1) n) (allset n));
              }
      ]
]

serve_slots-IsServed :
    (failed : ℤ → Bool) (r : SelectRound) (n : ℕ) (s : SelectServer)
    → ready r.rset s.conn_a ≤ n
    → ((serve_slots failed r n s).0.conn_a ≡ slots_after failed r.rcbk r.rset s.conn_a 0)
      × ((serve_slots failed r n s).1 ≡ calls_of failed r.rcbk r.rset s.conn_a 0)
      × ((fd : ℕ)
          → (serve_slots failed r n s).0.allset fd
            ≡ (if is_closed failed r.rcbk r.rset s.conn_a 0 fd then false else s.allset fd))
unfolding serve_slots
serve_slots-IsServed failed r n s e = elim (Bool-cases (n == 0)) [
  | inl z ↦
      let t = idle_slots failed r.rcbk r.rset s.conn_a 0 (ground (arith, e)) in
      rw (serve_slots, z) (sym t.0, sym t.1, λ fd. rw (t.2 fd) refl)
  | inr z ↦
      let t =
        serve-IsServed failed r.rcbk r.rset s.conn_a 0 n s.allset (ground arith)
          (omega (arith, e)) in
      rw (serve_slots, z) (t.slots, t.calls, t.set)
]

-- The server of a round of a TCP server, with the connection that it accepts.
abbrev pub behind_accept :
    (ℕ → List (Option ℕ) → List (Option ℕ)) → ℕ → SelectRound → SelectServer → SelectServer
behind_accept store sfd r s = if r.rset sfd then accepts store r.accepted s else s

-- Let the result of `select` be no less than the number of ready slots, and one more for the listening
-- socket if it is ready. Then one round of a TCP server, which accepts a connection first if the
-- listening socket is ready, has all the ready slots served.
pub select_round-IsServed :
    (store : ℕ → List (Option ℕ) → List (Option ℕ)) (sfd : ℕ) (r : SelectRound) (s : SelectServer)
    → (if r.rset sfd then 1 else 0) + ready r.rset (behind_accept store sfd r s).conn_a ≤ r.nready
    → ((select_round store sfd r s).0.conn_a
        ≡ slots_after failed_int r.rcbk r.rset (behind_accept store sfd r s).conn_a 0)
      × ((select_round store sfd r s).1
          ≡ calls_of failed_int r.rcbk r.rset (behind_accept store sfd r s).conn_a 0)
      × ((fd : ℕ)
          → (select_round store sfd r s).0.allset fd ≡ (
              if is_closed failed_int r.rcbk r.rset (behind_accept store sfd r s).conn_a 0 fd
              then false
              else (behind_accept store sfd r s).allset fd))
unfolding select_round
select_round-IsServed store sfd r s e = elim (Bool-cases (r.rset sfd)) [
  | inl a ↦
      let z : (r.nready == 0) ≡ false = ground (arith, a) in
      rw (select_round, z, a)
        (serve_slots-IsServed failed_int r (r.nready - 1) _ (ground (arith, a)))
  | inr a ↦ elim (Bool-cases (r.nready == 0)) [
    | inl z ↦
        let t = idle_slots failed_int r.rcbk r.rset s.conn_a 0 (ground (arith, a)) in
        rw (select_round, z, a) (sym t.0, sym t.1, λ fd. rw (t.2 fd) refl)
    | inr z ↦
        rw (select_round, z, a) (serve_slots-IsServed failed_int r r.nready s (ground (arith, a)))
  ]
]
