-- ===== src/Sockets/Lost.antt =====
-- The same file, whether a connection that was accepted is ever served.
use package_compile_sys.Common.{
  ℕ, zero, suc, ◌+◌, ◌-◌, ◌≡◌, ◌≢◌, refl, ap, ◌∙◌, inl, inr, List, [], ◌∷◌, ◌++◌, Option, none,
  some, Bool, true, false, ◌==◌, if◌then◌else◌, ◌||◌, ◌&&◌, not, arith, Bool-cases, replicate,
  ne→==,
}
use package_compile_sys.Common.Int.{ℤ}
use package_compile_sys.Sockets.{
  FdSet, SelectServer, select_start, store_all, accepts, Call, reads, writes, failed_int, turn,
  serve, SelectRound, serve_slots, select_round, un_select_tcp_server, fd_setsize,
}
use package_compile_sys.Sockets.Serve.{turn_lem, is_one}

unfoldable pub has_slot : ℕ → List (Option ℕ) → Bool
has_slot c [] = false
has_slot c (none ∷ cs) = has_slot c cs
has_slot c (some d ∷ cs) = d == c || has_slot c cs

-- A callback is called with the descriptor.
unfoldable pub mentions : ℕ → List Call → Bool
mentions c [] = false
mentions c (reads d ∷ calls) = d == c || mentions c calls
mentions c (writes d ∷ calls) = d == c || mentions c calls

or_assoc : (a b c : Bool) → a || (b || c) ≡ (a || b) || c
or_assoc true b c = refl
or_assoc false b c = refl

mentions-append :
    (c : ℕ) (xs ys : List Call) → mentions c (xs ++ ys) ≡ (mentions c xs || mentions c ys)
unfolding mentions
mentions-append c [] ys = refl
mentions-append c (reads d ∷ xs) ys =
    ap (λ b. d == c || b) (mentions-append c xs ys) ∙ or_assoc (d == c) _ _
mentions-append c (writes d ∷ xs) ys =
    ap (λ b. d == c || b) (mentions-append c xs ys) ∙ or_assoc (d == c) _ _

no_mention :
    (c : ℕ) (xs ys : List Call)
    → mentions c xs ≡ false
    → mentions c ys ≡ false
    → mentions c (xs ++ ys) ≡ false
no_mention c xs ys h g = mentions-append c xs ys ∙ rw (h, g) refl

-- The turn of another descriptor.
turn-other :
    (failed : ℤ → Bool) (ret : ℤ) (fd c : ℕ) (allset : FdSet) (cs : List (Option ℕ))
    → (fd == c) ≡ false
    → has_slot c cs ≡ false
    → (has_slot c ((turn failed ret fd allset).0 ∷ cs) ≡ false)
      × (mentions c (turn failed ret fd allset).2 ≡ false)
unfolding has_slot mentions
turn-other failed ret fd c allset cs h g =
    let t = turn_lem failed ret fd allset in (rw t.slot (slots _), rw t.calls (calls _))
  where
    slots : (b : Bool) → has_slot c ((if b then none else some fd) ∷ cs) ≡ false
    slots true = g
    slots false = rw (has_slot, h) g

    calls : (b : Bool) → mentions c (if b then reads fd ∷ [] else reads fd ∷ writes fd ∷ []) ≡ false
    calls true = rw (mentions, h) refl
    calls false = rw (mentions, h) refl

-- Slots without the descriptor stay without it, and its callbacks are not called.
serve-other :
    (failed : ℤ → Bool) (rcbk : ℕ → ℤ) (rset : FdSet) (c : ℕ) (cs : List (Option ℕ)) (i n : ℕ)
    (allset : FdSet)
    → has_slot c cs ≡ false
    → (has_slot c (serve failed rcbk rset cs i n allset).slots ≡ false)
      × (mentions c (serve failed rcbk rset cs i n allset).calls ≡ false)
unfolding serve has_slot mentions
serve-other failed rcbk rset c [] i n allset h = (refl, refl)
serve-other failed rcbk rset c (none ∷ cs) i n allset h =
    serve-other failed rcbk rset c cs (i + 1) n allset h
serve-other failed rcbk rset c (some fd ∷ cs) i n allset h =
    let o : (fd == c) ≡ false = ground (arith, h) in
    let g : has_slot c cs ≡ false = ground (arith, h) in
    elim (Bool-cases (rset fd)) [
      | inr a ↦ elim (Bool-cases (n == 0)) [
        | inl z ↦ rw (serve, a, z) (h, refl)
        | inr z ↦
            let t = serve-other failed rcbk rset c cs (i + 1) n allset g in
            rw (serve, a, z, has_slot, o) t
      ]
      | inl a ↦ elim (Bool-cases (n - 1 == 0)) [
        | inl z ↦ rw (serve, a, z) (turn-other failed (rcbk i) fd c allset cs o g)
        | inr z ↦
            let t =
              serve-other failed rcbk rset c cs (i + 1) (n - 1) (turn failed (rcbk i) fd allset).1
                g in
            let u = turn-other failed (rcbk i) fd c allset _ o t.0 in
            rw (serve, a, z) (u.0, no_mention c _ _ u.1 t.1)
      ]
    ]

serve_slots-other :
    (failed : ℤ → Bool) (r : SelectRound) (n c : ℕ) (s : SelectServer)
    → has_slot c s.conn_a ≡ false
    → (has_slot c (serve_slots failed r n s).0.conn_a ≡ false)
      × (mentions c (serve_slots failed r n s).1 ≡ false)
unfolding serve_slots mentions
serve_slots-other failed r n c s h = elim (Bool-cases (n == 0)) [
  | inl z ↦ rw (serve_slots, z) (h, refl)
  | inr z ↦ rw (serve_slots, z) (serve-other failed r.rcbk r.rset c s.conn_a 0 n s.allset h)
]

store_all-other :
    (c d : ℕ) (cs : List (Option ℕ))
    → (d == c) ≡ false
    → has_slot c cs ≡ false
    → has_slot c (store_all d cs) ≡ false
unfolding store_all has_slot
store_all-other c d [] o h = refl
store_all-other c d (none ∷ cs) o h = rw (has_slot, o) (store_all-other c d cs o h)
store_all-other c d (some e ∷ cs) o h =
    let g : (e == c) ≡ false = ground (arith, h) in
    let k : has_slot c cs ≡ false = ground (arith, h) in
    rw (has_slot, g) (store_all-other c d cs o k)

-- No slot is free.
unfoldable pub is_full : List (Option ℕ) → Bool
is_full [] = true
is_full (none ∷ cs) = false
is_full (some c ∷ cs) = is_full cs

is_full-store_all : (c : ℕ) (cs : List (Option ℕ)) → is_full (store_all c cs) ≡ true
unfolding is_full store_all
is_full-store_all c [] = refl
is_full-store_all c (none ∷ cs) = is_full-store_all c cs
is_full-store_all c (some d ∷ cs) = is_full-store_all c cs

store_all-full : (c : ℕ) (cs : List (Option ℕ)) → is_full cs ≡ true → store_all c cs ≡ cs
unfolding is_full store_all
store_all-full c [] h = refl
store_all-full c (none ∷ cs) h = cc
store_all-full c (some d ∷ cs) h = ap (λ l. some d ∷ l) (store_all-full c cs h)

has_slot-none : (c n : ℕ) → has_slot c (replicate n none) ≡ false
unfolding has_slot
has_slot-none c zero = refl
has_slot-none c (suc n) = has_slot-none c n

-- The rounds of `un_select_tcp_server`, with all the calls.
unfoldable pub un_run : ℕ → List SelectRound → SelectServer → SelectServer × List Call
un_run sfd [] s = (s, [])
un_run sfd (r ∷ rs) s =
    let (t, calls) = un_select_tcp_server sfd r s in
    let (u, more) = un_run sfd rs t in (u, calls ++ more)

-- `accept` does not return the descriptor again.
abbrev pub NotAgain : ℕ → List SelectRound → Type 0
NotAgain c [] = Unit
NotAgain c (r ∷ rs) = (r.accepted ≢ some c) × NotAgain c rs

-- A round in which the listening socket alone is ready, and `accept` returns the descriptor.
pub record Accepts (sfd c : ℕ) (r : SelectRound) : Type 0 where
  pub only : r.nready ≡ 1
  pub listening : r.rset sfd ≡ true
  pub conn : r.accepted ≡ some c

accepts-other :
    (c : ℕ) (o : Option ℕ) (s : SelectServer)
    → o ≢ some c
    → has_slot c s.conn_a ≡ false
    → has_slot c (accepts store_all o s).conn_a ≡ false
unfolding accepts
accepts-other c none s ne h = h
accepts-other c (some d) s ne h = store_all-other c d s.conn_a (ne→== d c (λ e. ne (ap some e))) h

accepting_round :
    (sfd c : ℕ) (r : SelectRound) (s : SelectServer)
    → Accepts sfd c r
    → un_select_tcp_server sfd r s ≡ (accepts store_all (some c) s, [])
unfolding un_select_tcp_server select_round serve_slots
accepting_round sfd c r s a =
    rw (un_select_tcp_server, select_round, serve_slots, a.only, a.listening, a.conn) refl

un_round-other :
    (sfd c : ℕ) (r : SelectRound) (s : SelectServer)
    → r.accepted ≢ some c
    → has_slot c s.conn_a ≡ false
    → (has_slot c (un_select_tcp_server sfd r s).0.conn_a ≡ false)
      × (mentions c (un_select_tcp_server sfd r s).1 ≡ false)
unfolding un_select_tcp_server select_round mentions accepts
un_round-other sfd c r s new h = elim (Bool-cases (r.nready == 0)) [
  | inl z ↦ rw (un_select_tcp_server, select_round, z) (h, refl)
  | inr z ↦ elim (Bool-cases (r.rset sfd)) [
    | inr a ↦
        rw (un_select_tcp_server, select_round, z, a)
          (serve_slots-other failed_int r r.nready c s h)
    | inl a ↦
        rw (un_select_tcp_server, select_round, z, a)
          (serve_slots-other failed_int r (r.nready - 1) c _ (accepts-other c r.accepted s new h))
  ]
]

un_run-other :
    (sfd c : ℕ) (rs : List SelectRound) (s : SelectServer)
    → NotAgain c rs
    → has_slot c s.conn_a ≡ false
    → mentions c (un_run sfd rs s).1 ≡ false
unfolding un_run mentions
un_run-other sfd c [] s new h = refl
un_run-other sfd c (r ∷ rs) s new h =
    let t = un_round-other sfd c r s new.0 h in
    no_mention c _ _ t.1 (un_run-other sfd c rs _ new.1 t.0)

-- A round whose read callbacks return 1 in no slot.
abbrev pub ClosesNone : SelectRound → Type 0
ClosesNone r = (i : ℕ) → is_one (r.rcbk i) ≡ false

abbrev pub CloseNone : List SelectRound → Type 0
CloseNone [] = Unit {0}
CloseNone (r ∷ rs) = ClosesNone r × CloseNone rs

turn-full :
    (failed : ℤ → Bool) (ret : ℤ) (fd : ℕ) (allset : FdSet) (cs : List (Option ℕ))
    → is_one ret ≡ false
    → is_full cs ≡ true
    → is_full ((turn failed ret fd allset).0 ∷ cs) ≡ true
unfolding is_full
turn-full failed ret fd allset cs one h =
    rw ((turn_lem failed ret fd allset).slot, one) (slots (not (failed ret)))
  where
    slots : (b : Bool) → is_full ((if b && false then none else some fd) ∷ cs) ≡ true
    slots true = h
    slots false = h

serve-full :
    (failed : ℤ → Bool) (rcbk : ℕ → ℤ) (rset : FdSet) (cs : List (Option ℕ)) (i n : ℕ)
    (allset : FdSet)
    → ((j : ℕ) → is_one (rcbk j) ≡ false)
    → is_full cs ≡ true
    → is_full (serve failed rcbk rset cs i n allset).slots ≡ true
unfolding serve is_full
serve-full failed rcbk rset [] i n allset one h = refl
serve-full failed rcbk rset (none ∷ cs) i n allset one h = cc
serve-full failed rcbk rset (some fd ∷ cs) i n allset one h = elim (Bool-cases (rset fd)) [
  | inr a ↦ elim (Bool-cases (n == 0)) [
    | inl z ↦ rw (serve, a, z) h
    | inr z ↦ rw (serve, a, z) (serve-full failed rcbk rset cs (i + 1) n allset one h)
  ]
  | inl a ↦ elim (Bool-cases (n - 1 == 0)) [
    | inl z ↦ rw (serve, a, z) (turn-full failed (rcbk i) fd allset cs (one i) h)
    | inr z ↦
        rw (serve, a, z)
          (turn-full failed (rcbk i) fd allset _ (one i) (
            serve-full failed rcbk rset cs (i + 1) (n - 1) (turn failed (rcbk i) fd allset).1 one
              h))
  ]
]

serve_slots-full :
    (failed : ℤ → Bool) (r : SelectRound) (n : ℕ) (s : SelectServer)
    → ClosesNone r
    → is_full s.conn_a ≡ true
    → is_full (serve_slots failed r n s).0.conn_a ≡ true
unfolding serve_slots
serve_slots-full failed r n s one h = elim (Bool-cases (n == 0)) [
  | inl z ↦ rw (serve_slots, z) h
  | inr z ↦ rw (serve_slots, z) (serve-full failed r.rcbk r.rset s.conn_a 0 n s.allset one h)
]

-- What is accepted while no slot is free is stored nowhere.
accepts-full :
    (o : Option ℕ) (s : SelectServer)
    → is_full s.conn_a ≡ true
    → (accepts store_all o s).conn_a ≡ s.conn_a
unfolding accepts
accepts-full none s h = refl
accepts-full (some c) s h = store_all-full c s.conn_a h

un_round-full :
    (sfd : ℕ) (r : SelectRound) (s : SelectServer)
    → ClosesNone r
    → is_full s.conn_a ≡ true
    → is_full (un_select_tcp_server sfd r s).0.conn_a ≡ true
unfolding un_select_tcp_server select_round
un_round-full sfd r s one h = elim (Bool-cases (r.nready == 0)) [
  | inl z ↦ rw (un_select_tcp_server, select_round, z) h
  | inr z ↦ elim (Bool-cases (r.rset sfd)) [
    | inr a ↦
        rw (un_select_tcp_server, select_round, z, a)
          (serve_slots-full failed_int r r.nready s one h)
    | inl a ↦
        rw (un_select_tcp_server, select_round, z, a)
          (serve_slots-full failed_int r (r.nready - 1) _ one
            (ap is_full (accepts-full r.accepted s h) ∙ h))
  ]
]

-- No slot gets the descriptor in a round that finds none free.
un_round-lost :
    (sfd d : ℕ) (r : SelectRound) (s : SelectServer)
    → is_full s.conn_a ≡ true
    → has_slot d s.conn_a ≡ false
    → (has_slot d (un_select_tcp_server sfd r s).0.conn_a ≡ false)
      × (mentions d (un_select_tcp_server sfd r s).1 ≡ false)
unfolding un_select_tcp_server select_round mentions
un_round-lost sfd d r s full h = elim (Bool-cases (r.nready == 0)) [
  | inl z ↦ rw (un_select_tcp_server, select_round, z) (h, refl)
  | inr z ↦ elim (Bool-cases (r.rset sfd)) [
    | inr a ↦
        rw (un_select_tcp_server, select_round, z, a)
          (serve_slots-other failed_int r r.nready d s h)
    | inl a ↦
        rw (un_select_tcp_server, select_round, z, a)
          (serve_slots-other failed_int r (r.nready - 1) d _
            (ap (has_slot d) (accepts-full r.accepted s full) ∙ h))
  ]
]

lost_later :
    (sfd d : ℕ) (ms : List SelectRound) (q : SelectRound) (rs : List SelectRound) (s : SelectServer)
    → is_full s.conn_a ≡ true
    → has_slot d s.conn_a ≡ false
    → CloseNone ms
    → NotAgain d rs
    → mentions d (un_run sfd (ms ++ q ∷ rs) s).1 ≡ false
unfolding un_run
lost_later sfd d [] q rs s full h close new =
    let t = un_round-lost sfd d q s full h in no_mention d _ _ t.1 (un_run-other sfd d rs _ new t.0)
lost_later sfd d (m ∷ ms) q rs s full h (one, close) new =
    let t = un_round-lost sfd d m s full h in
    no_mention d _ _ t.1 (lost_later sfd d ms q rs _ (un_round-full sfd m s one full) t.0 close new)

-- In `un_select_tcp_server` the first connection takes every slot. Let no read callback return 1,
-- which would free slots, in the rounds `ms` that follow. A connection with another descriptor that is
-- accepted in these rounds or in the one behind them, `q`, is lost: whatever the callbacks return in
-- and after `q`, and however often the descriptor is ready, no callback is ever called with it, unless
-- `accept` returns the same descriptor again after `q`.
pub un_select_loses :
    (sfd c d : ℕ) (r : SelectRound) (ms : List SelectRound) (q : SelectRound)
    (rs : List SelectRound)
    → c ≢ d
    → Accepts sfd c r
    → CloseNone ms
    → NotAgain d rs
    → mentions d (un_run sfd (r ∷ (ms ++ q ∷ rs)) (select_start sfd)).1 ≡ false
unfolding un_run accepts select_start
un_select_loses sfd c d r ms q rs ne a close new =
    let first = accepting_round sfd c r (select_start sfd) a in
    rw (un_run, first)
      (lost_later sfd d ms q rs _ (is_full-store_all c _)
        (store_all-other d c _ (ne→== c d ne) (has_slot-none d fd_setsize)) close new)
