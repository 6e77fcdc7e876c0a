-- ===== src/Sockets/Kept.antt =====
-- The same file, the server whose loop over the slots has its `break`: `in_select_tcp_server`.
use package_compile_sys.Common.{
  ℕ, ◌+◌, ◌≡◌, refl, ap, ◌∙◌, inl, inr, List, [], ◌∷◌, Option, none, some, Bool, true, false, ◌==◌,
  if◌then◌else◌, ◌||◌, arith, Bool-cases, ==→eq, ==_refl,
}
use package_compile_sys.Common.Int.{ℤ}
use package_compile_sys.Sockets.{
  FdSet, SelectServer, store_first, accepts, Call, reads, writes, failed_int, SelectRound,
  serve_slots, select_round, in_select_tcp_server,
}
use package_compile_sys.Sockets.Serve.{
  ready, is_one, calls_of, behind_accept, select_round-IsServed,
}
use package_compile_sys.Sockets.Lost.{has_slot, mentions, is_full, Accepts}

or_true : (b : Bool) → b || true ≡ true
or_true true = refl
or_true false = refl

store_first-kept :
    (c d : ℕ) (cs : List (Option ℕ)) → has_slot c cs ≡ true → has_slot c (store_first d cs) ≡ true
unfolding store_first has_slot
store_first-kept c d [] h = h
store_first-kept c d (none ∷ cs) h = rw (has_slot, h) (or_true (d == c))
store_first-kept c d (some e ∷ cs) h = elim (Bool-cases (e == c)) [
  | inl a ↦ rw (has_slot, a) refl
  | inr a ↦ rw (has_slot, a) (store_first-kept c d cs (ground (arith, a, h)))
]

store_first-stored :
    (c : ℕ) (cs : List (Option ℕ)) → is_full cs ≡ false → has_slot c (store_first c cs) ≡ true
unfolding store_first has_slot is_full
store_first-stored c [] h = cc
store_first-stored c (none ∷ cs) h = rw (has_slot, ==_refl c) refl
store_first-stored c (some e ∷ cs) h = elim (Bool-cases (e == c)) [
  | inl a ↦ rw (has_slot, a) refl
  | inr a ↦ rw (has_slot, a) (store_first-stored c cs h)
]

-- A ready slot has its turn.
calls_of-mentions :
    (failed : ℤ → Bool) (rcbk : ℕ → ℤ) (rset : FdSet) (c : ℕ) (cs : List (Option ℕ)) (i : ℕ)
    → has_slot c cs ≡ true
    → rset c ≡ true
    → mentions c (calls_of failed rcbk rset cs i) ≡ true
unfolding calls_of mentions has_slot
calls_of-mentions failed rcbk rset c [] i h g = cc
calls_of-mentions failed rcbk rset c (none ∷ cs) i h g =
    calls_of-mentions failed rcbk rset c cs (i + 1) h g
calls_of-mentions failed rcbk rset c (some e ∷ cs) i h g = elim (Bool-cases (e == c)) [
  | inl a ↦
      let r : rset e ≡ true = ap rset (==→eq e c a) ∙ g in
      rw (calls_of, r) (own (failed (rcbk i) || is_one (rcbk i)) a)
  | inr a ↦
      others (rset e) (failed (rcbk i) || is_one (rcbk i)) a
        (calls_of-mentions failed rcbk rset c cs (i + 1) (ground (arith, a, h)) g)
]
  where
    own :
        (b : Bool)
        → (e == c) ≡ true
        → mentions c (
            if b
            then reads e ∷ calls_of failed rcbk rset cs (i + 1)
            else reads e ∷ writes e ∷ calls_of failed rcbk rset cs (i + 1))
          ≡ true
    own true a = rw (mentions, a) refl
    own false a = rw (mentions, a) refl

    others :
        (x b : Bool)
        → (e == c) ≡ false
        → mentions c (calls_of failed rcbk rset cs (i + 1)) ≡ true
        → mentions c (
            if x
            then (if b
                then reads e ∷ calls_of failed rcbk rset cs (i + 1)
                else reads e ∷ writes e ∷ calls_of failed rcbk rset cs (i + 1))
            else calls_of failed rcbk rset cs (i + 1))
          ≡ true
    others false b a m = m
    others true true a m = rw (mentions, a) m
    others true false a m = rw (mentions, a) m

accepts-kept :
    (c : ℕ) (o : Option ℕ) (s : SelectServer)
    → has_slot c s.conn_a ≡ true
    → has_slot c (accepts store_first o s).conn_a ≡ true
unfolding accepts
accepts-kept c none s h = h
accepts-kept c (some d) s h = store_first-kept c d s.conn_a h

accepts-stored :
    (c : ℕ) (s : SelectServer)
    → is_full s.conn_a ≡ false
    → has_slot c (accepts store_first (some c) s).conn_a ≡ true
unfolding accepts
accepts-stored c s h = store_first-stored c s.conn_a h

accepting_first :
    (sfd c : ℕ) (r : SelectRound) (s : SelectServer)
    → Accepts sfd c r
    → in_select_tcp_server sfd r s ≡ (accepts store_first (some c) s, [])
unfolding in_select_tcp_server select_round serve_slots
accepting_first sfd c r s a =
    rw (in_select_tcp_server, select_round, serve_slots, a.only, a.listening, a.conn) refl

behind_accept-kept :
    (sfd c : ℕ) (q : SelectRound) (s : SelectServer)
    → has_slot c s.conn_a ≡ true
    → has_slot c (behind_accept store_first sfd q s).conn_a ≡ true
unfolding accepts
behind_accept-kept sfd c q s h = elim (Bool-cases (q.rset sfd)) [
  | inr a ↦ rw a h
  | inl a ↦ rw a (accepts-kept c q.accepted s h)
]

-- Let `in_select_tcp_server` accept a connection while a slot is free. As soon as it is ready, in a
-- round in which `select` counts the ready descriptors right, a callback is called with it.
in_select_serves :
    (sfd c : ℕ) (r q : SelectRound) (s : SelectServer)
    → is_full s.conn_a ≡ false
    → Accepts sfd c r
    → q.rset c ≡ true
    → q.nready
      ≡ (if q.rset sfd then 1 else 0)
        + ready q.rset (behind_accept store_first sfd q (in_select_tcp_server sfd r s).0).conn_a
    → mentions c (in_select_tcp_server sfd q (in_select_tcp_server sfd r s).0).1 ≡ true
unfolding in_select_tcp_server
in_select_serves sfd c r q s room a g n =
    rw
      (
        in_select_tcp_server,
        (select_round-IsServed store_first sfd q (in_select_tcp_server sfd r s).0
            (omega (arith, n))).1,
      )
      (calls_of-mentions failed_int q.rcbk q.rset c _ 0
        (behind_accept-kept sfd c q _
          (stored (in_select_tcp_server sfd r s) (accepting_first sfd c r s a)))
        g)
  where
    stored :
        (t : SelectServer × List Call)
        → t ≡ (accepts store_first (some c) s, [])
        → has_slot c t.0.conn_a ≡ true
    stored t e = rw e (accepts-stored c s room)
