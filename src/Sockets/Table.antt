-- ===== src/Sockets/Table.antt =====
-- The same file, the table of `in_select_tcp_server` and the result of `select`: each connection has one
-- slot, so that the number of ready descriptors is enough to serve all the ready slots.
use package_compile_sys.Common.{
  ℕ, zero, suc, ◌+◌, ◌≤◌, ◌<◌, ◌≡◌, refl, ap, ◌∙◌, inl, inr, List, [], ◌∷◌, Option, none, some,
  Bool, true, false, ◌==◌, if◌then◌else◌, ◌&&◌, not, arith, Bool-cases, ==→eq,
}
use package_compile_sys.Common.Int.{ℤ}
use package_compile_sys.Sockets.{
  FdSet, fd_clr, fd_setsize, SelectServer, store_first, accepts, failed_int, SelectRound,
  in_select_tcp_server,
}
use package_compile_sys.Sockets.Serve.{
  is_one, ready, slots_after, calls_of, is_closed, behind_accept, select_round-IsServed,
}
use package_compile_sys.Sockets.Lost.{has_slot}

-- How many descriptors below a number are in a set.
unfoldable pub card : ℕ → FdSet → ℕ
card zero set = 0
card (suc n) set = (if set n then 1 else 0) + card n set

-- Each descriptor is in one slot, and fits an `fd_set`.
abbrev pub AreDistinct : List (Option ℕ) → Type 0
AreDistinct [] = Unit {0}
AreDistinct (none ∷ cs) = AreDistinct cs
AreDistinct (some fd ∷ cs) = (fd < fd_setsize) × (has_slot fd cs ≡ false) × AreDistinct cs

-- The listening socket and the connections.
abbrev pub IsTable : ℕ → List (Option ℕ) → Type 0
IsTable sfd cs = AreDistinct (some sfd ∷ cs)

-- `accept` returns a descriptor that is not open, or fails.
abbrev pub IsNew : ℕ → List (Option ℕ) → Option ℕ → Type 0
IsNew sfd cs none = Unit {0}
IsNew sfd cs (some c) = (c < fd_setsize) × (has_slot c (some sfd ∷ cs) ≡ false)

card-clr_above : (n fd : ℕ) (set : FdSet) → n ≤ fd → card n (fd_clr set fd) ≡ card n set
unfolding card fd_clr
card-clr_above zero fd set h = refl
card-clr_above (suc n) fd set h = ground (arith, card-clr_above n fd set (omega arith))

card-clr :
    (n fd : ℕ) (set : FdSet) → fd < n → set fd ≡ true → card n set ≡ suc (card n (fd_clr set fd))
unfolding card fd_clr
card-clr zero fd set h e = absurd (omega arith)
card-clr (suc n) fd set h e = elim (Bool-cases (n == fd)) [
  | inl a ↦
      let f : set n ≡ true = ap set (==→eq n fd a) ∙ e in
      ground (arith, a, f, card-clr_above n fd set (ground (arith, a)))
  | inr a ↦ ground (arith, a, card-clr n fd set (ground (arith, a)) e)
]

ready-clr :
    (fd : ℕ) (set : FdSet) (cs : List (Option ℕ))
    → has_slot fd cs ≡ false
    → ready (fd_clr set fd) cs ≡ ready set cs
unfolding ready fd_clr has_slot
ready-clr fd set [] h = refl
ready-clr fd set (none ∷ cs) h = ready-clr fd set cs h
ready-clr fd set (some c ∷ cs) h = ground (arith, h, ready-clr fd set cs (ground (arith, h)))

ready-cons :
    (set : FdSet) (fd : ℕ) (cs : List (Option ℕ))
    → ready set (some fd ∷ cs) ≡ (if set fd then 1 else 0) + ready set cs
unfolding ready
ready-cons set fd cs = ground arith

-- There are no more ready slots than ready descriptors.
ready-card :
    (set : FdSet) (cs : List (Option ℕ)) → AreDistinct cs → ready set cs ≤ card fd_setsize set
unfolding ready
ready-card set [] d = omega arith
ready-card set (none ∷ cs) d = ready-card set cs d
ready-card set (some fd ∷ cs) (lt, lacks, d) = elim (Bool-cases (set fd)) [
  | inl a ↦ ground (
    arith,
    a,
    card-clr fd_setsize fd set lt a,
    ready-clr fd set cs lacks,
    ready-card (fd_clr set fd) cs d,
  )
  | inr a ↦ ground (arith, a, ready-card set cs d)
]

store_first-other :
    (c d : ℕ) (cs : List (Option ℕ))
    → (d == c) ≡ false
    → has_slot c cs ≡ false
    → has_slot c (store_first d cs) ≡ false
unfolding store_first has_slot
store_first-other c d [] o h = refl
store_first-other c d (none ∷ cs) o h = rw (has_slot, o) h
store_first-other c d (some e ∷ cs) o h =
    let g : (e == c) ≡ false = ground (arith, h) in
    let k : has_slot c cs ≡ false = ground (arith, h) in
    rw (has_slot, g) (store_first-other c d cs o k)

store_first-AreDistinct :
    (c : ℕ) (cs : List (Option ℕ))
    → c < fd_setsize
    → has_slot c cs ≡ false
    → AreDistinct cs
    → AreDistinct (store_first c cs)
unfolding store_first has_slot
store_first-AreDistinct c [] lt h d = d
store_first-AreDistinct c (none ∷ cs) lt h d = (lt, h, d)
store_first-AreDistinct c (some e ∷ cs) lt h (le, lacks, d) = (
  le,
  store_first-other e c cs (ground (arith, h)) lacks,
  store_first-AreDistinct c cs lt (ground (arith, h)) d,
)

slots_after-other :
    (failed : ℤ → Bool) (rcbk : ℕ → ℤ) (rset : FdSet) (c : ℕ) (cs : List (Option ℕ)) (i : ℕ)
    → has_slot c cs ≡ false
    → has_slot c (slots_after failed rcbk rset cs i) ≡ false
unfolding slots_after has_slot
slots_after-other failed rcbk rset c [] i h = refl
slots_after-other failed rcbk rset c (none ∷ cs) i h =
    slots_after-other failed rcbk rset c cs (i + 1) h
slots_after-other failed rcbk rset c (some e ∷ cs) i h =
    let g : (e == c) ≡ false = ground (arith, h) in
    let k = slots_after-other failed rcbk rset c cs (i + 1) (ground (arith, h)) in
    elim (Bool-cases (rset e && not (failed (rcbk i)) && is_one (rcbk i))) [
      | inl a ↦ rw (has_slot, a) k
      | inr a ↦ rw (has_slot, a, g) k
    ]

slots_after-AreDistinct :
    (failed : ℤ → Bool) (rcbk : ℕ → ℤ) (rset : FdSet) (cs : List (Option ℕ)) (i : ℕ)
    → AreDistinct cs
    → AreDistinct (slots_after failed rcbk rset cs i)
unfolding slots_after
slots_after-AreDistinct failed rcbk rset [] i d = d
slots_after-AreDistinct failed rcbk rset (none ∷ cs) i d =
    slots_after-AreDistinct failed rcbk rset cs (i + 1) d
slots_after-AreDistinct failed rcbk rset (some e ∷ cs) i (lt, lacks, d) =
    let k = slots_after-AreDistinct failed rcbk rset cs (i + 1) d in
    let l = slots_after-other failed rcbk rset e cs (i + 1) lacks in
    elim (Bool-cases (rset e && not (failed (rcbk i)) && is_one (rcbk i))) [
      | inl a ↦ rw a k
      | inr a ↦ rw a (lt, l, k)
    ]

accepts-IsTable :
    (sfd : ℕ) (o : Option ℕ) (s : SelectServer)
    → IsTable sfd s.conn_a
    → IsNew sfd s.conn_a o
    → IsTable sfd (accepts store_first o s).conn_a
unfolding accepts has_slot
accepts-IsTable sfd none s t new = t
accepts-IsTable sfd (some c) s (lt, lacks, d) (le, new) = (
  lt,
  store_first-other sfd c s.conn_a (ground (arith, new)) lacks,
  store_first-AreDistinct c s.conn_a le (ground (arith, new)) d,
)

behind_accept-IsTable :
    (sfd : ℕ) (r : SelectRound) (s : SelectServer)
    → IsTable sfd s.conn_a
    → IsNew sfd s.conn_a r.accepted
    → IsTable sfd (behind_accept store_first sfd r s).conn_a
behind_accept-IsTable sfd r s t new = elim (Bool-cases (r.rset sfd)) [
  | inl a ↦ rw a (accepts-IsTable sfd r.accepted s t new)
  | inr a ↦ rw a t
]

-- Let each connection of `in_select_tcp_server` have one slot, `accept` return a new descriptor if it
-- returns one, and `select` the number of descriptors in the set that it left. Then a round, which
-- accepts a connection first if the listening socket is ready, calls the callbacks of all the ready
-- slots in their order, frees the slots whose read callback returned 1, takes these descriptors and no
-- others out of the set, and leaves a table in which each connection has one slot.
pub in_select_round_lem :
    (sfd : ℕ) (r : SelectRound) (s : SelectServer)
    → IsTable sfd s.conn_a
    → IsNew sfd s.conn_a r.accepted
    → r.nready ≡ card fd_setsize r.rset
    → let after = behind_accept store_first sfd r s in
      let round = in_select_tcp_server sfd r s in
      (round.0.conn_a ≡ slots_after failed_int r.rcbk r.rset after.conn_a 0)
      × (round.1 ≡ calls_of failed_int r.rcbk r.rset after.conn_a 0)
      × ((fd : ℕ)
          → round.0.allset fd ≡ (
              if is_closed failed_int r.rcbk r.rset after.conn_a 0 fd
              then false
              else after.allset fd))
      × IsTable sfd round.0.conn_a
unfolding in_select_tcp_server
in_select_round_lem sfd r s table new counted =
    let after = behind_accept store_first sfd r s in
    let (lt, lacks, d) = behind_accept-IsTable sfd r s table new in
    let (slots, calls, set) = select_round-IsServed store_first sfd r s (
      omega (
        arith,
        counted,
        ready-cons r.rset sfd after.conn_a,
        ready-card r.rset (some sfd ∷ after.conn_a) (lt, lacks, d),
      )) in
    (
      slots,
      calls,
      set,
      rw (in_select_tcp_server, slots)
          (
            lt,
            slots_after-other failed_int r.rcbk r.rset sfd after.conn_a 0 lacks,
            slots_after-AreDistinct failed_int r.rcbk r.rset after.conn_a 0 d,
          ),
    )
