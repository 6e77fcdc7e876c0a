-- ===== src/Sockets/Turns.antt =====
-- The same file, the turns of a connection to an epoll server: reads and writes alternate.
use package_compile_sys.Common.{
  ℕ, zero, suc, ◌+◌, ◌≡◌, ◌≢◌, refl, ap, sym, ◌∙◌, inl, inr, List, [], ◌∷◌, ◌++◌, Option, none,
  some, false, leb, ◌==◌, if◌then◌else◌, arith, Bool-cases, Option-cases, length, ne→==, ==→eq,
  ==_refl,
}
use package_compile_sys.Common.Int.{ℤ, pos, negsuc}
use package_compile_sys.Sockets.{Call, reads, writes}
use package_compile_sys.Sockets.Epoll.{
  Interest, epollin, epollout, Mask, only, other_mask, Epoll, ep_set, add_ep_evt, mod_ep_evt,
  del_ep_evt, Event, answer, connection_event, accept_event, tcp_event, tcp_events,
  in_epoll_tcp_server, events_size,
}

abbrev pub flip : Interest → Interest
flip epollin = epollout
flip epollout = epollin

abbrev pub call : Interest → ℕ → Call
call epollin fd = reads fd
call epollout fd = writes fd

-- The calls with one descriptor.
unfoldable pub calls_on : ℕ → List Call → List Call
calls_on fd [] = []
calls_on fd (reads c ∷ calls) =
    let rest = calls_on fd calls in if c == fd then reads c ∷ rest else rest
calls_on fd (writes c ∷ calls) =
    let rest = calls_on fd calls in if c == fd then writes c ∷ rest else rest

-- `n` turns from one of the two on, and what the descriptor waits for then.
unfoldable pub alternating : ℕ → Interest → ℕ → List Call
alternating fd i zero = []
alternating fd i (suc n) = call i fd ∷ alternating fd (flip i) n

unfoldable pub flips : Interest → ℕ → Interest
flips i zero = i
flips i (suc n) = flips (flip i) n

unfoldable pub events_on : ℕ → List Event → ℕ
events_on fd [] = 0
events_on fd (e ∷ es) = let n = events_on fd es in if e.fd == fd then suc n else n

-- The system reports of the descriptor what it waits for, and its callbacks succeed.
abbrev pub IsReported : ℕ → ℕ → ℕ → Epoll → List Event → Type 0
IsReported sfd n fd ep [] = Unit
IsReported sfd n fd ep (e ∷ es) =
    ((i : Interest) → e.fd ≡ fd → ep fd ≡ some i → (e.events ≡ only i) × (e.ret ≡ pos 0))
    × IsReported sfd n fd (tcp_event sfd n ep e).0 es

calls_on-append :
    (fd : ℕ) (xs ys : List Call) → calls_on fd (xs ++ ys) ≡ calls_on fd xs ++ calls_on fd ys
unfolding calls_on
calls_on-append fd [] ys = refl
calls_on-append fd (reads c ∷ xs) ys = elim (Bool-cases (c == fd)) [
  | inl a ↦ rw (calls_on, a) (ap (λ l. reads c ∷ l) (calls_on-append fd xs ys))
  | inr a ↦ rw (calls_on, a) (calls_on-append fd xs ys)
]
calls_on-append fd (writes c ∷ xs) ys = elim (Bool-cases (c == fd)) [
  | inl a ↦ rw (calls_on, a) (ap (λ l. writes c ∷ l) (calls_on-append fd xs ys))
  | inr a ↦ rw (calls_on, a) (calls_on-append fd xs ys)
]

calls_on-parts :
    (fd : ℕ) (xs ys : List Call) {a b : List Call}
    → calls_on fd xs ≡ a
    → calls_on fd ys ≡ b
    → calls_on fd (xs ++ ys) ≡ a ++ b
calls_on-parts fd xs ys ha hb = calls_on-append fd xs ys ∙ rw (ha, hb) refl

ep_set-other :
    (ep : Epoll) (c fd : ℕ) (o : Option Interest) → (fd == c) ≡ false → ep_set ep c o fd ≡ ep fd
unfolding ep_set
ep_set-other ep c fd o h = rw (ep_set, h) refl

mod_ep_evt-other :
    (ep : Epoll) (c fd : ℕ) (i : Interest) → (fd == c) ≡ false → mod_ep_evt ep c i fd ≡ ep fd
unfolding mod_ep_evt
mod_ep_evt-other ep c fd i h = elim (Option-cases (ep c)) [
  | inl e ↦ rw (mod_ep_evt, e) refl
  | inr (j, e) ↦ rw (mod_ep_evt, e) (ep_set-other ep c fd (some i) h)
]

answer-other :
    (ep : Epoll) (c fd : ℕ) (next : Interest) (ret : ℤ)
    → (fd == c) ≡ false
    → answer ep c next ret fd ≡ ep fd
unfolding answer del_ep_evt
answer-other ep c fd next (negsuc n) h = refl
answer-other ep c fd next (pos zero) h = mod_ep_evt-other ep c fd next h
answer-other ep c fd next (pos (suc zero)) h = ep_set-other ep c fd none h
answer-other ep c fd next (pos (suc (suc n))) h = refl

-- A new connection does not change what a descriptor that is there waits for.
add_ep_evt-there :
    (ep : Epoll) (c fd : ℕ) (i j : Interest) → ep fd ≡ some i → add_ep_evt ep c j fd ≡ some i
unfolding add_ep_evt
add_ep_evt-there ep c fd i j h = elim (Bool-cases (fd == c)) [
  | inl a ↦ let e : ep c ≡ some i = ap ep (sym (==→eq fd c a)) ∙ h in rw (add_ep_evt, e) h
  | inr a ↦ elim (Option-cases (ep c)) [
    | inl e ↦ rw (add_ep_evt, e) (ep_set-other ep c fd (some j) a ∙ h)
    | inr (k, e) ↦ rw (add_ep_evt, e) h
  ]
]

accept_event-there :
    (ep : Epoll) (n fd : ℕ) (ret : ℤ) (i : Interest)
    → ep fd ≡ some i
    → accept_event ep n ret fd ≡ some i
unfolding accept_event
accept_event-there ep n fd (negsuc m) i h = h
accept_event-there ep n fd (pos zero) i h = h
accept_event-there ep n fd (pos (suc c)) i h = elim (Bool-cases (leb (n + 1) events_size)) [
  | inl a ↦ rw (accept_event, a) (add_ep_evt-there ep (suc c) fd i epollin h)
  | inr a ↦ rw (accept_event, a) h
]

connection_event-other :
    (ep : Epoll) (c fd : ℕ) (m : Mask) (ret : ℤ) (i : Interest)
    → (c == fd) ≡ false
    → (fd == c) ≡ false
    → ep fd ≡ some i
    → ((connection_event ep (record { fd = c; events = m; ret = ret })).0 fd ≡ some i)
      × (calls_on fd (connection_event ep (record { fd = c; events = m; ret = ret })).1 ≡ [])
unfolding connection_event calls_on
connection_event-other ep c fd (only epollin) ret i o p h =
    (answer-other ep c fd epollout ret p ∙ h, rw (calls_on, o) refl)
connection_event-other ep c fd (only epollout) ret i o p h =
    (answer-other ep c fd epollin ret p ∙ h, rw (calls_on, o) refl)
connection_event-other ep c fd other_mask ret i o p h = (h, refl)

-- An event of another descriptor neither calls nor moves this one.
event-other :
    (sfd n fd : ℕ) (ep : Epoll) (e : Event) (i : Interest)
    → (e.fd == fd) ≡ false
    → ep fd ≡ some i
    → ((tcp_event sfd n ep e).0 fd ≡ some i) × (calls_on fd (tcp_event sfd n ep e).1 ≡ [])
unfolding tcp_event calls_on
event-other sfd n fd ep e i o h = elim (Bool-cases (e.fd == sfd)) [
  | inl a ↦ rw (tcp_event, a) (accept_event-there ep n fd e.ret i h, refl)
  | inr a ↦
      rw (tcp_event, a) (connection_event-other ep e.fd fd e.events e.ret i o (ground (arith, o)) h)
]

answer-own :
    (ep : Epoll) (fd : ℕ) (next i : Interest)
    → ep fd ≡ some i
    → answer ep fd next (pos 0) fd ≡ some next
unfolding answer mod_ep_evt ep_set
answer-own ep fd next i h = rw (answer, mod_ep_evt, h, ep_set, ==_refl fd) refl

-- The event that is reported for this one makes its call and flips what it waits for.
event-own :
    (sfd n fd : ℕ) (ep : Epoll) (e : Event) (i : Interest)
    → (fd == sfd) ≡ false
    → e.fd ≡ fd
    → e.events ≡ only i
    → e.ret ≡ pos 0
    → ep fd ≡ some i
    → ((tcp_event sfd n ep e).0 fd ≡ some (flip i))
      × (calls_on fd (tcp_event sfd n ep e).1 ≡ call i fd ∷ [])
unfolding tcp_event connection_event calls_on
event-own sfd n fd ep e epollin ns q m r h =
    rw (tcp_event, q, ns, connection_event, m, r, q)
      (answer-own ep fd epollout epollin h, rw (calls_on, ==_refl fd) refl)
event-own sfd n fd ep e epollout ns q m r h =
    rw (tcp_event, q, ns, connection_event, m, r, q)
      (answer-own ep fd epollin epollout h, rw (calls_on, ==_refl fd) refl)

tcp_events-alternating :
    (sfd n fd : ℕ) (es : List Event) (ep : Epoll) (i : Interest)
    → (fd == sfd) ≡ false
    → ep fd ≡ some i
    → IsReported sfd n fd ep es
    → (calls_on fd (tcp_events sfd n ep es).1 ≡ alternating fd i (events_on fd es))
      × ((tcp_events sfd n ep es).0 fd ≡ some (flips i (events_on fd es)))
unfolding tcp_events events_on alternating flips calls_on
tcp_events-alternating sfd n fd [] ep i ns h rep = (refl, h)
tcp_events-alternating sfd n fd (e ∷ es) ep i ns h rep = elim (Bool-cases (e.fd == fd)) [
  | inr a ↦
      let o = event-other sfd n fd ep e i a h in
      let t = tcp_events-alternating sfd n fd es _ i ns o.0 rep.1 in
      rw (events_on, a) (calls_on-parts fd _ _ o.1 t.0, t.1)
  | inl a ↦
      let q = rep.0 i (==→eq _ _ a) h in
      let o = event-own sfd n fd ep e i ns (==→eq _ _ a) q.0 q.1 h in
      let t = tcp_events-alternating sfd n fd es _ (flip i) ns o.0 rep.1 in
      rw (events_on, a) (calls_on-parts fd _ _ o.1 t.0, t.1)
]

-- The rounds of `in_epoll_tcp_server`, with all the calls.
unfoldable pub in_run : ℕ → Epoll → List (List Event) → Epoll × List Call
in_run sfd ep [] = (ep, [])
in_run sfd ep (es ∷ rounds) =
    let (ep', calls) = in_epoll_tcp_server sfd ep es in
    let (ep'', more) = in_run sfd ep' rounds in (ep'', calls ++ more)

abbrev pub AreReported : ℕ → ℕ → Epoll → List (List Event) → Type 0
AreReported sfd fd ep [] = Unit
AreReported sfd fd ep (es ∷ rounds) =
    IsReported sfd (length es) fd ep es
    × AreReported sfd fd (in_epoll_tcp_server sfd ep es).0 rounds

unfoldable pub turns_on : ℕ → List (List Event) → ℕ
turns_on fd [] = 0
turns_on fd (es ∷ rounds) = events_on fd es + turns_on fd rounds

zero_sum : (n : ℕ) → 0 + n ≡ n
zero_sum n = omega arith

suc_sum : (m n : ℕ) → suc m + n ≡ suc (m + n)
suc_sum m n = omega arith

alternating-sum :
    (fd m n : ℕ) (i : Interest)
    → alternating fd i m ++ alternating fd (flips i m) n ≡ alternating fd i (m + n)
unfolding alternating flips
alternating-sum fd zero n i = ap (alternating fd i) (sym (zero_sum n))
alternating-sum fd (suc m) n i =
    ap (λ l. call i fd ∷ l) (alternating-sum fd m n (flip i))
    ∙ ap (alternating fd i) (sym (suc_sum m n))

flips-sum : (m n : ℕ) (i : Interest) → flips (flips i m) n ≡ flips i (m + n)
unfolding flips
flips-sum zero n i = ap (flips i) (sym (zero_sum n))
flips-sum (suc m) n i = flips-sum m n (flip i) ∙ ap (flips i) (sym (suc_sum m n))

-- A connection that the epoll instance of `in_epoll_tcp_server` waits for, with callbacks that
-- succeed, is read and written in turn, whatever happens to the other connections: over any rounds
-- in which the system reports of it only what it waits for, its calls alternate, as many as it has
-- events, and it then waits for the next in turn.
pub in_epoll_alternates :
    (sfd fd : ℕ) (rounds : List (List Event)) (ep : Epoll) (i : Interest)
    → fd ≢ sfd
    → ep fd ≡ some i
    → AreReported sfd fd ep rounds
    → (calls_on fd (in_run sfd ep rounds).1 ≡ alternating fd i (turns_on fd rounds))
      × ((in_run sfd ep rounds).0 fd ≡ some (flips i (turns_on fd rounds)))
unfolding in_run turns_on in_epoll_tcp_server calls_on alternating flips
in_epoll_alternates sfd fd [] ep i ne h rep = (refl, h)
in_epoll_alternates sfd fd (es ∷ rounds) ep i ne h rep =
    let one = tcp_events-alternating sfd (length es) fd es ep i (ne→== fd sfd ne) h rep.0 in
    let rest = in_epoll_alternates sfd fd rounds _ _ ne one.1 rep.1 in
    (
      calls_on-parts fd _ _ one.0 rest.0
          ∙ alternating-sum fd (events_on fd es) (turns_on fd rounds) i,
      rest.1 ∙ ap some (flips-sum (events_on fd es) (turns_on fd rounds) i),
    )
