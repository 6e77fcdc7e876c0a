-- ===== src/Sockets/Epoll.antt =====
-- The same file, the epoll servers. The interest of the epoll instance is a function from
-- descriptors; an event is reported with its mask, and comes with what `accept` or the callback
-- returns for it.
use package_compile_sys.Common.{
  ℕ, zero, suc, ◌+◌, List, [], ◌∷◌, ◌++◌, Option, none, some, leb, ◌==◌, if◌then◌else◌, length,
}
use package_compile_sys.Common.Int.{ℤ, pos, negsuc}
use package_compile_sys.Sockets.{Call, reads, writes}

-- What a descriptor waits for, and what an event reports: EPOLLIN or EPOLLOUT alone, or another mask.
pub data Interest : Type 0 where
  epollin epollout : Interest

pub data Mask : Type 0 where
  only : Interest → Mask
  other_mask : Mask

abbrev pub Epoll : Type 0
Epoll = ℕ → Option Interest

unfoldable pub ep_set : Epoll → ℕ → Option Interest → Epoll
ep_set ep fd i n = if n == fd then i else ep n

-- EPOLL_CTL_ADD fails on a descriptor that is there, EPOLL_CTL_MOD on one that is not.
unfoldable pub add_ep_evt : Epoll → ℕ → Interest → Epoll
add_ep_evt ep fd i = elim (ep fd) [ none ↦ ep_set ep fd (some i) | some j ↦ ep ]

unfoldable pub mod_ep_evt : Epoll → ℕ → Interest → Epoll
mod_ep_evt ep fd i = elim (ep fd) [ none ↦ ep | some j ↦ ep_set ep fd (some i) ]

unfoldable pub del_ep_evt : Epoll → ℕ → Epoll
del_ep_evt ep fd = ep_set ep fd none

-- `ret` is what `accept` or the callback returns for the event.
pub record Event : Type 0 where
  pub fd : ℕ
  pub events : Mask
  pub ret : ℤ

abbrev pub events_size : ℕ
events_size = 10

-- What the server does with the return value of a callback; `next` is what the connection waits for
-- after success.
unfoldable pub answer : Epoll → ℕ → Interest → ℤ → Epoll
answer ep fd next (negsuc n) = ep
answer ep fd next (pos zero) = mod_ep_evt ep fd next
answer ep fd next (pos (suc zero)) = del_ep_evt ep fd
answer ep fd next (pos (suc (suc n))) = ep

-- The branches for a connection: an event with another mask is left as it is.
unfoldable pub connection_event : Epoll → Event → Epoll × List Call
connection_event ep e = elim e.events [
  | only i ↦ elim i [
    | epollin ↦ (answer ep e.fd epollout e.ret, reads e.fd ∷ [])
    | epollout ↦ (answer ep e.fd epollin e.ret, writes e.fd ∷ [])
  ]
  | other_mask ↦ (ep, [])
]

-- The branch for the listening socket: a descriptor 0 is skipped, and -1 cannot be added.
unfoldable pub accept_event : Epoll → ℕ → ℤ → Epoll
accept_event ep n_ready (negsuc n) = ep
accept_event ep n_ready (pos zero) = ep
accept_event ep n_ready (pos (suc c)) =
    if leb (n_ready + 1) events_size then add_ep_evt ep (suc c) epollin else ep

unfoldable pub tcp_event : ℕ → ℕ → Epoll → Event → Epoll × List Call
tcp_event sfd n_ready ep e =
    if e.fd == sfd then (accept_event ep n_ready e.ret, []) else connection_event ep e

-- The loop over the events that are ready.
unfoldable pub tcp_events : ℕ → ℕ → Epoll → List Event → Epoll × List Call
tcp_events sfd n_ready ep [] = (ep, [])
tcp_events sfd n_ready ep (e ∷ es) =
    let (ep', calls) = tcp_event sfd n_ready ep e in
    let (ep'', more) = tcp_events sfd n_ready ep' es in (ep'', calls ++ more)

-- A round of the two TCP servers.
unfoldable pub in_epoll_tcp_server : ℕ → Epoll → List Event → Epoll × List Call
in_epoll_tcp_server sfd ep events = tcp_events sfd (length events) ep events

unfoldable pub un_epoll_tcp_server : ℕ → Epoll → List Event → Epoll × List Call
un_epoll_tcp_server sfd ep events = tcp_events sfd (length events) ep events

-- A round of the two UDP servers, which have no listening socket.
unfoldable pub in_epoll_udp_server : Epoll → List Event → Epoll × List Call
in_epoll_udp_server ep [] = (ep, [])
in_epoll_udp_server ep (e ∷ es) =
    let (ep', calls) = connection_event ep e in
    let (ep'', more) = in_epoll_udp_server ep' es in (ep'', calls ++ more)

unfoldable pub un_epoll_udp_server : Epoll → List Event → Epoll × List Call
un_epoll_udp_server ep [] = (ep, [])
un_epoll_udp_server ep (e ∷ es) =
    let (ep', calls) = connection_event ep e in
    let (ep'', more) = un_epoll_udp_server ep' es in (ep'', calls ++ more)

-- Where the loops start.
unfoldable pub epoll_start : List ℕ → Epoll
epoll_start [] n = none
epoll_start (fd ∷ fds) n = add_ep_evt (epoll_start fds) fd epollin n
