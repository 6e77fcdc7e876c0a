-- ===== src/Sockets.antt =====
-- app/lzUtils/ut_socket/ut_socket.c and ut_socket.h: clients and servers on sockets. The descriptors
-- that the system hands out, what it reports, and what the two callbacks of a server return are
-- arguments. Each endless loop of a server is one round of it; a server that exits because a call
-- of the system failed has no state any more.
pub mod Epoll
pub mod Serve
pub mod Lost
pub mod Table
pub mod Kept
pub mod Turns
mod Tests
use package_compile_sys.Common.{
  ℕ, zero, suc, ◌+◌, ◌-◌, List, [], ◌∷◌, ◌++◌, Option, none, some, Bool, true, false, ltb, ◌==◌,
  if◌then◌else◌, replicate,
}
use package_compile_sys.Common.Int.{ℤ, pos, negsuc}

-- A client: what `socket` returned, and whether `connect` succeeded. The result is the return value
-- and the descriptor that is open then.
unfoldable pub un_tcp_cli_create : Option ℕ → Bool → ℤ × Option ℕ
un_tcp_cli_create none connected = (negsuc 0, none)
un_tcp_cli_create (some sfd) connected =
    if connected then (pos sfd, some sfd) else (negsuc 1, some sfd)

unfoldable pub in_tcp_cli_create : Option ℕ → Bool → ℤ × Option ℕ
in_tcp_cli_create none connected = (negsuc 0, none)
in_tcp_cli_create (some sfd) connected =
    if connected then (pos sfd, some sfd) else (negsuc 1, some sfd)

unfoldable pub in_udp_cli_create : Option ℕ → Bool → ℤ × Option ℕ
in_udp_cli_create none connected = (negsuc 0, none)
in_udp_cli_create (some sfd) connected =
    if connected then (pos sfd, some sfd) else (negsuc 1, some sfd)

-- The address that the socket is bound to comes first; `dst` tells whether there is one to connect to.
unfoldable pub un_udp_cli_create : Option ℕ → Bool → Bool → Bool → ℤ × Option ℕ
un_udp_cli_create none bound dst connected = (negsuc 0, none)
un_udp_cli_create (some sfd) bound dst connected =
    if bound
    then (if dst
        then (if connected then (pos sfd, some sfd) else (negsuc 2, some sfd))
        else (pos sfd, some sfd))
    else (negsuc 1, some sfd)

-- `fd_set`, with FD_SET and FD_CLR.
abbrev pub FdSet : Type 0
FdSet = ℕ → Bool

unfoldable pub fd_set : FdSet → ℕ → FdSet
fd_set s fd n = if n == fd then true else s n

unfoldable pub fd_clr : FdSet → ℕ → FdSet
fd_clr s fd n = if n == fd then false else s n

abbrev pub fd_setsize : ℕ
fd_setsize = 1024

-- The locals of a select server: a slot of `conn_a` is -1 or a connection.
pub record SelectServer : Type 0 where
  pub conn_a : List (Option ℕ)
  pub allset : FdSet
  pub maxfd : ℕ

-- Where the loop of a TCP server starts, with the listening socket `sfd`.
unfoldable pub select_start : ℕ → SelectServer
select_start sfd = record {
  conn_a = replicate fd_setsize none;
  allset = fd_set (λ _. false) sfd;
  maxfd = sfd;
}

-- The new connection goes to the first free slot, as in `in_select_tcp_server` ...
unfoldable pub store_first : ℕ → List (Option ℕ) → List (Option ℕ)
store_first conn [] = []
store_first conn (none ∷ cs) = some conn ∷ cs
store_first conn (some c ∷ cs) = some c ∷ store_first conn cs

-- ... or to every free slot, as in `un_select_tcp_server`, where the loop has no `break`.
unfoldable pub store_all : ℕ → List (Option ℕ) → List (Option ℕ)
store_all conn [] = []
store_all conn (none ∷ cs) = some conn ∷ store_all conn cs
store_all conn (some c ∷ cs) = some c ∷ store_all conn cs

-- What `accept` leaves, by one of the two stores; `none` is a negative descriptor.
unfoldable pub accepts :
    (ℕ → List (Option ℕ) → List (Option ℕ)) → Option ℕ → SelectServer → SelectServer
accepts store none s = s
accepts store (some conn) s = record {
  conn_a = store conn s.conn_a;
  allset = fd_set s.allset conn;
  maxfd = if ltb s.maxfd conn then conn else s.maxfd;
}

-- A call of one of the callbacks of `net_serv_t`.
pub data Call : Type 0 where
  reads writes : ℕ → Call

-- What the loop over the slots leaves.
pub record Served : Type 0 where
  pub slots : List (Option ℕ)
  pub set : FdSet
  pub calls : List Call

-- `ret < 0`, where `ret` is an int in the TCP servers and a size_t in the UDP servers.
unfoldable pub failed_int : ℤ → Bool
failed_int (pos n) = false
failed_int (negsuc n) = true

unfoldable pub failed_size : ℤ → Bool
failed_size ret = false

-- The turn of a ready slot, by what its read callback returned: 1 closes it, a failure ends it, else
-- the write callback is called too.
unfoldable pub turn : (ℤ → Bool) → ℤ → ℕ → FdSet → Option ℕ × FdSet × List Call
turn failed ret fd allset = if failed ret then (some fd, allset, reads fd ∷ []) else elim ret [
  | negsuc n ↦ (some fd, allset, reads fd ∷ writes fd ∷ [])
  | pos n ↦
      if n == 1
      then (none, fd_clr allset fd, reads fd ∷ [])
      else (some fd, allset, reads fd ∷ writes fd ∷ [])
]

-- The loop over the slots; `rcbk i` is what the read callback returns in slot `i`. A slot is skipped
-- or served while `nready` is not 0.
unfoldable pub serve : (ℤ → Bool) → (ℕ → ℤ) → FdSet → List (Option ℕ) → ℕ → ℕ → FdSet → Served
serve failed rcbk rset [] i nready allset = record { slots = []; set = allset; calls = [] }
serve failed rcbk rset (none ∷ cs) i nready allset =
    let rest = serve failed rcbk rset cs (i + 1) nready allset in
    record rest { slots = none ∷ rest.slots }
serve failed rcbk rset (some fd ∷ cs) i nready allset = elim (rset fd) [
  | false ↦ elim (nready == 0) [
    | true ↦ record { slots = some fd ∷ cs; set = allset; calls = [] }
    | false ↦
        let rest = serve failed rcbk rset cs (i + 1) nready allset in
        record rest { slots = some fd ∷ rest.slots }
  ]
  | true ↦
      let (slot, set, calls) = turn failed (rcbk i) fd allset in
      elim (nready - 1 == 0) [
        | true ↦ record { slots = slot ∷ cs; set = set; calls = calls }
        | false ↦
            let rest = serve failed rcbk rset cs (i + 1) (nready - 1) set in
            record { slots = slot ∷ rest.slots; set = rest.set; calls = calls ++ rest.calls }
      ]
]

-- A round of the loop: the set that `select` left and its result, what `accept` returned, and what
-- the read callback returns in each slot.
pub record SelectRound : Type 0 where
  pub rset : FdSet
  pub nready : ℕ
  pub accepted : Option ℕ
  pub rcbk : ℕ → ℤ

-- Behind the test of `!nready`.
unfoldable pub serve_slots : (ℤ → Bool) → SelectRound → ℕ → SelectServer → SelectServer × List Call
serve_slots failed r nready s =
    if nready == 0
    then (s, [])
    else let done = serve failed r.rcbk r.rset s.conn_a 0 nready s.allset in
      (record s { conn_a = done.slots; allset = done.set }, done.calls)

unfoldable pub select_round :
    (ℕ → List (Option ℕ) → List (Option ℕ))
    → ℕ
    → SelectRound
    → SelectServer
    → SelectServer × List Call
select_round store sfd r s =
    if r.nready == 0
    then (s, [])
    else if r.rset sfd
    then serve_slots failed_int r (r.nready - 1) (accepts store r.accepted s)
    else serve_slots failed_int r r.nready s

unfoldable pub un_select_tcp_server : ℕ → SelectRound → SelectServer → SelectServer × List Call
un_select_tcp_server sfd r s = select_round store_all sfd r s

unfoldable pub in_select_tcp_server : ℕ → SelectRound → SelectServer → SelectServer × List Call
in_select_tcp_server sfd r s = select_round store_first sfd r s

-- The UDP servers have the same loop over their table, and no listening socket.
unfoldable pub in_select_udp_server : SelectRound → SelectServer → SelectServer × List Call
in_select_udp_server r s = serve_slots failed_size r r.nready s

unfoldable pub un_select_udp_server : SelectRound → SelectServer → SelectServer × List Call
un_select_udp_server r s = serve_slots failed_size r r.nready s
