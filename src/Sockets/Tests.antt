-- ===== src/Sockets/Tests.antt =====
-- Servers with a listening socket 3, and the theorems at them.
use package_compile_sys.Common.{
  ℕ, ◌+◌, ◌≡◌, refl, ap, List, [], ◌∷◌, some, none, false, arith, ◌==◌, if◌then◌else◌, ◌||◌,
}
use package_compile_sys.Common.Int.{pos, negsuc}
use package_compile_sys.Sockets.{
  SelectServer, fd_setsize, select_start, store_first, reads, writes, failed_int, failed_size, turn,
  serve, serve_slots, SelectRound, select_round, in_select_tcp_server, in_select_udp_server,
  accepts,
}
use package_compile_sys.Sockets.Serve.{ready, slots_after, calls_of, is_closed, behind_accept}
use package_compile_sys.Sockets.Lost.{has_slot, mentions, is_full, un_run, un_select_loses}
use package_compile_sys.Sockets.Table.{card, IsTable, IsNew, in_select_round_lem}
use package_compile_sys.Sockets.Epoll.{
  Epoll, Event, Interest, Mask, other_mask, epollin, epollout, only, epoll_start, add_ep_evt,
  ep_set, in_epoll_tcp_server, tcp_events, tcp_event, connection_event, answer, mod_ep_evt,
  accept_event, del_ep_evt,
}
use package_compile_sys.Sockets.Turns.{
  calls_on, alternating, flips, turns_on, in_run, AreReported, in_epoll_alternates,
}

-- Two connections and a free slot.
abbrev server : SelectServer
server = record {
  conn_a = some 5 ∷ some 6 ∷ none ∷ [];
  allset = λ n. n == 3 || n == 5 || n == 6;
  maxfd = 6;
}

-- Everything is ready: connection 7 is accepted, 5 is closed by its peer, 6 is answered.
abbrev busy : SelectRound
busy = record {
  rset = λ n. n == 3 || n == 5 || n == 6;
  nready = 3;
  accepted = some 7;
  rcbk = λ i. if i == 0 then pos 1 else pos 0;
}

busy_counted : busy.nready ≡ card fd_setsize busy.rset
unfolding card
busy_counted = refl

server-IsTable : IsTable 3 server.conn_a
unfolding has_slot
server-IsTable = (omega arith, refl, (omega arith, refl, (omega arith, refl, tt)))

seven-IsNew : IsNew 3 server.conn_a busy.accepted
unfolding has_slot
seven-IsNew = (omega arith, refl)

in_select_round_lem_example :
    ((in_select_tcp_server 3 busy server).0.conn_a
      ≡ slots_after failed_int busy.rcbk busy.rset
          (behind_accept store_first 3 busy server).conn_a
          0)
    × ((in_select_tcp_server 3 busy server).1
        ≡ calls_of failed_int busy.rcbk busy.rset
            (behind_accept store_first 3 busy server).conn_a
            0)
    × ((fd : ℕ)
        → (in_select_tcp_server 3 busy server).0.allset fd ≡ (
            if is_closed failed_int busy.rcbk busy.rset
              (behind_accept store_first 3 busy server).conn_a
              0
              fd
            then false
            else (behind_accept store_first 3 busy server).allset fd))
    × IsTable 3 (in_select_tcp_server 3 busy server).0.conn_a
in_select_round_lem_example =
    in_select_round_lem 3 busy server server-IsTable seven-IsNew busy_counted

busy_runs : (in_select_tcp_server 3 busy server).1 ≡ reads 5 ∷ reads 6 ∷ writes 6 ∷ []
unfolding in_select_tcp_server select_round serve_slots serve turn failed_int accepts store_first
busy_runs = refl

-- A UDP server writes also after its read callback has failed.
udp_writes_after_failure :
    (in_select_udp_server (record busy { nready = 2; rcbk = λ i. negsuc 0 }) server).1
    ≡ reads 5 ∷ writes 5 ∷ reads 6 ∷ writes 6 ∷ []
unfolding in_select_udp_server serve_slots serve turn failed_size
udp_writes_after_failure = refl

abbrev accepting : ℕ → SelectRound
accepting c = record { rset = λ n. n == 3; nready = 1; accepted = some c; rcbk = λ i. pos 0 }

-- The second connection is ready, over and over.
abbrev ready_again : SelectRound
ready_again = record { rset = λ n. n == 6; nready = 1; accepted = none; rcbk = λ i. pos 0 }

-- The first connection is served in between.
abbrev first_ready : SelectRound
first_ready = record { rset = λ n. n == 5; nready = 1; accepted = none; rcbk = λ i. pos 0 }

un_select_loses_example :
    mentions 6
      (un_run 3
        (accepting 5 ∷ first_ready ∷ accepting 6 ∷ ready_again ∷ ready_again ∷ [])
        (select_start 3)).1
    ≡ false
un_select_loses_example =
    un_select_loses 3 5 6 (accepting 5) (first_ready ∷ []) (accepting 6)
      (ready_again ∷ ready_again ∷ []) (λ e. omega arith)
      (record { only = refl; listening = refl; conn = refl }) ((λ i. refl), tt)
      ((λ e. cc), ((λ e. cc), tt))

room : is_full server.conn_a ≡ false
unfolding is_full
room = refl

abbrev ready_seven : SelectRound
ready_seven = record { rset = λ n. n == 7; nready = 1; accepted = none; rcbk = λ i. pos 0 }

seven_counted :
    ready_seven.nready
    ≡ (if ready_seven.rset 3 then 1 else 0)
      + ready ready_seven.rset
          (behind_accept store_first 3 ready_seven
            (in_select_tcp_server 3 (accepting 7) server).0).conn_a
unfolding ready accepts store_first in_select_tcp_server select_round serve_slots
seven_counted = refl

abbrev waiting : Epoll
waiting = epoll_start (3 ∷ 5 ∷ [])

abbrev rounds : List (List Event)
rounds =
    (record { fd = 3; events = only epollin; ret = pos 6 }
      ∷ record { fd = 5; events = only epollin; ret = pos 0 }
      ∷ [])
    ∷ (record { fd = 6; events = only epollin; ret = pos 1 }
        ∷ record { fd = 5; events = only epollout; ret = pos 0 }
        ∷ [])
    ∷ []

waiting_five : waiting 5 ≡ some epollin
unfolding epoll_start add_ep_evt ep_set
waiting_five = refl

reported_as : (j i : Interest) → some j ≡ some i → only j ≡ only i
reported_as j i e = ap (λ o. elim o as (λ _. Mask) [ none ↦ other_mask | some k ↦ only k ]) e

rounds_reported : AreReported 3 5 waiting rounds
unfolding epoll_start add_ep_evt ep_set in_epoll_tcp_server tcp_events tcp_event connection_event
    answer mod_ep_evt accept_event del_ep_evt
rounds_reported = (
  (λ i q e. absurd (omega arith), (λ i q e. (reported_as epollin i e, refl), tt)),
  ((λ i q e. absurd (omega arith), (λ i q e. (reported_as epollout i e, refl), tt)), tt),
)

in_epoll_alternates_example :
    (calls_on 5 (in_run 3 waiting rounds).1 ≡ alternating 5 epollin (turns_on 5 rounds))
    × ((in_run 3 waiting rounds).0 5 ≡ some (flips epollin (turns_on 5 rounds)))
in_epoll_alternates_example =
    in_epoll_alternates 3 5 rounds waiting epollin (λ e. omega arith) waiting_five rounds_reported
