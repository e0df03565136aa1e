-- ===== src/Examples/Listener.antt =====
-- Sockets, and the turns of the signaling workers.
use dcj_rtc.Prelude.{
  ℕ, Bool, pos, ◌%◌, ◌≡◌, ◌⊎◌, refl, true, false, some, none, List, [], ◌∷◌, ◌++◌, ok, out_of_fuel,
  arith, get_or, length,
}
use dcj_rtc.Base.Socket.{again}
use dcj_rtc.Base.Socket.Setup.{
  SocketAnswers, accepted, create_tcp_socket, accept_error, generic_accept,
  create_tcp_socket-accounts, generic_accept-errors,
}
use dcj_rtc.Signaling.Conn.{TcpConnection}
use dcj_rtc.Signaling.Worker.{Worker, NewConnAnswers, settings_ok}
use dcj_rtc.Signaling.Events
use dcj_rtc.Signaling.Handlers
use dcj_rtc.Signaling.Server.{SignalingServer, accept_new_conn}
use dcj_rtc.Signaling.Server.Turns.{dispatch_all, dispatch_all-turns}
use dcj_rtc.Round.Accept.{IsFree, accepted-IsNew}
use dcj_rtc.Round.Request.{IsNew}
use dcj_rtc.Examples.Fixtures.{
  Io, small_ev, small_ev-IsLibev, small_json, peer, empty_worker, empty_worker-IsTable,
}

-- `bind` fails.
abbrev taken : SocketAnswers
taken = record { socket = some 9; reuse_addr = true; address = true; bind = false; listen = true }

create_tcp_socket-accounts_example :
    (create_tcp_socket true taken ≡ (some 9, [])) ⊎ (create_tcp_socket true taken ≡ (none, 9 ∷ []))
create_tcp_socket-accounts_example = create_tcp_socket-accounts true taken 9 refl

generic_accept-errors_example :
    (generic_accept 100 9 (accept_error again) ≡ out_of_fuel)
    × (generic_accept 101 9 (accept_error 24) ≡ ok (none, 9 ∷ []))
generic_accept-errors_example = generic_accept-errors 9 24 100 (omega arith)

abbrev listener : SignalingServer ℕ
listener = record {
  listen_fd = 9;
  io_watcher = some 1;
  pipe_watcher = some 2;
  notify_recv_fd = 3;
  notify_send_fd = 4;
  has_thread = true;
  loop_stopped = false;
  thread_joined = false;
  workers = 21 ∷ 22 ∷ [];
  next_worker_id = 0;
  sent = [];
  stopped = [];
  closed = [];
}

abbrev three_fds : List ℕ
three_fds = 30 ∷ 31 ∷ 32 ∷ []

dispatch_all-turns_example :
    dispatch_all three_fds listener
    ≡ ok (record listener { next_worker_id = 3; sent = (21, 30) ∷ (22, 31) ∷ (21, 32) ∷ [] })
dispatch_all-turns_example = dispatch_all-turns three_fds listener (omega arith) (omega arith)

-- The second worker's turn, with no connection there yet.
abbrev second_turn : SignalingServer Io
second_turn = record {
  listen_fd = 9;
  io_watcher = none;
  pipe_watcher = none;
  notify_recv_fd = 3;
  notify_send_fd = 4;
  has_thread = true;
  loop_stopped = false;
  thread_joined = false;
  workers = 21 ∷ 22 ∷ [];
  next_worker_id = 1;
  sent = [];
  stopped = [];
  closed = [];
}

abbrev calls_succeed : NewConnAnswers
calls_succeed = record { flags = pos 2; set_flags = true; set_nodelay = true; peer = some peer }

empty_worker-IsFree : IsFree 5 9 calls_succeed peer empty_worker
unfolding settings_ok
empty_worker-IsFree = record {
  positive = omega arith;
  not_null = omega arith;
  fresh = refl;
  empty = refl;
  settings = refl;
  peer_known = refl;
}

accepted-IsNew_example :
    (s' : SignalingServer Io) × (g' : Worker Io Bool) × (c : TcpConnection Io Bool)
    × (accept_new_conn 1 (accepted 5) peer second_turn ≡ ok s')
    × (s'.sent ≡ [] ++ ((get_or second_turn.workers (1 % length second_turn.workers) 0, 5) ∷ []))
    × (Handlers.process_notify small_ev small_json
          (pos 1)
          calls_succeed
          9
          100
          true
          (Events.notify_new_conn (pos 5) true empty_worker).1
        ≡ ok g')
    × IsNew small_ev 5 9 g' c
    × (g'.queued ≡ [])
    × (g'.q_rtc_msg ≡ [])
accepted-IsNew_example =
    accepted-IsNew small_ev small_ev-IsLibev small_json second_turn empty_worker 5 9 100 peer
      calls_succeed peer true (omega arith) (omega arith) empty_worker-IsTable refl
      empty_worker-IsFree
