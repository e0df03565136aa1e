-- ===== src/Signaling/Server/Init.antt =====
-- How `SignalingServer` of xrtc_server/src/server/signaling_server.cpp, and with it each
-- `SignalingServerWorker` of signaling_worker.cpp, is set up and started.
pub mod Ready
use dcj_rtc.Prelude.{
  ℕ, zero, suc, ℤ, pos, minus_one, to_ℕ, eq_ℤ, Bool, true, false, not, Bytes, codes, Option, none,
  some, List, [], ◌∷◌, ◌++◌, Outcome, ok, out_of_fuel, ◌>>=◌, if◌then◌else◌,
}
use dcj_rtc.Base.Conf.{Yaml}
use dcj_rtc.Base.EventLoop.{Libev, read_events, start_io_event}
use dcj_rtc.Base.Socket.Setup.{SocketAnswers, create_tcp_socket}
use dcj_rtc.Signaling.Worker.{Worker}
use dcj_rtc.Signaling.Server.{SignalingServer}

pub record SignalingServerOptions : Type 0 where
  pub host : Bytes
  pub port : ℤ
  pub worker_thread_num : ℤ
  pub connection_timeout_ms : ℤ

-- The `try` block of `init`.
unfoldable pub load_options : {V : Type 0} → Yaml V → Bytes → Option SignalingServerOptions
load_options yaml file = elim (yaml.load_file file) [
  | none ↦ none
  | some root ↦ elim (yaml.as_string root (codes "host" ∷ [])) [
    | none ↦ none
    | some host ↦ elim (yaml.as_int root (codes "port" ∷ [])) [
      | none ↦ none
      | some port ↦ elim (yaml.as_int root (codes "worker_num" ∷ [])) [
        | none ↦ none
        | some worker_num ↦ elim (yaml.as_int root (codes "connection_timeout" ∷ [])) [
          | none ↦ none
          | some timeout ↦ some (record {
            host = host;
            port = port;
            worker_thread_num = worker_num;
            connection_timeout_ms = timeout;
          })
        ]
      ]
    ]
  ]
]

-- The constructors, with the values that the members start with. A descriptor is -1 before `init`.
abbrev pub new_worker : {W T : Type 0} → Worker W T
new_worker = record {
  conns = [];
  heap = λ p. none;
  q_conn = [];
  q_rtc_msg = [];
  queued = [];
  closed = [];
  pipe_watcher = none;
  notify_recv_fd = 0;
  notify_send_fd = 0;
  has_thread = false;
  loop_stopped = false;
  thread_joined = false;
}

abbrev pub new_server : {W : Type 0} → SignalingServer W
new_server = record {
  listen_fd = 0;
  io_watcher = none;
  pipe_watcher = none;
  notify_recv_fd = 0;
  notify_send_fd = 0;
  has_thread = false;
  loop_stopped = false;
  thread_joined = false;
  workers = [];
  next_worker_id = 0;
  sent = [];
  stopped = [];
  closed = [];
}

-- The address of a new worker, and what its call of `pipe` makes.
pub record SignalingWorkerAnswers : Type 0 where
  pub address : ℕ
  pub fds : Option (ℕ × ℕ)

-- `SignalingServerWorker::start`, up to the loop of the new thread.
unfoldable pub start_worker : {W T : Type 0} → Worker W T → Bool × Worker W T
start_worker w = if w.has_thread then (false, w) else (true, record w { has_thread = true })

-- `SignalingServer::start`, up to the loop of the new thread.
unfoldable pub start_server : {W : Type 0} → SignalingServer W → Bool × SignalingServer W
start_server s = if s.has_thread then (false, s) else (true, record s { has_thread = true })

-- `unreturned` is what a caller finds that uses the value of a function which ended without
-- `return`: undefined behaviour for the language, some number in a build.
module _ {W T : Type 0} (ev : Libev W T) (unreturned : Outcome ℤ) where
  -- `SignalingServerWorker::init`, whose last statement is no `return`.
  unfoldable pub init_worker : (fds : Option (ℕ × ℕ)) → Worker W T → Outcome (ℤ × Worker W T)
  init_worker fds w = elim fds [
    | none ↦ ok (minus_one, w)
    | some (recv, send) ↦ unreturned >>= λ ret. ok (
      ret,
      record w {
        notify_recv_fd = recv;
        notify_send_fd = send;
        pipe_watcher = some (start_io_event ev ev.init recv read_events);
      },
    )
  ]

  -- `_create_worker`
  unfoldable pub create_worker :
      SignalingWorkerAnswers → SignalingServer W → Outcome (ℤ × SignalingServer W)
  unfolding init_worker start_worker
  create_worker a s = init_worker a.fds new_worker >>= λ (ret, w).
      if eq_ℤ ret minus_one
      then ok (minus_one, s)
      else if not (start_worker w).0
      then ok (minus_one, s)
      else ok (pos 0, record s { workers = s.workers ++ (a.address ∷ []) })

  -- The loop of `init`, for the given number of workers.
  unfoldable pub create_workers :
      ℕ → List SignalingWorkerAnswers → SignalingServer W → Outcome (ℤ × SignalingServer W)
  unfolding create_worker
  create_workers zero answers s = ok (pos 0, s)
  create_workers (suc n) [] s = out_of_fuel
  create_workers (suc n) (a ∷ answers) s = create_worker a s >>= λ (ret, s').
      let rest = create_workers n answers s' in
      if eq_ℤ ret minus_one then ok (minus_one, s') else rest

  -- `init`, for a file name that is not null, after the `try` block, whose failure is `none`.
  unfoldable pub init_server :
      (options : Option SignalingServerOptions) (fds : Option (ℕ × ℕ))
      → SocketAnswers
      → List SignalingWorkerAnswers
      → SignalingServer W
      → Outcome (ℤ × SignalingServer W)
  unfolding create_workers create_tcp_socket
  init_server options fds sock answers s = elim options [
    | none ↦ ok (minus_one, s)
    | some o ↦ elim fds [
      | none ↦ ok (minus_one, s)
      | some (recv, send) ↦
          let (listen, closed) = create_tcp_socket true sock in
          let s1 : SignalingServer W = record s {
            notify_recv_fd = recv;
            notify_send_fd = send;
            pipe_watcher = some (start_io_event ev ev.init recv read_events);
            closed = closed ++ s.closed;
          } in
          elim listen [
            | none ↦ ok (minus_one, s1)
            | some fd ↦ create_workers (to_ℕ o.worker_thread_num) answers (record s1 {
              listen_fd = fd;
              io_watcher = some (start_io_event ev ev.init fd read_events);
            })
          ]
    ]
  ]
