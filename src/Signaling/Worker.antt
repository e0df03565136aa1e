-- ===== src/Signaling/Worker.antt =====
-- `SignalingServerWorker` of xrtc_server/src/server/signaling_worker.cpp: the table of connections
-- and the handlers that its event loop calls. Objects of class `TcpConnection` live on a heap; the
-- table holds their addresses, as `_conns` does, 0 for `nullptr`. What a system call answers, the
-- loop's time and what `new` returns are arguments of the handler.
use dcj_rtc.Prelude.{
  ℕ, zero, suc, [], ◌+◌, ◌-◌, ◌*◌, ◌^◌, ◌%◌, Bool, true, false, not, ◌&&◌, ◌||◌, Option, none, some,
  Bytes, List, ◌∷◌, ◌++◌, ℤ, pos, negsuc, Outcome, ok, fault, require, ◌>>=◌, ◌>>◌, ltb, leb, ◌==◌,
  length, get_or, set, take, replicate, if◌then◌else◌,
}
use dcj_rtc.Base.EventLoop.{
  Libev, read_events, start_io_event, delete_io_event, start_timer, stop_timer,
}
use dcj_rtc.Base.Socket.Setup.{sock_set_non_block, sock_set_tcp_nodelay}
use dcj_rtc.Rtc.Msg.{RtcMsg}
use dcj_rtc.Signaling.Conn.{TcpConnection, new_connection}

pub record Worker (W T : Type 0) : Type 0 where
  -- `_conns`
  pub conns : List ℕ
  pub heap : ℕ → Option (TcpConnection W T)
  -- `_q_conn`, the oldest first: the queue's nodes are in Base/Queue.
  pub q_conn : List ℤ
  -- `_q_rtc_msg`, the oldest first.
  pub q_rtc_msg : List RtcMsg
  -- The queue of the media server, to which `send_rtc_msg` adds.
  pub queued : List RtcMsg
  -- The descriptors given to `close`, the last first.
  pub closed : List ℕ
  -- `_pipe_watcher`, `nullptr` once deleted; the two ends of the pipe that `init` opens; whether
  -- there is a `_thread`; whether `_el->stop()` was called; whether the thread was joined.
  pub pipe_watcher : Option W
  pub notify_recv_fd : ℕ
  pub notify_send_fd : ℕ
  pub has_thread : Bool
  pub loop_stopped : Bool
  pub thread_joined : Bool

module _ {W T : Type 0} where
  abbrev pub store :
      (ℕ → Option (TcpConnection W T))
      → ℕ
      → Option (TcpConnection W T)
      → ℕ
      → Option (TcpConnection W T)
  store h p c q = if q == p then c else h q

  -- `*c`: a pointer to no live object is undefined behaviour.
  unfoldable pub deref : Worker W T → ℕ → Outcome (TcpConnection W T)
  deref w p = elim (w.heap p) [ none ↦ fault | some c ↦ ok c ]

  abbrev pub update : Worker W T → ℕ → TcpConnection W T → Worker W T
  update w p c = record w { heap = store w.heap p (some c) }

  abbrev pub close : Worker W T → ℕ → Worker W T
  close w fd = record w { closed = fd ∷ w.closed }

  -- `join`; the call waits for the end of the thread.
  unfoldable pub join_worker : Worker W T → Worker W T
  join_worker w =
      if w.has_thread && not w.thread_joined then record w { thread_joined = true } else w

  -- `delete c`, with the destructor `~TcpConnection` of tcp_connection.cpp; the replies and the
  -- buffer are the object's own, and go with it.
  unfoldable pub delete_conn : Worker W T → ℕ → TcpConnection W T → Worker W T
  delete_conn w p c = record (close w c.fd) { heap = store w.heap p none }

  -- The entry that a handler works on; `none` is the early return.
  abbrev pub entry : Worker W T → ℕ → Option ℕ
  entry w fd =
      if leb (length w.conns) fd
      then none
      else (let p = get_or w.conns fd 0 in if p == 0 then none else some p)

-- `_conns.resize(n, nullptr)`
abbrev pub resize : ℕ → List ℕ → List ℕ
resize n conns = take n conns ++ replicate (n - length conns) 0

-- What the system calls of `_new_conn` answer: those of the two settings, and the peer's address.
pub record NewConnAnswers : Type 0 where
  pub flags : ℤ
  pub set_flags : Bool
  pub set_nodelay : Bool
  pub peer : Option (Bytes × ℕ)

-- `sock_set_non_block` and, if that succeeds, `sock_set_tcp_nodelay`.
unfoldable pub settings_ok : NewConnAnswers → Bool
unfolding sock_set_non_block sock_set_tcp_nodelay
settings_ok answers =
    sock_set_non_block answers.flags answers.set_flags && sock_set_tcp_nodelay answers.set_nodelay

module _ {W T : Type 0} (ev : Libev W T) where
  -- `_remove_conn`: the watchers are stopped and deleted, then the entry and the object go.
  unfoldable pub remove_conn : ℕ → Worker W T → Outcome (Worker W T)
  remove_conn p w = do
    c ← deref w p
    let c' = record c {
      timer_watcher = stop_timer ev c.timer_watcher;
      io_watcher = delete_io_event ev c.io_watcher;
    }
    require (ltb c.fd (length w.conns))
    ok (delete_conn (record w { conns = set w.conns c.fd 0 }) p c')

  -- `_close_conn`
  unfoldable pub close_conn : ℕ → Worker W T → Outcome (Worker W T)
  unfolding remove_conn
  close_conn p w = do c ← deref w p; remove_conn p (close w c.fd)

  -- The connection with its watchers started.
  unfoldable pub watched_connection : ℕ → Bytes × ℕ → ℕ → TcpConnection W T
  watched_connection fd (ip, port) now =
      record (new_connection (start_io_event ev ev.init fd read_events)
        (start_timer ev true ev.timer_init 100000) fd) {
          ip = ip;
          port = port;
          last_active_time = now;
        }

  -- `_new_conn`, up to the entry in the table: the object is at the fresh address `p`.
  unfoldable pub add_conn : ℕ → ℕ → TcpConnection W T → Worker W T → Outcome (Worker W T)
  add_conn fd p c w = do
    let conns = (if leb (length w.conns) fd then resize (fd * 2) w.conns else w.conns)
    require (ltb fd (length conns))
    ok (record w { conns = set conns fd p; heap = store w.heap p (some c) })

  unfoldable pub new_conn : ℤ → NewConnAnswers → (fresh now : ℕ) → Worker W T → Outcome (Worker W T)
  unfolding add_conn watched_connection
  new_conn (negsuc n) answers p now w = ok w
  new_conn (pos fd) answers p now w =
      if settings_ok answers
      then elim answers.peer [
        | none ↦ ok (
            close
              (record w { heap = store w.heap p (some (new_connection ev.init ev.timer_init fd)) })
              fd)
        | some peer ↦ add_conn fd p (watched_connection fd peer now) w
      ]
      else ok (close w fd)

  -- `_process_timeout`: an `unsigned long long` difference against the timeout.
  unfoldable pub process_timeout : (timeout now p : ℕ) → Worker W T → Outcome (Worker W T)
  process_timeout timeout now p w = do
    c ← deref w p
    if leb (timeout % 2 ^ 32) ((now + 2 ^ 64 - c.last_active_time) % 2 ^ 64)
        then close_conn p w
        else ok w

  -- The loop of the destructor `~SignalingServerWorker` over `_conns`, from entry `i` on, with `k`
  -- entries left; `_close_conn` writes to the table on the way.
  unfoldable pub close_entries : (k i : ℕ) → Worker W T → Outcome (Worker W T)
  unfolding close_conn
  close_entries zero i w = ok w
  close_entries (suc k) i w = elim (get_or w.conns i 0 == 0) [
    | true ↦ close_entries k (suc i) w
    | false ↦ close_conn (get_or w.conns i 0) w >>= λ w'. close_entries k (suc i) w'
  ]

  -- What the destructor does after the loop, if it comes to its end.
  abbrev pub ended : Worker W T → Worker W T
  ended w = record w {
    conns = [];
    closed = w.notify_send_fd ∷ w.notify_recv_fd ∷ w.closed;
    has_thread = false;
  }

  -- `~SignalingServerWorker`, with whether the thread has come to its end by then: connections and
  -- the loop are deleted before the `join`, under a thread that may still be in its loop. To join a
  -- thread a second time throws, and nothing may leave a destructor by an exception: the process is
  -- ended. `_close_conn` leaves the thread alone.
  unfoldable pub destroy_worker : (thread_ended : Bool) → Worker W T → Outcome (Worker W T)
  unfolding close_entries
  destroy_worker thread_ended w = do
    require (thread_ended || w.thread_joined || not w.has_thread)
    w' ← close_entries (length w.conns) 0 w
    require (not (w.has_thread && w.thread_joined))
    ok (ended w')
