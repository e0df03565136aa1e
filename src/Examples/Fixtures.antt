-- ===== src/Examples/Fixtures.antt =====
-- A small libev, a JSON library and a table with one connection, for the examples.
use dcj_rtc.Prelude.{ℕ, Bool, true, false, refl, none, some, Bytes, [], ◌∷◌, pos, arith, codes, ok}
use dcj_rtc.Base.EventLoop.{Mask, none_events, Libev, IsLibev}
use dcj_rtc.Rtc.Msg.{RtcMsg}
use dcj_rtc.Signaling.Conn.{TcpConnection, new_connection, state_body}
use dcj_rtc.Signaling.Framing.Stream.{answered}
use dcj_rtc.Signaling.Json.{JsonCpp, ReturnsAnyway}
use dcj_rtc.Signaling.Request.{push_msg}
use dcj_rtc.Signaling.Worker.{Worker, update, watched_connection, settings_ok}
use dcj_rtc.Signaling.Handlers.{add_reply}
use dcj_rtc.Signaling.Handlers.Keep.{add_reply-IsServed}
use dcj_rtc.Signaling.Table.{IsServed, IsTable}
use dcj_rtc.Signaling.Table.Update.{
  with_conn, update-IsTable, new_conn-IsTable, watched_connection-IsServed,
}

-- A watcher of this libev is what libev keeps of it.
pub record Io : Type 0 where
  pub active : Bool
  pub fd : ℕ
  pub events : Mask

abbrev pub small_ev : Libev Io Bool
small_ev = record {
  init = record { active = false; fd = 0; events = none_events };
  is_active = λ w. w.active;
  events = λ w. w.events;
  watched_fd = λ w. w.fd;
  set = λ w fd m. record w { fd = fd; events = m };
  start = λ w. record w { active = true };
  stop = λ w. record w { active = false };
  timer_init = false;
  timer_active = λ t. t;
  timer_stop = λ t. false;
  timer_set = λ t n. t;
  set_repeat = λ t n. t;
  timer_start = λ t. true;
  timer_again = λ t. true;
}

pub small_ev-IsLibev : IsLibev small_ev
small_ev-IsLibev = record {
  active-start = λ w. refl;
  active-stop = λ w. refl;
  events-start = λ w. refl;
  events-stop = λ w. refl;
  events-set = λ w fd m. refl;
  fd-start = λ w. refl;
  fd-set = λ w fd m. refl;
  init_idle = refl;
  timer_active-again = λ t n. refl;
  timer_active-start = λ t. refl;
  timer_active-stop = λ t. refl;
}

-- Every text asks for a push of `cam` by user 7.
abbrev pub small_json : JsonCpp Bytes
small_json = record {
  parse = λ b. some b;
  as_int = λ root key. some (pos 1);
  as_uint64 = λ root key. some 7;
  as_string = λ root key. some (codes "cam");
  write_string = λ members. codes "{}";
  unreturned = ok (pos 7);
}

pub small_json-ReturnsAnyway : ReturnsAnyway small_json
small_json-ReturnsAnyway = (pos 7, refl)

abbrev pub empty_worker : Worker Io Bool
empty_worker = record {
  conns = [];
  heap = λ p. none;
  q_conn = [];
  q_rtc_msg = [];
  queued = [];
  closed = [];
  pipe_watcher = some (record { active = true; fd = 3; events = none_events });
  notify_recv_fd = 3;
  notify_send_fd = 4;
  has_thread = true;
  loop_stopped = false;
  thread_joined = false;
}

pub empty_worker-IsTable : IsTable small_ev empty_worker
empty_worker-IsTable = record {
  entries = λ i h. absurd (h refl);
  listed = λ p c h. absurd (ground arith);
}

abbrev pub peer : Bytes × ℕ
peer = (codes "10.0.0.2", 5000)

-- Descriptor 5 with its connection at address 9.
abbrev pub conn : TcpConnection Io Bool
conn = watched_connection small_ev 5 peer 100

abbrev pub one_worker : Worker Io Bool
one_worker = with_conn small_ev empty_worker 5 9 conn

pub one_worker-IsTable : IsTable small_ev one_worker
unfolding settings_ok
one_worker-IsTable =
    (new_conn-IsTable small_ev small_ev-IsLibev empty_worker 5 9 100
      (record { flags = pos 2; set_flags = true; set_nodelay = true; peer = some peer }) peer
      empty_worker-IsTable (omega arith) (omega arith) refl refl refl refl).1

-- A request with an empty body: log id 1, and the magic number.
abbrev pub request_head : Bytes
request_head =
    0 ∷ 0 ∷ 0 ∷ 0 ∷ 1 ∷ 0 ∷ 0 ∷ 0 ∷ 0 ∷ 0 ∷ 0 ∷ 0 ∷ 0 ∷ 0 ∷ 0 ∷ 0 ∷ 0 ∷ 0 ∷ 0 ∷ 0 ∷ 0 ∷ 0 ∷ 0 ∷ 0
    ∷ 2 ∷ 34 ∷ 32 ∷ 251 ∷ 0 ∷ 0 ∷ 0 ∷ 0 ∷ 0 ∷ 0 ∷ 0 ∷ 0 ∷ []

-- The connection after that request, and with a reply that waits.
abbrev pub asked : TcpConnection Io Bool
asked = record conn {
  querybuf = request_head;
  current_state = state_body;
  bytes_expected = 0;
  bytes_processed = 65535;
}

pub asked-IsServed : IsServed small_ev asked 5
unfolding watched_connection
asked-IsServed =
    let s = watched_connection-IsServed small_ev small_ev-IsLibev 5 peer 100 in
    record {
      fd = s.fd;
      active = s.active;
      reads = s.reads;
      writes = s.writes;
      timer = s.timer;
      phase = answered refl refl refl refl (omega arith);
    }

abbrev pub asked_worker : Worker Io Bool
asked_worker = update one_worker 9 asked

pub asked_worker-IsTable : IsTable small_ev asked_worker
unfolding watched_connection new_connection
asked_worker-IsTable =
    update-IsTable small_ev one_worker 5 9 conn asked refl refl asked-IsServed one_worker-IsTable

-- The answer of the media server.
abbrev pub answer_msg : RtcMsg
answer_msg =
    push_msg small_json (record { worker = 1; conn = 9; fd = 5; notify_ok = λ q. true }) 7
      (codes "cam") (pos 1) (pos 1) (pos 1)

abbrev pub replying : TcpConnection Io Bool
replying = add_reply small_ev asked (1 ∷ 2 ∷ 3 ∷ [])

abbrev pub replying_worker : Worker Io Bool
replying_worker = update asked_worker 9 replying

pub replying_worker-IsTable : IsTable small_ev replying_worker
unfolding watched_connection new_connection add_reply
replying_worker-IsTable =
    update-IsTable small_ev asked_worker 5 9 asked replying refl refl
      (add_reply-IsServed small_ev small_ev-IsLibev asked 5 (1 ∷ 2 ∷ 3 ∷ []) asked-IsServed)
      asked_worker-IsTable
