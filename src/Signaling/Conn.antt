-- ===== src/Signaling/Conn.antt =====
-- xrtc_server/src/server/tcp_connection.h and .cpp: one connection.
use dcj_rtc.Prelude.{ℕ, List, [], Bytes}
use dcj_rtc.Wire.{xhead_size}

-- `STATE_HEAD` and `STATE_BODY`
pub data ConnState : Type 0 where
  state_head state_body : ConnState

-- `W` and `T` are the watchers of libev. `io_watcher` and `timer_watcher` hold the structs that
-- the code's pointers lead to.
pub record TcpConnection (W T : Type 0) : Type 0 where
  pub fd : ℕ
  pub ip : Bytes
  pub port : ℕ
  pub io_watcher : W
  pub timer_watcher : T
  pub querybuf : Bytes
  pub bytes_expected : ℕ
  pub bytes_processed : ℕ
  pub current_state : ConnState
  pub last_active_time : ℕ
  pub reply_msgs : List Bytes

-- `TcpConnection::TcpConnection(fd)`; the watchers are set before anything reads them.
unfoldable pub new_connection : {W T : Type 0} → W → T → ℕ → TcpConnection W T
new_connection w t fd = record {
  fd = fd;
  ip = [];
  port = 0;
  io_watcher = w;
  timer_watcher = t;
  querybuf = [];
  bytes_expected = xhead_size;
  bytes_processed = 0;
  current_state = state_head;
  last_active_time = 0;
  reply_msgs = [];
}
