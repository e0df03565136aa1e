-- ===== src/Signaling/Table.antt =====
-- The connection table of a signaling worker: what is true of it between two events, and what
-- `_close_conn` does to it.
pub mod Close
pub mod Destroy
pub mod Update
use dcj_rtc.Prelude.{
  ℕ, ◌+◌, Bool, true, false, ◌≡◌, ◌≢◌, Option, none, some, Bytes, List, [], ◌∷◌, Outcome, ok,
  get_or, set, length,
}
use dcj_rtc.Base.EventLoop.{Libev}
use dcj_rtc.Signaling.Conn.{TcpConnection}
use dcj_rtc.Signaling.Framing.Stream.{InPhase}
use dcj_rtc.Signaling.Worker.{Worker}

-- Whether replies wait.
abbrev pub pending : List Bytes → Bool
pending [] = false
pending (m ∷ ms) = true

-- The connection of entry `i`: it is watched for input, and for output exactly while replies wait;
-- its timer runs; its buffer and its counters agree.
pub record IsServed {W T : Type 0} (ev : Libev W T) (c : TcpConnection W T) (i : ℕ) : Type 0 where
  pub fd : c.fd ≡ i
  pub active : ev.is_active c.io_watcher ≡ true
  pub reads : (ev.events c.io_watcher).read ≡ true
  pub writes : (ev.events c.io_watcher).write ≡ pending c.reply_msgs
  pub timer : ev.timer_active c.timer_watcher ≡ true
  pub phase : InPhase c c.querybuf

-- Every entry leads to a live connection of its own descriptor, and every live connection is
-- listed: no dangling pointer and no leak.
pub record IsTable {W T : Type 0} (ev : Libev W T) (w : Worker W T) : Type 0 where
  pub entries :
      (i : ℕ)
      → get_or w.conns i 0 ≢ 0
      → (c : TcpConnection W T) × (w.heap (get_or w.conns i 0) ≡ some c) × IsServed ev c i
  pub listed :
      (p : ℕ) (c : TcpConnection W T) → w.heap p ≡ some c → (p ≢ 0) × (get_or w.conns c.fd 0 ≡ p)
