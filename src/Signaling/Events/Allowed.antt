-- ===== src/Signaling/Events/Allowed.antt =====
-- The events that the handlers of a signaling worker are made for.
use dcj_rtc.Prelude.{
  ℕ, ◌+◌, ◌<◌, ◌≤◌, ◌≡◌, ◌≢◌, false, ℤ, pos, negsuc, none, some, List, [], ◌∷◌, ◌⊎◌, Bool, Bytes,
  Outcome, ok, length, get_or, if◌then◌else◌,
}
use dcj_rtc.Base.EventLoop.{Libev}
use dcj_rtc.Base.Socket.{ReadAnswer}
use dcj_rtc.Rtc.Msg.{RtcMsg, max_res_buf}
use dcj_rtc.Wire.{xhead_size}
use dcj_rtc.Signaling.Conn.{TcpConnection}
use dcj_rtc.Signaling.Framing.{short_connection}
use dcj_rtc.Signaling.Json.{JsonCpp}
use dcj_rtc.Signaling.Worker.{Worker, NewConnAnswers, settings_ok, entry}
use dcj_rtc.Signaling.Handlers.{read_conn, offer_target, response_body}
use dcj_rtc.Signaling.Handlers.Keep.{Enough}
use dcj_rtc.Signaling.Handlers.Write.{AllProgress}
use dcj_rtc.Signaling.Events.{
  Event, io_ready, timer_fired, notified, conn_queued, msg_queued, handle,
}

module _ {W T : Type 0} where
  -- One more read leaves the buffer under the bound of the framing loop.
  abbrev pub ReadFits : Worker W T → ℕ → Type 0
  ReadFits w fd =
      (p : ℕ) (c : TcpConnection W T)
      → entry w fd ≡ some p
      → w.heap p ≡ some c
      → length c.querybuf + c.bytes_expected < short_connection

  -- The object is new, and its descriptor has no connection, and is not 0.
  pub record IsFresh (w : Worker W T) (answers : NewConnAnswers) (fd p : ℕ) : Type 0 where
    pub peer : Bytes × ℕ
    pub peer_known : answers.peer ≡ some peer
    pub positive : 0 < fd
    pub not_null : p ≢ 0
    pub unused : w.heap p ≡ none
    pub free : get_or w.conns fd 0 ≡ 0

  -- Either a setting fails, or the connection can be entered. `getpeername` does not fail.
  abbrev pub CanAccept : Worker W T → NewConnAnswers → ℕ → List ℤ → Type 0
  CanAccept w answers p [] = Unit {0}
  CanAccept w answers p (negsuc n ∷ fds) = Unit {0}
  CanAccept w answers p (pos fd ∷ fds) =
      (settings_ok answers ≡ false) ⊎ IsFresh (record w { q_conn = fds }) answers fd p

module _ {W T V : Type 0} (json : JsonCpp V) where
  -- The reply fits, and the connection that it goes to has the request's header.
  abbrev pub CanReply : Worker W T → List RtcMsg → Type 0
  CanReply w [] = Unit {0}
  CanReply w (m ∷ ms) =
      (length (response_body json m) ≤ max_res_buf)
      × ((p : ℕ) (c : TcpConnection W T)
          → offer_target m (record w { q_rtc_msg = ms }) ≡ some p
          → w.heap p ≡ some c
          → xhead_size ≤ length c.querybuf)

module _ {W T V : Type 0} (ev : Libev W T) (json : JsonCpp V) (self timeout : ℕ)
    (notify_ok : List RtcMsg → Bool) where
  -- The first half of `conn_io_cb`.
  abbrev pub read_part : Bool → ReadAnswer → (now fd : ℕ) → Worker W T → Outcome (Worker W T)
  read_part ready answer now fd w =
      if ready then read_conn ev json 3 self notify_ok answer now fd w else ok w

  -- What has to hold of an event.
  abbrev pub Allowed : Worker W T → Event → Type 0
  Allowed w (io_ready events answer answers now fd) =
      ReadFits w fd
      × AllProgress answers
      × ((w' : Worker W T) → read_part events.read answer now fd w ≡ ok w' → Enough answers w' fd)
  Allowed w (timer_fired now p) = (c : TcpConnection W T) × (w.heap p ≡ some c)
  Allowed w (notified read answers p now room) =
      ((watcher : W) × (w.pipe_watcher ≡ some watcher))
      × CanAccept w answers p w.q_conn
      × CanReply json w w.q_rtc_msg
  Allowed w (conn_queued fd sent) = Unit {0}
  Allowed w (msg_queued m sent) = Unit {0}

  -- Each event is allowed where it happens.
  abbrev pub AllAllowed : Worker W T → List Event → Type 0
  AllAllowed w [] = Unit {0}
  AllAllowed w (e ∷ es) =
      Allowed w e
      × ((w' : Worker W T) → handle ev json 3 self timeout notify_ok e w ≡ ok w' → AllAllowed w' es)
