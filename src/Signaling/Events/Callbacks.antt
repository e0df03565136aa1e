-- ===== src/Signaling/Events/Callbacks.antt =====
-- The callbacks of a signaling worker for a connection keep its table.
use dcj_rtc.Prelude.{
  ℕ, ◌+◌, ◌≡◌, refl, true, false, pos, some, List, [], ◌⊎◌, inl, inr, Bool, Bytes, Outcome, ok,
  arith, Bool-cases, leb, ◌-◌, ◌%◌, ◌^◌, if◌then◌else◌,
}
use dcj_rtc.Base.EventLoop.{Libev, IsLibev, Mask}
use dcj_rtc.Base.Socket.{ReadAnswer, WriteAnswer}
use dcj_rtc.Rtc.Msg.{RtcMsg}
use dcj_rtc.Signaling.Conn.{TcpConnection}
use dcj_rtc.Signaling.Json.{JsonCpp, ReturnsAnyway}
use dcj_rtc.Signaling.Worker.{
  Worker, NewConnAnswers, settings_ok, new_conn, process_timeout, deref, close,
}
use dcj_rtc.Signaling.Table.{IsTable}
use dcj_rtc.Signaling.Table.Close.{without_conn, close_conn-IsTable}
use dcj_rtc.Signaling.Table.Update.{new_conn-IsTable}
use dcj_rtc.Signaling.Handlers.{write_conn, conn_io_cb}
use dcj_rtc.Signaling.Handlers.Keep.{Enough, write_conn-IsTable}
use dcj_rtc.Signaling.Handlers.Write.{AllProgress}
use dcj_rtc.Signaling.Handlers.Read.{read_conn-IsTable}
use dcj_rtc.Signaling.Events.{io_ready, handle}
use dcj_rtc.Signaling.Events.Allowed.{ReadFits, IsFresh, read_part, Allowed}

-- The run returns with a well-formed table.
abbrev pub Keeps : {W T : Type 0} (ev : Libev W T) → Outcome (Worker W T) → Type 0
Keeps {W} {T} ev r = (w' : Worker W T) × (r ≡ ok w') × IsTable ev w'

module _ {W T V : Type 0} (ev : Libev W T) (laws : IsLibev ev) (json : JsonCpp V)
    (returns : ReturnsAnyway json) (self timeout : ℕ) (notify_ok : List RtcMsg → Bool) where
  read_part-Keeps :
      (ready : Bool) (answer : ReadAnswer) (now fd : ℕ) (w : Worker W T)
      → IsTable ev w
      → ReadFits w fd
      → Keeps ev (read_part ev json self timeout notify_ok ready answer now fd w)
  read_part-Keeps true answer now fd w v fits =
      read_conn-IsTable ev json returns self notify_ok answer now fd w v fits
  read_part-Keeps false answer now fd w v fits = (w, refl, v)

  write_part-Keeps :
      (ready : Bool) (answers : List WriteAnswer) (now fd : ℕ) (w : Worker W T)
      → IsTable ev w
      → AllProgress answers
      → Enough answers w fd
      → (w' : Worker W T) × (sent : Bytes) × ((if ready
            then write_conn ev answers now fd w
            else ok (w, []))
          ≡ ok (w', sent))
        × IsTable ev w'
  write_part-Keeps true answers now fd w v p n = write_conn-IsTable ev laws answers now fd w v p n
  write_part-Keeps false answers now fd w v p n = (w, [], refl, v)

  pub conn_io_cb-Keeps :
      (events : Mask) (answer : ReadAnswer) (answers : List WriteAnswer) (now fd : ℕ)
      (w : Worker W T)
      → IsTable ev w
      → Allowed ev json self timeout notify_ok w (io_ready events answer answers now fd)
      → Keeps ev (handle ev json 3 self timeout notify_ok (io_ready events answer answers now fd) w)
  unfolding handle conn_io_cb
  conn_io_cb-Keeps events answer answers now fd w v (fits, progress, after) =
      let (w1, e1, v1) = read_part-Keeps events.read answer now fd w v fits in
      let (w2, sent, e2, v2) =
        write_part-Keeps events.write answers now fd w1 v1 progress (after w1 e1) in
      (w2, rw (e1, handle, conn_io_cb, e2) refl, v2)

  pub process_timeout-Keeps :
      (now p : ℕ) (c : TcpConnection W T) (w : Worker W T)
      → IsTable ev w
      → w.heap p ≡ some c
      → Keeps ev (process_timeout ev timeout now p w)
  unfolding process_timeout deref
  process_timeout-Keeps now p c w v h =
      let (ne, own) = v.listed p c h in
      let r = rw own at (close_conn-IsTable ev w c.fd v (ground arith)) in
      elim (Bool-cases (leb (timeout % 2 ^ 32) ((now + 2 ^ 64 - c.last_active_time) % 2 ^ 64))) [
        | inl late ↦ (without_conn ev w c.fd p, rw (process_timeout, h, deref, late) r.0, r.1)
        | inr early ↦ (w, rw (process_timeout, h, deref, early) refl, v)
      ]

  pub new_conn-Keeps :
      (fd : ℕ) (answers : NewConnAnswers) (p now : ℕ) (w : Worker W T)
      → IsTable ev w
      → (settings_ok answers ≡ false) ⊎ IsFresh w answers fd p
      → Keeps ev (new_conn ev (pos fd) answers p now w)
  unfolding new_conn
  new_conn-Keeps fd answers p now w v (inl failed) =
      (close w fd, rw failed refl, record { entries = v.entries; listed = v.listed })
  new_conn-Keeps fd answers p now w v (inr f) =
      let r =
        new_conn-IsTable ev laws w fd p now answers f.peer v f.positive f.not_null f.unused
          f.free in
      elim (Bool-cases (settings_ok answers)) [
        | inl set ↦ let (e, v', rest) = r set f.peer_known in (_, e, v')
        | inr failed ↦
            (close w fd, rw failed refl, record { entries = v.entries; listed = v.listed })
      ]
