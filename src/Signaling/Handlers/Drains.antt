-- ===== src/Signaling/Handlers/Drains.antt =====
-- The write handler when the kernel takes every reply whole.
use dcj_rtc.Prelude.{
  ℕ, zero, suc, ◌≡◌, ◌≢◌, refl, sym, ◌∙◌, some, [], ok, get_or, arith, lt-length_of_get_or,
}
use mathlib.Core.List.{flatten}
use dcj_rtc.Base.EventLoop.{Libev, IsLibev, write_events, stop_io_event}
use dcj_rtc.Signaling.Conn.{TcpConnection}
use dcj_rtc.Signaling.Worker.{Worker, update, deref, entry}
use dcj_rtc.Signaling.Table.{IsServed, IsTable}
use dcj_rtc.Signaling.Table.Update.{update-IsTable}
use dcj_rtc.Signaling.Handlers.{finish_write, write_conn}
use dcj_rtc.Signaling.Handlers.Keep.{drained-IsServed}
use dcj_rtc.Signaling.Handlers.Write.{whole_writes, NonEmpty, write_loop-whole_writes}

module _ {W T : Type 0} (ev : Libev W T) (laws : IsLibev ev) where
  -- The connection with all its replies gone.
  abbrev pub emptied : (now : ℕ) → TcpConnection W T → TcpConnection W T
  emptied now c = record c {
    reply_msgs = [];
    last_active_time = now;
    io_watcher = stop_io_event ev c.io_watcher c.fd write_events;
  }

  -- If the kernel takes each reply whole, the write handler sends the replies of the connection one
  -- behind the other, watches no more for output, and keeps the table.
  pub write_conn-drains :
      (now fd p : ℕ) (w : Worker W T) (c : TcpConnection W T)
      → IsTable ev w
      → fd ≢ 0
      → p ≢ 0
      → get_or w.conns fd 0 ≡ p
      → w.heap p ≡ some c
      → NonEmpty c.reply_msgs
      → (write_conn ev (whole_writes c.reply_msgs) now fd w
          ≡ ok (update w p (emptied now c), flatten c.reply_msgs))
        × IsTable ev (update w p (emptied now c))
  unfolding write_conn deref finish_write
  write_conn-drains now zero p w c v pos_fd ne own alive some_bytes = absurd (pos_fd refl)
  write_conn-drains now (suc fd) p w c v pos_fd ne own alive some_bytes =
      let inside = lt-length_of_get_or w.conns (suc fd) 0 (λ e. ne (sym own ∙ e)) in
      let e : entry w (suc fd) ≡ some p = ground (arith, own, ne) in
      let (c', h, s) = v.entries (suc fd) (λ e. ne (sym own ∙ e)) in
      let same : c' ≡ c = ground (arith, own, alive) in
      let s' : IsServed ev c (suc fd) = rw same at s in
      (
        rw (e, write_conn, alive, deref, write_loop-whole_writes c.reply_msgs [] some_bytes) refl,
        update-IsTable ev w (suc fd) p c _ alive s'.fd (drained-IsServed ev laws c (suc fd) now s')
            v,
      )
