-- ===== src/Round/Accept.antt =====
-- A client's connection on its way from the listener of xrtc_server/src/server/signaling_server.cpp to
-- the table of a signaling worker.
use dcj_rtc.Prelude.{
  ℕ, pos, ◌+◌, ◌%◌, ◌^◌, ◌<◌, ◌≡◌, ◌≢◌, refl, true, some, none, Bool, Bytes, [], ◌∷◌, ◌++◌, ok,
  get_or, length, lt→ltb, arith,
}
use dcj_rtc.Base.EventLoop.{Libev, IsLibev}
use dcj_rtc.Base.Socket.Setup.{accepted, tcp_accept, generic_accept}
use dcj_rtc.Signaling.Conn.{TcpConnection, new_connection}
use dcj_rtc.Signaling.Json.{JsonCpp}
use dcj_rtc.Signaling.Worker.{Worker, NewConnAnswers, settings_ok, watched_connection}
use dcj_rtc.Signaling.Table.{IsTable}
use dcj_rtc.Signaling.Table.Update.{with_conn, new_conn-IsTable}
use dcj_rtc.Signaling.Events
use dcj_rtc.Signaling.Handlers
use dcj_rtc.Signaling.Server.{SignalingServer, accept_new_conn, dispatch_new_conn}
use dcj_rtc.Round.Request.{IsNew}

-- The place for a new connection: a descriptor whose entry is empty, and a fresh address; the calls
-- on the descriptor succeed.
pub record IsFree {W T : Type 0} (fd p : ℕ) (answers : NewConnAnswers) (peer : Bytes × ℕ)
    (g : Worker W T) : Type 0 where
  pub positive : 0 < fd
  pub not_null : p ≢ 0
  pub fresh : g.heap p ≡ none
  pub empty : get_or g.conns fd 0 ≡ 0
  pub settings : settings_ok answers ≡ true
  pub peer_known : answers.peer ≡ some peer

module _ {W T V : Type 0} (ev : Libev W T) (laws : IsLibev ev) (json : JsonCpp V) where
  -- A connection that the listener accepts becomes a new connection of a worker: the listener
  -- hands its descriptor to the worker whose turn it is, and that worker, woken by the notice, has
  -- it in its table with nothing read and nothing to write; its queues of messages are as before.
  -- The listener has some worker and its counter is not at its end, no other descriptor waits for
  -- the worker, the descriptor is not 0, its entry is empty and the object's address is fresh, the
  -- settings and `getpeername` succeed for it, and no notice is refused.
  pub accepted-IsNew :
      (s : SignalingServer W) (g : Worker W T) (fd p now : ℕ) (client : Bytes × ℕ)
      (answers : NewConnAnswers) (peer : Bytes × ℕ) (room : Bool)
      → 0 < length s.workers
      → s.next_worker_id + 1 < 2 ^ 31
      → IsTable ev g
      → g.q_conn ≡ []
      → IsFree fd p answers peer g
      → (s' : SignalingServer W) × (g' : Worker W T) × (c : TcpConnection W T) × (accept_new_conn 1
            (accepted fd)
            client
            s
          ≡ ok s')
        × (s'.sent
            ≡ s.sent ++ ((get_or s.workers (s.next_worker_id % length s.workers) 0, fd) ∷ []))
        × (Handlers.process_notify ev json
              (pos 1)
              answers
              p
              now
              room
              (Events.notify_new_conn (pos fd) true g).1
            ≡ ok g')
        × IsNew ev fd p g' c
        × (g'.queued ≡ g.queued)
        × (g'.q_rtc_msg ≡ g.q_rtc_msg)
  unfolding accept_new_conn dispatch_new_conn tcp_accept generic_accept Events.notify_new_conn
      Handlers.process_notify watched_connection new_connection
  accepted-IsNew s g fd p now client answers peer room some_worker small v nobody f =
      let g0 : Worker W T = record g { q_conn = [] } in
      let v0 : IsTable ev g0 = record { entries = v.entries; listed = v.listed } in
      let (run, v1, conns) =
        new_conn-IsTable ev laws g0 fd p now answers peer v0 f.positive f.not_null f.fresh f.empty
          f.settings f.peer_known in
      let c = watched_connection ev fd peer now in
      (
        record s {
          next_worker_id = s.next_worker_id + 1;
          sent = s.sent ++ ((get_or s.workers (s.next_worker_id % length s.workers) 0, fd) ∷ []);
        },
        with_conn ev g0 fd p c,
        c,
        rw (lt→ltb 0 (length s.workers) some_worker, lt→ltb (s.next_worker_id + 1) (2 ^ 31) small)
            refl,
        refl,
        rw (nobody, Handlers.process_notify) run,
        record {
          table = v1;
          owned = ground (arith, conns fd);
          not_null = f.not_null;
          alive = ground arith;
          nothing_read = refl;
          nothing_to_write = refl;
        },
        refl,
        refl,
      )
