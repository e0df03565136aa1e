-- ===== src/Examples/Events.antt =====
-- A history of a signaling worker.
use dcj_rtc.Prelude.{Bool, pos, true, some, List, [], ◌∷◌}
use dcj_rtc.Rtc.Msg.{RtcMsg}
use dcj_rtc.Signaling.Worker.{Worker, NewConnAnswers, watched_connection}
use dcj_rtc.Signaling.Table.Update.{with_conn}
use dcj_rtc.Signaling.Events.{Event, notified, timer_fired, conn_queued}
use dcj_rtc.Base.Socket.{whole_int}
use dcj_rtc.Examples.Fixtures.{Io, small_ev, peer, one_worker}

-- The media server's pipe is written without an error.
abbrev writes : List RtcMsg → Bool
writes queued = true

abbrev answers : NewConnAnswers
answers = record { flags = pos 2; set_flags = true; set_nodelay = true; peer = some peer }

abbrev later : List Event
later = timer_fired 300 8 ∷ []

abbrev accepting : List Event
accepting = notified (whole_int (pos 1)) answers 8 200 true ∷ later

-- A second client arrives, and its connection is looked at when its timer fires.
abbrev history : List Event
history = conn_queued (pos 7) true ∷ accepting

abbrev queued_worker : Worker Io Bool
queued_worker = record one_worker { q_conn = pos 7 ∷ [] }

abbrev both : Worker Io Bool
both = with_conn small_ev one_worker 7 8 (watched_connection small_ev 7 peer 200)
