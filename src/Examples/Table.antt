-- ===== src/Examples/Table.antt =====
-- The table of connections of one worker.
use dcj_rtc.Prelude.{
  fault, List, [], ◌∷◌, none, ℕ, pos, ◌≡◌, refl, Bool, true, some, ok, arith, get_or, if◌then◌else◌,
  ◌==◌,
}
use dcj_rtc.Base.EventLoop.{mask, start_io_event}
use dcj_rtc.Base.EventLoop.Interest.{interest}
use dcj_rtc.Base.EventLoop.History.{
  input, output, mask_of, Call, starts, stops, watched, run_calls, interest-run_calls,
}
use dcj_rtc.Signaling.Worker.{
  destroy_worker, join_worker, Worker, NewConnAnswers, settings_ok, new_conn, close_conn,
  watched_connection,
}
use dcj_rtc.Signaling.Table.{IsTable}
use dcj_rtc.Signaling.Table.Destroy.{destroy_worker-frees, destroy_worker-join_worker}
use dcj_rtc.Signaling.Table.Close.{without_conn, close_conn-IsTable}
use dcj_rtc.Signaling.Table.Update.{with_conn, new_conn-IsTable}
use dcj_rtc.Examples.Fixtures.{Io, small_ev, small_ev-IsLibev, peer, one_worker, one_worker-IsTable}

abbrev watcher : Bool → Io
watcher active = record { active = active; fd = 5; events = mask true true }

abbrev answers : NewConnAnswers
answers = record { flags = pos 2; set_flags = true; set_nodelay = true; peer = some peer }

abbrev two_workers : Worker Io Bool
two_workers = with_conn small_ev one_worker 7 8 (watched_connection small_ev 7 peer 200)

new_conn-IsTable_example :
    (new_conn small_ev (pos 7) answers 8 200 one_worker ≡ ok two_workers)
    × IsTable small_ev two_workers
    × ((j : ℕ) → get_or two_workers.conns j 0 ≡ (if 7 == j then 8 else get_or one_worker.conns j 0))
unfolding settings_ok
new_conn-IsTable_example =
    new_conn-IsTable small_ev small_ev-IsLibev one_worker 7 8 200 answers peer one_worker-IsTable
      (omega arith) (omega arith) refl refl refl refl

close_conn-IsTable_example :
    (close_conn small_ev 9 one_worker ≡ ok (without_conn small_ev one_worker 5 9))
    × IsTable small_ev (without_conn small_ev one_worker 5 9)
close_conn-IsTable_example =
    close_conn-IsTable small_ev one_worker 5 one_worker-IsTable (omega arith)

destroy_worker-frees_example :
    (w : Worker Io Bool) × (destroy_worker small_ev true one_worker ≡ ok w)
    × ((p : ℕ) → w.heap p ≡ none)
destroy_worker-frees_example = destroy_worker-frees small_ev one_worker one_worker-IsTable refl

destroy_worker-join_worker_example : destroy_worker small_ev true (join_worker one_worker) ≡ fault
destroy_worker-join_worker_example =
    destroy_worker-join_worker small_ev true one_worker one_worker-IsTable refl

-- Input stays watched while output comes and goes, and the second stop of output changes nothing.
abbrev some_calls : List Call
some_calls = starts output ∷ stops output ∷ stops output ∷ []

interest-run_calls_example :
    interest small_ev
      (run_calls small_ev 5 (start_io_event small_ev small_ev.init 5 (mask_of input)) some_calls)
    ≡ watched (mask_of input) some_calls
interest-run_calls_example = interest-run_calls small_ev small_ev-IsLibev input some_calls 5
