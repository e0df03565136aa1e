-- ===== src/Examples/Log.antt =====
-- Histories of the log.
use dcj_rtc.Prelude.{◌≡◌, refl, true, false, List, [], ◌∷◌, arith, codes}
use mathlib.Core.List.{flatten}
use dcj_rtc.Base.Log.{
  XrtcLog, new_log, init, made_dir, start, OutFile, testing, finished, writing, FileAnswers, Action,
  logs, writes, stops, ls_info, ls_warning, ls_verbose, ls_none, get_log_severity, act, run,
  writer_step, on_log_message,
}
use dcj_rtc.Prelude.Text.{bytes_eq}
use dcj_rtc.Base.Log.Order.{accepted, accepted_wf, run-in_order}
use dcj_rtc.Base.Log.Stop.{run-finishes, run-stops_first}

abbrev opened : OutFile
opened = record { is_open = true; text = [] }

-- After `init` and `start`.
abbrev started : XrtcLog
started = record (new_log (codes "log") (codes "rtc") (codes "info")) {
  out_file = opened;
  out_file_wf = opened;
  has_thread = true;
  running = true;
  writer = testing;
}

init-started :
    (start (init made_dir true true (new_log (codes "log") (codes "rtc") (codes "info"))).1).1
    ≡ started
unfolding init start
init-started = refl

abbrev files : FileAnswers
files = record { there = true; opened = true; there_wf = false; opened_wf = true }

-- Two messages, and a pass of the thread, during which a third arrives.
abbrev pass : List Action
pass =
    logs (codes "a") ls_info
    ∷ logs (codes "w") ls_warning
    ∷ writes files
    ∷ writes files
    ∷ writes files
    ∷ logs (codes "b") ls_verbose
    ∷ writes files
    ∷ []

run-in_order_example :
    (accepted (run pass started) ≡ codes "ab") × (accepted_wf (run pass started) ≡ codes "w")
unfolding flatten
run-in_order_example =
    run-in_order pass started (refl, refl)
      (tt, (tt, ((refl, refl), ((refl, refl), ((refl, refl), (tt, ((refl, refl), tt)))))))

-- The first message is in the file after it.
run-pass : (run pass started).out_file.text ≡ codes "a"
unfolding run act on_log_message writer_step flatten
run-pass = refl

abbrev stopping : XrtcLog
stopping = record started { running = false; writer = writing (codes "a") }

run-finishes_example :
    (run
      (writes files ∷ logs (codes "b") ls_info ∷ writes files ∷ writes files ∷ writes files ∷ [])
      stopping).writer
    ≡ finished
run-finishes_example =
    run-finishes
      (writes files ∷ logs (codes "b") ls_info ∷ writes files ∷ writes files ∷ writes files ∷ [])
      stopping refl (omega arith)

-- The last message before the end is lost.
abbrev last_words : XrtcLog
last_words = record started { log_queue = codes "stop" ∷ [] }

run-stops_first_example :
    ((run (stops ∷ pass) last_words).out_file ≡ opened)
    × ((run (stops ∷ pass) last_words).out_file_wf ≡ opened)
run-stops_first_example = run-stops_first pass last_words refl

-- The levels that the configuration's comment names, but for one, are known.
debug_is_none : get_log_severity (codes "debug") ≡ ls_none
unfolding get_log_severity bytes_eq
debug_is_none = refl
