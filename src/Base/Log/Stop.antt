-- ===== src/Base/Log/Stop.antt =====
-- The end of the log's thread: `stop` of xrtc_server/src/base/log.cpp.
use dcj_rtc.Prelude.{
  ℕ, suc, ◌-◌, ◌≤◌, ◌≡◌, refl, ◌∙◌, false, Bytes, List, [], ◌∷◌, arith, Bool-cases, inl, inr, ◌⊎◌,
}
use dcj_rtc.Base.Log.{
  LoggingSeverity, at_least_warning, Writer, testing, checking, draining, draining_wf, finished,
  writing, writing_wf, XrtcLog, FileAnswers, on_log_message, writer_step, Action, logs, writes,
  stops, act, run,
}

-- The steps that the thread has before it next looks at `_running`, and that look.
abbrev pub left : Writer → ℕ
left checking = 6
left draining = 5
left (writing ss) = 4
left draining_wf = 3
left (writing_wf ss) = 2
left testing = 1
left finished = 0

-- The steps of the thread among those of all.
abbrev pub own_steps : List Action → ℕ
own_steps [] = 0
own_steps (logs m severity ∷ acts) = own_steps acts
own_steps (writes a ∷ acts) = suc (own_steps acts)
own_steps (stops ∷ acts) = own_steps acts

-- After `_running` is reset, a step of the thread brings it nearer to its end.
left-writer_step :
    (a : FileAnswers) (at : Writer) (l : XrtcLog)
    → l.writer ≡ at
    → l.running ≡ false
    → left (writer_step a at l).writer ≤ left at - 1
unfolding writer_step
left-writer_step a testing l e off = rw off (omega arith)
left-writer_step a checking l e off = omega arith
left-writer_step a draining l e off = go l.log_queue refl
  where
    go : (q : List Bytes) → l.log_queue ≡ q → left (writer_step a draining l).writer ≤ 4
    go [] q = rw q (omega arith)
    go (m ∷ ms) q = rw q (omega arith)
left-writer_step a draining_wf l e off = go l.log_queue_wf refl
  where
    go : (q : List Bytes) → l.log_queue_wf ≡ q → left (writer_step a draining_wf l).writer ≤ 2
    go [] q = rw q (omega arith)
    go (m ∷ ms) q = rw q (omega arith)
left-writer_step a finished l e off = rw e (omega arith)
left-writer_step a (writing ss) l e off = omega arith
left-writer_step a (writing_wf ss) l e off = omega arith

writer_step-running :
    (a : FileAnswers) (at : Writer) (l : XrtcLog)
    → l.writer ≡ at
    → (writer_step a at l).running ≡ l.running
unfolding writer_step
writer_step-running a testing l e = refl
writer_step-running a checking l e = refl
writer_step-running a draining l e = ground arith
writer_step-running a draining_wf l e = ground arith
writer_step-running a finished l e = refl
writer_step-running a (writing ss) l e = refl
writer_step-running a (writing_wf ss) l e = refl

left-zero : (at : Writer) → left at ≤ 0 → at ≡ finished
left-zero finished h = refl
left-zero testing h = absurd (omega arith)
left-zero checking h = absurd (omega arith)
left-zero draining h = absurd (omega arith)
left-zero draining_wf h = absurd (omega arith)
left-zero (writing ss) h = absurd (omega arith)
left-zero (writing_wf ss) h = absurd (omega arith)

on_log_message-writer :
    (m : Bytes) (severity : LoggingSeverity) (l : XrtcLog)
    → ((on_log_message m severity l).writer ≡ l.writer)
      × ((on_log_message m severity l).running ≡ l.running)
      × ((on_log_message m severity l).out_file ≡ l.out_file)
      × ((on_log_message m severity l).out_file_wf ≡ l.out_file_wf)
unfolding on_log_message
on_log_message-writer m severity l = elim (Bool-cases (at_least_warning severity)) [
  | inl high ↦ rw high (refl, refl, refl, refl)
  | inr low ↦ rw low (refl, refl, refl, refl)
]

-- Once `_running` is reset, the thread ends within six of its own steps, whatever the other threads
-- log meanwhile, so that the `join` of `stop` returns.
pub run-finishes :
    (acts : List Action) (l : XrtcLog)
    → l.running ≡ false
    → left l.writer ≤ own_steps acts
    → (run acts l).writer ≡ finished
unfolding run act on_log_message
run-finishes [] l off h = left-zero l.writer (omega arith)
run-finishes (logs m severity ∷ acts) l off h =
    let (at, on, file, file_wf) = on_log_message-writer m severity l in
    run-finishes acts (on_log_message m severity l) (on ∙ off) (rw at h)
run-finishes (writes a ∷ acts) l off h =
    run-finishes acts (writer_step a l.writer l) (writer_step-running a l.writer l refl ∙ off)
      (omega (arith, left-writer_step a l.writer l refl off))
run-finishes (stops ∷ acts) l off h = run-finishes acts (record l { running = false }) refl h

-- The thread has ended, or will at its next look at `_running`.
abbrev Over : XrtcLog → Type 0
Over l = (l.running ≡ false) × ((l.writer ≡ testing) ⊎ (l.writer ≡ finished))

writer_step-Over :
    (a : FileAnswers) (at : Writer) (l : XrtcLog)
    → l.writer ≡ at
    → Over l
    → Over (writer_step a at l)
      × ((writer_step a at l).out_file ≡ l.out_file)
      × ((writer_step a at l).out_file_wf ≡ l.out_file_wf)
unfolding writer_step
writer_step-Over a testing l e (off, o) = ((off, inr (rw off refl)), refl, refl)
writer_step-Over a finished l e o = (o, refl, refl)
writer_step-Over a checking l e (off, o) = ground arith
writer_step-Over a draining l e (off, o) = ground arith
writer_step-Over a draining_wf l e (off, o) = ground arith
writer_step-Over a (writing ss) l e (off, o) = ground arith
writer_step-Over a (writing_wf ss) l e (off, o) = ground arith

run-Over :
    (acts : List Action) (l : XrtcLog)
    → Over l
    → ((run acts l).out_file ≡ l.out_file) × ((run acts l).out_file_wf ≡ l.out_file_wf)
unfolding run act
run-Over [] l o = (refl, refl)
run-Over (logs m severity ∷ acts) l o =
    let (at, on, file, file_wf) = on_log_message-writer m severity l in
    let r = run-Over acts (on_log_message m severity l) (rw (at, on) o) in
    (r.0 ∙ file, r.1 ∙ file_wf)
run-Over (writes a ∷ acts) l o =
    let (o', file, file_wf) = writer_step-Over a l.writer l refl o in
    let r = run-Over acts (writer_step a l.writer l) o' in (r.0 ∙ file, r.1 ∙ file_wf)
run-Over (stops ∷ acts) l (off, o) = run-Over acts (record l { running = false }) (refl, o)

-- If `stop` resets `_running` while the thread is between two rounds, the files stay as they are,
-- whatever happens next: no message that waits in a queue then, or comes later, is written.
pub run-stops_first :
    (acts : List Action) (l : XrtcLog)
    → l.writer ≡ testing
    → ((run (stops ∷ acts) l).out_file ≡ l.out_file)
      × ((run (stops ∷ acts) l).out_file_wf ≡ l.out_file_wf)
unfolding run act
run-stops_first acts l e = run-Over acts (record l { running = false }) (refl, inl e)
