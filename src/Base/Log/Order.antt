-- ===== src/Base/Log/Order.antt =====
-- What becomes of the messages that are given to the log of xrtc_server/src/base/log.cpp.
use dcj_rtc.Prelude.{
  ◌≡◌, refl, ◌∙◌, ap, Bool, true, false, Bytes, List, [], ◌∷◌, ◌++◌, append-nil, append_assoc,
  arith, Bool-cases, inl, inr, if◌then◌else◌,
}
use mathlib.Core.List.{flatten}
use dcj_rtc.Base.Log.{
  LoggingSeverity, at_least_warning, Writer, testing, checking, draining, draining_wf, finished,
  writing, writing_wf, XrtcLog, on_log_message, FileAnswers, writer_step, Action, logs, writes,
  stops, act, run,
}

-- The texts of the messages for either file, in the order of the calls.
abbrev pub told : List Action → Bytes
told [] = []
told (logs m severity ∷ acts) =
    let rest = told acts in if at_least_warning severity then rest else m ++ rest
told (writes a ∷ acts) = told acts
told (stops ∷ acts) = told acts

abbrev pub told_wf : List Action → Bytes
told_wf [] = []
told_wf (logs m severity ∷ acts) =
    let rest = told_wf acts in if at_least_warning severity then m ++ rest else rest
told_wf (writes a ∷ acts) = told_wf acts
told_wf (stops ∷ acts) = told_wf acts

-- What the thread has taken out of a queue and not yet written.
abbrev pub in_hand : Writer → Bytes
in_hand (writing ss) = ss
in_hand testing = []
in_hand checking = []
in_hand draining = []
in_hand draining_wf = []
in_hand finished = []
in_hand (writing_wf ss) = []

abbrev pub in_hand_wf : Writer → Bytes
in_hand_wf (writing_wf ss) = ss
in_hand_wf testing = []
in_hand_wf checking = []
in_hand_wf draining = []
in_hand_wf draining_wf = []
in_hand_wf finished = []
in_hand_wf (writing ss) = []

-- The texts on their way, the oldest first: in the file, in hand, in the queue.
abbrev pub accepted : XrtcLog → Bytes
accepted l = l.out_file.text ++ (in_hand l.writer ++ flatten l.log_queue)

abbrev pub accepted_wf : XrtcLog → Bytes
accepted_wf l = l.out_file_wf.text ++ (in_hand_wf l.writer ++ flatten l.log_queue_wf)

-- Both streams are open, and a file that has gone can be opened anew.
abbrev pub AreOpen : XrtcLog → Type 0
AreOpen l = (l.out_file.is_open ≡ true) × (l.out_file_wf.is_open ≡ true)

abbrev pub CanOpen : Action → Type 0
CanOpen (logs m severity) = Unit {0}
CanOpen (writes a) = (a.opened ≡ true) × (a.opened_wf ≡ true)
CanOpen stops = Unit {0}

abbrev pub AllCanOpen : List Action → Type 0
AllCanOpen [] = Unit {0}
AllCanOpen (a ∷ acts) = CanOpen a × AllCanOpen acts

flatten-append : (xs : List Bytes) (m : Bytes) → flatten (xs ++ (m ∷ [])) ≡ flatten xs ++ m
unfolding flatten
flatten-append [] m = append-nil m
flatten-append (x ∷ xs) m = simp (append_assoc, flatten-append xs m)

-- A step of the thread moves texts along, and loses none.
record Moves (l l' : XrtcLog) : Type 0 where
  text : accepted l' ≡ accepted l
  text_wf : accepted_wf l' ≡ accepted_wf l
  stays : AreOpen l'

writer_step-Moves :
    (a : FileAnswers) (at : Writer) (l : XrtcLog)
    → l.writer ≡ at
    → AreOpen l
    → CanOpen (writes a)
    → Moves l (writer_step a at l)
unfolding writer_step flatten
writer_step-Moves a testing l e o c = elim (Bool-cases l.running) [
  | inl on ↦ record { text = rw (e, on) refl; text_wf = rw (e, on) refl; stays = o }
  | inr off ↦ record { text = rw (e, off) refl; text_wf = rw (e, off) refl; stays = o }
]
writer_step-Moves a checking l e (o, o_wf) (c, c_wf) = record {
  text = rw e (ground arith);
  text_wf = rw e (ground arith);
  stays = (ground arith, ground arith);
}
writer_step-Moves a draining l e o c = go l.log_queue refl
  where
    go : (q : List Bytes) → l.log_queue ≡ q → Moves l (writer_step a draining l)
    go [] q = rw q (record { text = rw e refl; text_wf = rw e refl; stays = o })
    go (m ∷ ms) q = rw q (record { text = rw e (simp append-nil); text_wf = rw e refl; stays = o })
writer_step-Moves a draining_wf l e o c = go l.log_queue_wf refl
  where
    go : (q : List Bytes) → l.log_queue_wf ≡ q → Moves l (writer_step a draining_wf l)
    go [] q = rw q (record { text = rw e refl; text_wf = rw e refl; stays = o })
    go (m ∷ ms) q = rw q (record { text = rw e refl; text_wf = rw e (simp append-nil); stays = o })
writer_step-Moves a finished l e o c = record { text = refl; text_wf = refl; stays = o }
writer_step-Moves a (writing ss) l e o c = record {
  text = rw (e, o.0) (simp append_assoc);
  text_wf = rw e refl;
  stays = (ground arith, o.1);
}
writer_step-Moves a (writing_wf ss) l e o c = record {
  text = rw e refl;
  text_wf = rw (e, o.1) (simp append_assoc);
  stays = (o.0, ground arith);
}

-- A message goes to the end of its own queue.
record Adds (l l' : XrtcLog) (m : Bytes) (wf : Bool) : Type 0 where
  text : accepted l' ≡ accepted l ++ (if wf then [] else m)
  text_wf : accepted_wf l' ≡ accepted_wf l ++ (if wf then m else [])
  stays : AreOpen l'

on_log_message-Adds :
    (m : Bytes) (severity : LoggingSeverity) (l : XrtcLog)
    → AreOpen l
    → Adds l (on_log_message m severity l) m (at_least_warning severity)
unfolding on_log_message
on_log_message-Adds m severity l o = elim (Bool-cases (at_least_warning severity)) [
  | inl high ↦ rw high (record {
    text = simp append-nil;
    text_wf = simp (append_assoc, flatten-append l.log_queue_wf m);
    stays = o;
  })
  | inr low ↦ rw low (record {
    text = simp (append_assoc, flatten-append l.log_queue m);
    text_wf = simp append-nil;
    stays = o;
  })
]

-- What a first message adds.
told-cons :
    (m : Bytes) (severity : LoggingSeverity) (acts : List Action)
    → let wf = at_least_warning severity in
      ((if wf then [] else m) ++ told acts ≡ told (logs m severity ∷ acts))
      × ((if wf then m else []) ++ told_wf acts ≡ told_wf (logs m severity ∷ acts))
told-cons m severity acts = elim (Bool-cases (at_least_warning severity)) [
  | inl high ↦ rw high (refl, refl)
  | inr low ↦ rw low (refl, refl)
]

added : (x x' y d t u : Bytes) → x' ≡ x ++ d → y ≡ x' ++ t → d ++ t ≡ u → y ≡ x ++ u
added x x' y d t u e e' f = e' ∙ (ap (λ z. z ++ t) e ∙ (append_assoc x d t ∙ ap (λ z. x ++ z) f))

-- In every interleaving of the threads, each stream gets the messages of its severity whole and in
-- the order of the calls, over the files that it writes to one after the other: what was on its way
-- before, and what has been given since, is what was written, what the thread has in hand and what
-- waits, in this order. Both streams are open, and each file that was moved away can be opened anew.
pub run-in_order :
    (acts : List Action) (l : XrtcLog)
    → AreOpen l
    → AllCanOpen acts
    → (accepted (run acts l) ≡ accepted l ++ told acts)
      × (accepted_wf (run acts l) ≡ accepted_wf l ++ told_wf acts)
unfolding run act
run-in_order [] l o c = (simp append-nil, simp append-nil)
run-in_order (logs m severity ∷ acts) l o c =
    let s = on_log_message-Adds m severity l o in
    let r = run-in_order acts (on_log_message m severity l) s.stays c.1 in
    let n = told-cons m severity acts in
    (
      added (accepted l) _ _ _ (told acts) _ s.text r.0 n.0,
      added (accepted_wf l) _ _ _ (told_wf acts) _ s.text_wf r.1 n.1,
    )
run-in_order (writes a ∷ acts) l o c =
    let s = writer_step-Moves a l.writer l refl o c.0 in
    let r = run-in_order acts (writer_step a l.writer l) s.stays c.1 in
    (r.0 ∙ ap (λ x. x ++ told acts) s.text, r.1 ∙ ap (λ x. x ++ told_wf acts) s.text_wf)
run-in_order (stops ∷ acts) l o c = run-in_order acts (record l { running = false }) o c.1
