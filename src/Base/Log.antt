-- ===== src/Base/Log.antt =====
-- xrtc_server/src/base/log.cpp: messages go into two queues, by their severity, and a thread moves
-- them to two files. `std::ofstream`, `stat` and `mkdir` are of the system: a file here is whether
-- the stream is open and what was written through it, and what the calls answer is an argument.
pub mod Order
pub mod Stop
use dcj_rtc.Prelude.{
  ℕ, ℤ, pos, minus_one, Bool, true, false, ◌||◌, not, Bytes, bytes_eq, codes, List, [], ◌∷◌, ◌++◌,
  leb, ◌==◌, if◌then◌else◌,
}
use mathlib.Core.List.{flatten}

-- `rtc::LoggingSeverity`
pub data LoggingSeverity : Type 0 where
  ls_verbose ls_info ls_warning ls_error ls_none : LoggingSeverity

-- `severity >= rtc::LS_WARNING`
abbrev pub at_least_warning : LoggingSeverity → Bool
at_least_warning ls_verbose = false
at_least_warning ls_info = false
at_least_warning ls_warning = true
at_least_warning ls_error = true
at_least_warning ls_none = true

unfoldable pub get_log_severity : Bytes → LoggingSeverity
get_log_severity level =
    if bytes_eq (codes "verbose") level
    then ls_verbose
    else if bytes_eq (codes "info") level
    then ls_info
    else if bytes_eq (codes "warning") level
    then ls_warning
    else if bytes_eq (codes "error") level
    then ls_error
    else ls_none

-- A `std::ofstream`. While it is not open, `<<` fails and writes nothing.
pub record OutFile : Type 0 where
  pub is_open : Bool
  pub text : Bytes

abbrev pub write : Bytes → OutFile → OutFile
write ss f = if f.is_open then record f { text = f.text ++ ss } else f

-- `close` and `open`: the name may lead to a new file, to which the next text goes. The text of a
-- stream is all that was written to it, over the files that had its name one after the other: a file
-- that was moved away keeps its part.
abbrev pub reopen : (opened : Bool) → OutFile → OutFile
reopen opened f = record f { is_open = opened }

-- Where the thread of `start` is, with the text in its `stringstream`. It holds a lock only
-- inside `draining` and `draining_wf`.
pub data Writer : Type 0 where
  testing checking draining draining_wf finished : Writer
  writing writing_wf : Bytes → Writer

pub record XrtcLog : Type 0 where
  pub log_dir : Bytes
  pub log_name : Bytes
  pub log_level : Bytes
  pub log_file : Bytes
  pub log_file_wf : Bytes
  pub out_file : OutFile
  pub out_file_wf : OutFile
  -- The oldest message first.
  pub log_queue : List Bytes
  pub log_queue_wf : List Bytes
  pub has_thread : Bool
  pub running : Bool
  -- `finished` while there is no thread.
  pub writer : Writer

-- The constructor.
abbrev pub new_log : (log_dir log_name log_level : Bytes) → XrtcLog
new_log log_dir log_name log_level = record {
  log_dir = log_dir;
  log_name = log_name;
  log_level = log_level;
  log_file = log_dir ++ codes "/" ++ log_name ++ codes ".log";
  log_file_wf = log_dir ++ codes "/" ++ log_name ++ codes ".log.wf";
  out_file = record { is_open = false; text = [] };
  out_file_wf = record { is_open = false; text = [] };
  log_queue = [];
  log_queue_wf = [];
  has_thread = false;
  running = false;
  writer = finished;
}

-- `mkdir`: 0, or `errno`. `EEXIST` is 17.
pub data MkdirAnswer : Type 0 where
  made_dir : MkdirAnswer
  mkdir_error : (errno : ℕ) → MkdirAnswer

abbrev pub has_dir : MkdirAnswer → Bool
has_dir made_dir = true
has_dir (mkdir_error errno) = errno == 17

-- `init`, after the calls of `rtc::LogMessage` that add this sink.
unfoldable pub init : MkdirAnswer → (opened opened_wf : Bool) → XrtcLog → ℤ × XrtcLog
init mkdir opened opened_wf l =
    if not (has_dir mkdir)
    then (minus_one, l)
    else (let l' = record l { out_file = reopen opened l.out_file } in
        if not opened
        then (minus_one, l')
        else (let l'' = record l' { out_file_wf = reopen opened_wf l'.out_file_wf } in
            if not opened_wf then (minus_one, l'') else (pos 0, l'')))

-- `start`
unfoldable pub start : XrtcLog → Bool × XrtcLog
start l =
    if l.running
    then (false, l)
    else (true, record l { running = true; has_thread = true; writer = testing })

-- `OnLogMessage`
unfoldable pub on_log_message : Bytes → LoggingSeverity → XrtcLog → XrtcLog
on_log_message message severity l =
    if at_least_warning severity
    then record l { log_queue_wf = l.log_queue_wf ++ (message ∷ []) }
    else record l { log_queue = l.log_queue ++ (message ∷ []) }

-- What `stat` and `open` answer for the two files when the thread checks them.
pub record FileAnswers : Type 0 where
  pub there : Bool
  pub opened : Bool
  pub there_wf : Bool
  pub opened_wf : Bool

-- The thread's next step, up to where it takes or gives back a lock.
unfoldable pub writer_step : FileAnswers → Writer → XrtcLog → XrtcLog
writer_step a testing l = record l { writer = if l.running then checking else finished }
writer_step a checking l = record l {
  out_file = if a.there then l.out_file else reopen a.opened l.out_file;
  out_file_wf = if a.there_wf then l.out_file_wf else reopen a.opened_wf l.out_file_wf;
  writer = draining;
}
writer_step a draining l = elim l.log_queue [
  | [] ↦ record l { writer = draining_wf }
  | m ∷ ms ↦ record l { log_queue = []; writer = writing (flatten (m ∷ ms)) }
]
writer_step a (writing ss) l = record l { out_file = write ss l.out_file; writer = draining_wf }
writer_step a draining_wf l = elim l.log_queue_wf [
  | [] ↦ record l { writer = testing }
  | m ∷ ms ↦ record l { log_queue_wf = []; writer = writing_wf (flatten (m ∷ ms)) }
]
writer_step a (writing_wf ss) l = record l {
  out_file_wf = write ss l.out_file_wf;
  writer = testing;
}
writer_step a finished l = l

-- What any thread does: a call of `OnLogMessage`, a step of the writer, the first statement of `stop`.
pub data Action : Type 0 where
  logs : (message : Bytes) (severity : LoggingSeverity) → Action
  writes : FileAnswers → Action
  stops : Action

unfoldable pub act : Action → XrtcLog → XrtcLog
unfolding on_log_message writer_step
act (logs message severity) l = on_log_message message severity l
act (writes a) l = writer_step a l.writer l
act stops l = record l { running = false }

unfoldable pub run : List Action → XrtcLog → XrtcLog
unfolding act
run [] l = l
run (a ∷ acts) l = run acts (act a l)

-- The rest of `stop`, once the thread can be joined, and the destructor.
unfoldable pub joined : XrtcLog → XrtcLog
joined l = if l.has_thread then record l { has_thread = false } else l

unfoldable pub destroy : XrtcLog → XrtcLog
unfolding joined
destroy l =
    let l' = joined l in
    record l' {
      out_file = record l'.out_file { is_open = false };
      out_file_wf = record l'.out_file_wf { is_open = false };
    }
