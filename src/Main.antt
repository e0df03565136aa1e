-- ===== src/Main.antt =====
-- xrtc_server/src/main.cpp: the order in which the process is set up. The four global pointers are
-- the fields of `Program`; a loop that is started is a `has_thread` or a `running` here.
pub mod Order
pub mod Unstarted
pub mod Stages
use dcj_rtc.Prelude.{
  ℕ, zero, suc, ℤ, pos, minus_one, eq_ℤ, Bool, true, false, not, ◌||◌, ◌==◌, Bytes, codes, Option,
  none, some, List, [], ◌∷◌, Outcome, ok, fault, ◌>>=◌, if◌then◌else◌,
}
use dcj_rtc.Base.Conf
use dcj_rtc.Base.Conf.{Yaml, Call, returned, thrown, GeneralConf, load_general_conf}
use dcj_rtc.Base.EventLoop.{Libev}
use dcj_rtc.Base.Log.{XrtcLog, MkdirAnswer, new_log}
use dcj_rtc.Base.Log
use dcj_rtc.Base.Socket.Setup.{SocketAnswers}
use dcj_rtc.Rtc.Server
use dcj_rtc.Rtc.Server.{RtcServer, CertificateAnswers}
use dcj_rtc.Rtc.Server.Init
use dcj_rtc.Rtc.Server.Init.{WorkerAnswers}
use dcj_rtc.Signaling.Server.{SignalingServer}
use dcj_rtc.Signaling.Server.Init.{
  SignalingWorkerAnswers, new_server, load_options, init_server, start_server,
}

pub record Program (W : Type 0) : Type 0 where
  pub conf : Option GeneralConf
  pub g_log : Option XrtcLog
  pub log_to_stderr : Bool
  pub signaling_server : Option (SignalingServer W)
  pub rtc_server : Option (RtcServer W)
  -- Whether `process_siganl` handles `SIGINT` and `SIGTERM`.
  pub handles_signals : Bool

abbrev pub new_program : {W : Type 0} → Program W
new_program = record {
  conf = none;
  g_log = none;
  log_to_stderr = false;
  signaling_server = none;
  rtc_server = none;
  handles_signals = false;
}

-- What the system and the other libraries answer while the process is set up.
pub record StartAnswers : Type 0 where
  pub mkdir : MkdirAnswer
  pub opened : Bool
  pub opened_wf : Bool
  pub signaling_fds : Option (ℕ × ℕ)
  pub socket : SocketAnswers
  pub signaling_workers : List SignalingWorkerAnswers
  pub certs : CertificateAnswers
  pub rtc_fds : Option (ℕ × ℕ)
  pub rtc_workers : List WorkerAnswers

-- How `main` goes on: it returns, it waits for the signaling server with everything started, or an
-- exception that nothing catches ends the process.
pub data MainEnd (W : Type 0) : Type 0 where
  exits : ℤ → Program W → MainEnd W
  serves : Program W → MainEnd W
  terminates : MainEnd W

-- The value behind a pointer.
abbrev pub pointee : {A : Type 0} → Option A → Outcome A
pointee none = fault
pointee (some a) = ok a

-- `process_siganl`: whether it asks the signaling server to quit. `SIGINT` is 2, `SIGTERM` is 15.
unfoldable pub process_siganl : {W : Type 0} → (sig : ℕ) → Program W → Outcome Bool
process_siganl sig p =
    if sig == 2 || sig == 15 then (pointee p.signaling_server >>= λ s. ok true) else ok false

module _ {W V : Type 0} (yaml : Yaml V) where
  -- `init_general_conf`
  unfoldable pub init_general_conf : Option Bytes → Program W → Call (ℤ × Program W)
  unfolding load_general_conf
  init_general_conf filename p = elim filename [
    | none ↦ returned (minus_one, p)
    | some name ↦ elim (load_general_conf yaml (some name) (some Conf.new_conf)) [
      | thrown ↦ thrown
      | returned (ret, c) ↦
          let p' = record p { conf = c } in
          if eq_ℤ ret (pos 0) then returned (pos 0, p') else returned (minus_one, p')
    ]
  ]

-- `init_log`, with the directory, the name and the level of the configuration.
unfoldable pub init_log :
    {W : Type 0}
    → StartAnswers
    → (log_dir log_name log_level : Bytes) → Program W
    → Outcome (ℤ × Program W)
unfolding Log.init Log.start
init_log a log_dir log_name log_level p =
    let (ret, l) = Log.init a.mkdir a.opened a.opened_wf (new_log log_dir log_name log_level) in
    let p' = record p { g_log = some l } in
    if not (eq_ℤ ret (pos 0))
    then ok (minus_one, p')
    else pointee p.conf >>= λ c.
        ok (pos 0, record p' { log_to_stderr = c.log_to_stderr; g_log = some (Log.start l).1 })

-- The global pointer and the value returned, after the `init` of a server.
abbrev pub keep_signaling : {W : Type 0} → Program W → ℤ × SignalingServer W → ℤ × Program W
keep_signaling p (ret, s) =
    (if eq_ℤ ret (pos 0) then pos 0 else minus_one, record p { signaling_server = some s })

abbrev pub keep_rtc : {W : Type 0} → Program W → ℤ × RtcServer W → ℤ × Program W
keep_rtc p (ret, s) =
    (if eq_ℤ ret (pos 0) then pos 0 else minus_one, record p { rtc_server = some s })

module _ {W T V : Type 0} (ev : Libev W T) (unreturned : Outcome ℤ) (yaml : Yaml V) where
  -- `init_signaling_server`
  unfoldable pub init_signaling_server : StartAnswers → Program W → Outcome (ℤ × Program W)
  unfolding init_server load_options
  init_signaling_server a p =
      init_server ev unreturned (load_options yaml (codes "../conf/signaling_server.yaml"))
        a.signaling_fds a.socket a.signaling_workers new_server
      >>= λ r. ok (keep_signaling p r)

  -- The number of workers that `RtcServer::init` reads.
  abbrev pub rtc_worker_num : Option ℤ
  rtc_worker_num = elim (yaml.load_file (codes "../conf/rtc_server.yaml")) [
    | none ↦ none
    | some root ↦ yaml.as_int root (codes "worker_num" ∷ [])
  ]

  -- `init_rtc_server`
  unfoldable pub init_rtc_server : StartAnswers → Program W → Outcome (ℤ × Program W)
  unfolding Init.init
  init_rtc_server a p =
      Init.init ev rtc_worker_num a.certs a.rtc_fds a.rtc_workers Server.new_server >>= λ r.
      ok (keep_rtc p r)

  -- `main` after the four initializations, up to the `join`.
  unfoldable pub start_loops : Program W → Outcome (MainEnd W)
  unfolding start_server Server.start
  start_loops p = pointee p.signaling_server >>= λ s. pointee p.rtc_server >>= λ r. ok (
      serves (record p {
        handles_signals = true;
        signaling_server = some (start_server s).1;
        rtc_server = some (Server.start r).1;
      }))

  -- The test of `ret` after each initialization.
  abbrev pub or_exit :
      Outcome (ℤ × Program W) → (Program W → Outcome (MainEnd W)) → Outcome (MainEnd W)
  or_exit run rest = run >>= λ (ret, p). if eq_ℤ ret (pos 0) then rest p else ok (exits minus_one p)

  -- The rest of `main` after each initialization.
  abbrev pub after_signaling : StartAnswers → Program W → Outcome (MainEnd W)
  after_signaling a p = or_exit (init_rtc_server a p) start_loops

  abbrev pub after_log : StartAnswers → Program W → Outcome (MainEnd W)
  after_log a p = or_exit (init_signaling_server a p) (after_signaling a)

  abbrev pub after_conf : StartAnswers → Program W → Outcome (MainEnd W)
  after_conf a p =
      pointee p.conf >>= λ c. or_exit (init_log a c.log_dir c.log_name c.log_level p) (after_log a)

  -- `main`
  unfoldable pub main : StartAnswers → Outcome (MainEnd W)
  unfolding init_general_conf
  main a = elim (init_general_conf {W = W} yaml (some (codes "../conf/general.yaml")) new_program) [
    | thrown ↦ ok terminates
    | returned r ↦ or_exit (ok r) (after_conf a)
  ]
