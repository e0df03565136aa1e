-- ===== src/Main/Order.antt =====
-- What is there when each part of xrtc_server/src/main.cpp starts, and how `main` ends.
use dcj_rtc.Prelude.{
  ℤ, pos, minus_one, eq_ℤ, true, ◌≡◌, refl, codes, none, some, Outcome, ok, Bool-cases, inl, inr,
}
use dcj_rtc.Base.Conf.{Yaml, GeneralConf}
use dcj_rtc.Base.EventLoop.{Libev}
use dcj_rtc.Base.Log.{XrtcLog}
use dcj_rtc.Rtc.Server
use dcj_rtc.Rtc.Server.{RtcServer, CertificateAnswers, check_certificate}
use dcj_rtc.Signaling.Server.{SignalingServer}
use dcj_rtc.Signaling.Server.Init.{start_server}
use dcj_rtc.Main.{
  Program, StartAnswers, MainEnd, exits, serves, terminates, after_signaling, after_log, after_conf,
  start_loops, or_exit, main,
}
use dcj_rtc.Main.Unstarted.{Gives, gives, Gives-next}
use dcj_rtc.Main.Stages.{
  IsQuiet, IsEnough, points, HasConf, HasLog, HasSignaling, HasBoth, Leaves, init_rtc_server-Gives,
  init_signaling_server-Gives, init_log-Gives, init_general_conf-Leaves,
}

-- The configuration is read, the log's thread runs, and both servers are there with their loops.
pub record IsUp {W : Type 0} (p : Program W) : Type 0 where
  pub conf : (c : GeneralConf) × (p.conf ≡ some c)
  pub log : (l : XrtcLog) × (p.g_log ≡ some l) × (l.running ≡ true)
  pub signaling : (s : SignalingServer W) × (p.signaling_server ≡ some s) × (s.has_thread ≡ true)
  pub rtc : (s : RtcServer W) × (p.rtc_server ≡ some s) × (s.has_thread ≡ true)
  pub signals : p.handles_signals ≡ true

module _ {W T V : Type 0} (ev : Libev W T) (n : ℤ) (yaml : Yaml V) where
  -- The end of `main`, or where it waits.
  abbrev pub EndsWell : MainEnd W → Type 0
  EndsWell (exits ret p) = (ret ≡ minus_one) × IsQuiet p
  EndsWell (serves p) = IsUp p
  EndsWell terminates = yaml.load_file (codes "../conf/general.yaml") ≡ none

  or_exit-Gives :
      (P : Program W → Type 0) {run : Outcome (ℤ × Program W)}
      (rest : Program W → Outcome (MainEnd W))
      → Gives (Leaves P) run
      → ((p : Program W) → P p → Gives EndsWell (rest p))
      → Gives EndsWell (or_exit ev (ok n) yaml run rest)
  or_exit-Gives P rest g h = Gives-next (Leaves P) _ g (λ (ret, p) l.
      elim (Bool-cases (eq_ℤ ret (pos 0))) [
        | inl good ↦ rw good (h p (l.1 good))
        | inr bad ↦ rw bad (gives _ refl (refl, l.0))
      ])

  start_loops-Gives : (p : Program W) → HasBoth p → Gives EndsWell (start_loops ev (ok n) yaml p)
  unfolding start_loops start_server Server.start
  start_loops-Gives p b =
      let (s, e, f) = b.server in
      let (r, e', f') = b.rtc in
      rw (start_loops, e, e')
        (gives _ refl (record {
          conf = b.conf;
          log = b.log;
          signaling = (_, refl, rw f refl);
          rtc = (_, refl, rw f' refl);
          signals = refl;
        }))

  after_conf-Gives :
      (a : StartAnswers) (p : Program W)
      → IsEnough ev n yaml a
      → HasConf p
      → Gives EndsWell (after_conf ev (ok n) yaml a p)
  after_conf-Gives a p enough h =
      let (c, e) = h.conf in
      Gives-next (λ c. Unit {0}) _ (points p.conf c e)
        (λ c u.
          or_exit-Gives HasLog (after_log ev (ok n) yaml a)
            (init_log-Gives ev n yaml a c.log_dir c.log_name c.log_level p h)
            (λ p h.
              or_exit-Gives HasSignaling (after_signaling ev (ok n) yaml a)
                (init_signaling_server-Gives ev n yaml a p enough h)
                (λ p h.
                  or_exit-Gives HasBoth (start_loops ev (ok n) yaml)
                    (init_rtc_server-Gives ev n yaml a p enough h) start_loops-Gives)))

  -- The process is set up in order. `main` waits only with the configuration read, the log's thread
  -- running, both servers made and then their loops started, and the signals handled. If it returns
  -- early, it returns -1, with no server's loop started. An exception ends it only if the file of the
  -- general configuration does not load. No null pointer is followed. A worker's `init`, which ends
  -- without `return`, is taken to give some number, and there is an answer for each worker's system
  -- calls.
  pub main-order :
      (a : StartAnswers) → IsEnough ev n yaml a → Gives EndsWell (main ev (ok n) yaml a)
  unfolding main
  main-order a enough = elim (init_general_conf-Leaves ev n yaml (codes "../conf/general.yaml")) [
    | inl (e, missing) ↦ rw (main, e) (gives terminates refl missing)
    | inr (r, e, l) ↦
        rw (main, e)
          (or_exit-Gives HasConf (after_conf ev (ok n) yaml a) (gives r refl l)
            (λ p. after_conf-Gives a p enough))
  ]
