-- ===== src/Main/Stages.antt =====
-- What is there after each initialization of xrtc_server/src/main.cpp.
use dcj_rtc.Prelude.{
  ℤ, pos, minus_one, eq_ℤ, to_ℕ, ◌≤◌, length, true, false, not, ◌≡◌, refl, Bytes, codes, Option,
  none, some, ok, arith, Bool-cases, Option-cases, inl, inr, ◌⊎◌,
}
use dcj_rtc.Base.Conf.{
  Yaml, returned, thrown, GeneralConf, default_conf, assign_fields, load_general_conf,
}
use dcj_rtc.Base.EventLoop.{Libev}
use dcj_rtc.Base.Log
use dcj_rtc.Base.Log.{XrtcLog, new_log}
use dcj_rtc.Rtc.Server.{RtcServer}
use dcj_rtc.Signaling.Server.{SignalingServer}
use dcj_rtc.Signaling.Server.Init.{SignalingServerOptions, load_options}
use dcj_rtc.Main.{
  Program, new_program, StartAnswers, pointee, init_general_conf, init_log, init_signaling_server,
  init_rtc_server, rtc_worker_num, keep_rtc, keep_signaling,
}
use dcj_rtc.Main.Unstarted.{
  Gives, gives, Gives-next, Gives-either, Unstarted, init_server-Gives, RtcUnstarted,
  rtc_init-Gives,
}

-- No loop of a server runs, and no signal is handled.
pub record IsQuiet {W : Type 0} (p : Program W) : Type 0 where
  pub signaling : (s : SignalingServer W) → p.signaling_server ≡ some s → s.has_thread ≡ false
  pub rtc : (s : RtcServer W) → p.rtc_server ≡ some s → s.has_thread ≡ false
  pub signals : p.handles_signals ≡ false

start-running : (l : XrtcLog) → (Log.start l).1.running ≡ true
unfolding Log.start
start-running l = ground arith

pub points : {A : Type 0} (p : Option A) (a : A) → p ≡ some a → Gives (λ x. Unit {0}) (pointee p)
points p a e = gives a (rw e refl) tt

-- The lists of answers reach for the workers that the files ask for.
pub record IsEnough {W T V : Type 0} (ev : Libev W T) (n : ℤ) (yaml : Yaml V) (a : StartAnswers)
    : Type 0 where
  pub signaling :
      (o : SignalingServerOptions)
      → load_options yaml (codes "../conf/signaling_server.yaml") ≡ some o
      → to_ℕ o.worker_thread_num ≤ length a.signaling_workers
  pub rtc : (k : ℤ) → rtc_worker_num ev (ok n) yaml ≡ some k → to_ℕ k ≤ length a.rtc_workers

-- How far `main` has come.
pub record HasConf {W : Type 0} (p : Program W) : Type 0 where
  pub conf : (c : GeneralConf) × (p.conf ≡ some c)
  pub quiet : IsQuiet p

pub record HasLog {W : Type 0} (p : Program W) : Type 0 where
  pub conf : (c : GeneralConf) × (p.conf ≡ some c)
  pub log : (l : XrtcLog) × (p.g_log ≡ some l) × (l.running ≡ true)
  pub quiet : IsQuiet p

pub record HasSignaling {W : Type 0} (p : Program W) : Type 0 where
  pub conf : (c : GeneralConf) × (p.conf ≡ some c)
  pub log : (l : XrtcLog) × (p.g_log ≡ some l) × (l.running ≡ true)
  pub server : (s : SignalingServer W) × (p.signaling_server ≡ some s) × (s.has_thread ≡ false)
  pub quiet : IsQuiet p

pub record HasBoth {W : Type 0} (p : Program W) : Type 0 where
  pub conf : (c : GeneralConf) × (p.conf ≡ some c)
  pub log : (l : XrtcLog) × (p.g_log ≡ some l) × (l.running ≡ true)
  pub server : (s : SignalingServer W) × (p.signaling_server ≡ some s) × (s.has_thread ≡ false)
  pub rtc : (s : RtcServer W) × (p.rtc_server ≡ some s) × (s.has_thread ≡ false)

-- What an initialization leaves: with 0 the next stage, else nothing runs.
abbrev pub Leaves : {W : Type 0} → (Program W → Type 0) → ℤ × Program W → Type 0
Leaves P (ret, p) = IsQuiet p × (eq_ℤ ret (pos 0) ≡ true → P p)

module _ {W T V : Type 0} (ev : Libev W T) (n : ℤ) (yaml : Yaml V) where
  pub init_rtc_server-Gives :
      (a : StartAnswers) (p : Program W)
      → IsEnough ev n yaml a
      → HasSignaling p
      → Gives (Leaves HasBoth) (init_rtc_server ev (ok n) yaml a p)
  unfolding init_rtc_server
  init_rtc_server-Gives a p enough h =
      Gives-next (RtcUnstarted ev) (λ r. ok (keep_rtc p r))
        (rtc_init-Gives ev (rtc_worker_num ev (ok n) yaml) a.certs a.rtc_fds a.rtc_workers
          enough.rtc)
        (λ (ret, s) u. gives _ refl (
          record {
            signaling = h.quiet.signaling;
            rtc = λ s' e. let same : s ≡ s' = cc in rw same at u;
            signals = h.quiet.signals;
          },
          λ good. record { conf = h.conf; log = h.log; server = h.server; rtc = (s, refl, u) },
        ))

  pub init_signaling_server-Gives :
      (a : StartAnswers) (p : Program W)
      → IsEnough ev n yaml a
      → HasLog p
      → Gives (Leaves HasSignaling) (init_signaling_server ev (ok n) yaml a p)
  unfolding init_signaling_server
  init_signaling_server-Gives a p enough h =
      Gives-next (Unstarted ev n) (λ r. ok (keep_signaling p r))
        (init_server-Gives ev n (load_options yaml (codes "../conf/signaling_server.yaml"))
          a.signaling_fds a.socket a.signaling_workers enough.signaling)
        (λ (ret, s) u. gives _ refl (
          record {
            signaling = λ s' e. let same : s ≡ s' = cc in rw same at u;
            rtc = h.quiet.rtc;
            signals = h.quiet.signals;
          },
          λ good. record {
            conf = h.conf;
            log = h.log;
            server = (s, refl, u);
            quiet = record {
              signaling = λ s' e. let same : s ≡ s' = cc in rw same at u;
              rtc = h.quiet.rtc;
              signals = h.quiet.signals;
            };
          },
        ))

  pub init_log-Gives :
      (a : StartAnswers) (d m l : Bytes) (p : Program W)
      → HasConf p
      → Gives (Leaves HasLog) (init_log a d m l p)
  unfolding init_log
  init_log-Gives a d m l p h =
      let (c, e) = h.conf in
      let q : IsQuiet
          (record p { g_log = some (Log.init a.mkdir a.opened a.opened_wf (new_log d m l)).1 }) =
        record { signaling = h.quiet.signaling; rtc = h.quiet.rtc; signals = h.quiet.signals } in
      Gives-either (not (eq_ℤ (Log.init a.mkdir a.opened a.opened_wf (new_log d m l)).0 (pos 0)))
        (gives _ refl (q, λ good. absurd cc))
        (Gives-next (λ c. Unit {0}) _ (points p.conf c e)
          (λ c u. gives _ refl (
            record { signaling = h.quiet.signaling; rtc = h.quiet.rtc; signals = h.quiet.signals },
            λ good. record {
              conf = h.conf;
              log = (
                _,
                refl,
                start-running (Log.init a.mkdir a.opened a.opened_wf (new_log d m l)).1,
              );
              quiet = record {
                signaling = h.quiet.signaling;
                rtc = h.quiet.rtc;
                signals = h.quiet.signals;
              };
            },
          )))

  -- The configuration is there after `init_general_conf` returned 0.
  pub init_general_conf-Leaves :
      (name : Bytes)
      → ((init_general_conf {W = W} yaml (some name) new_program ≡ thrown)
          × (yaml.load_file name ≡ none))
        ⊎ ((r : ℤ × Program W) × (init_general_conf yaml (some name) new_program ≡ returned r)
            × Leaves HasConf r)
  unfolding init_general_conf load_general_conf
  init_general_conf-Leaves name = elim (Option-cases (yaml.load_file name)) [
    | inl e ↦ inl (rw (init_general_conf, load_general_conf, e) refl, e)
    | inr (root, e) ↦
        let (ret, c) = assign_fields yaml root default_conf in
        let p : Program W = record new_program { conf = some c } in
        let q : IsQuiet p = record { signaling = λ s h. cc; rtc = λ s h. cc; signals = refl } in
        elim (Bool-cases (eq_ℤ ret (pos 0))) [
          | inl good ↦ inr (
            (pos 0, p),
            rw (init_general_conf, load_general_conf, e, good) refl,
            (q, λ z. record { conf = (c, refl); quiet = q }),
          )
          | inr bad ↦ inr (
            (minus_one, p),
            rw (init_general_conf, load_general_conf, e, bad) refl,
            (q, λ z. absurd cc),
          )
        ]
  ]
