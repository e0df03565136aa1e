-- ===== src/Base/Conf/Exact.antt =====
-- When `load_general_conf` of xrtc_server/src/base/conf.cpp succeeds, and with what.
use dcj_rtc.Prelude.{
  ℤ, pos, Bool, ◌≡◌, ◌↔◌, ap, Bytes, codes, Option, none, some, arith, inl, inr, Option-cases,
}
use dcj_rtc.Base.Conf.{
  Yaml, Call, returned, GeneralConf, default_conf, assign, assign_fields, key, load_general_conf,
}

-- The file's six values are what the configuration has.
pub record IsRead {V : Type 0} (yaml : Yaml V) (root : V) (c : GeneralConf) : Type 0 where
  pub log_dir : yaml.as_string root (key (codes "log") (codes "log_dir")) ≡ some c.log_dir
  pub log_name : yaml.as_string root (key (codes "log") (codes "log_name")) ≡ some c.log_name
  pub log_level : yaml.as_string root (key (codes "log") (codes "log_level")) ≡ some c.log_level
  pub log_to_stderr :
      yaml.as_bool root (key (codes "log") (codes "log_to_stderr")) ≡ some c.log_to_stderr
  pub ice_min_port : yaml.as_int root (key (codes "ice") (codes "min_port")) ≡ some c.ice_min_port
  pub ice_max_port : yaml.as_int root (key (codes "ice") (codes "max_port")) ≡ some c.ice_max_port

-- The chain of assignments, for the values that are read.
all_assigned :
    (dir name level : Option Bytes) (to_stderr : Option Bool) (low high : Option ℤ)
    → GeneralConf
    → ℤ × GeneralConf
unfolding assign
all_assigned dir name level to_stderr low high c =
    assign high (λ v c. record c { ice_max_port = v })
      (assign low (λ v c. record c { ice_min_port = v })
        (assign to_stderr (λ v c. record c { log_to_stderr = v })
          (assign level (λ v c. record c { log_level = v })
            (assign name (λ v c. record c { log_name = v })
              (assign dir (λ v c. record c { log_dir = v }) (pos 0, c))))))

AllThere :
    (dir name level : Option Bytes) (to_stderr : Option Bool) (low high : Option ℤ)
    → GeneralConf
    → Type 0
unfolding all_assigned
AllThere dir name level to_stderr low high c =
    (dir ≡ some c.log_dir)
    × (name ≡ some c.log_name)
    × (level ≡ some c.log_level)
    × (to_stderr ≡ some c.log_to_stderr)
    × (low ≡ some c.ice_min_port)
    × (high ≡ some c.ice_max_port)

all_assigned-AllThere :
    (dir name level : Option Bytes) (to_stderr : Option Bool) (low high : Option ℤ)
    (c0 c : GeneralConf)
    → all_assigned dir name level to_stderr low high c0 ≡ (pos 0, c)
    → AllThere dir name level to_stderr low high c
unfolding all_assigned AllThere
all_assigned-AllThere none name level to_stderr low high c0 c e = absurd (ground arith)
all_assigned-AllThere (some a) none level to_stderr low high c0 c e = absurd (ground arith)
all_assigned-AllThere (some a) (some b) none to_stderr low high c0 c e = absurd (ground arith)
all_assigned-AllThere (some a) (some b) (some l) none low high c0 c e = absurd (ground arith)
all_assigned-AllThere (some a) (some b) (some l) (some t) none high c0 c e = absurd (ground arith)
all_assigned-AllThere (some a) (some b) (some l) (some t) (some x) none c0 c e =
    absurd (ground arith)
all_assigned-AllThere (some a) (some b) (some l) (some t) (some x) (some y) c0 c e = ground arith

AllThere-all_assigned :
    (dir name level : Option Bytes) (to_stderr : Option Bool) (low high : Option ℤ)
    (c0 c : GeneralConf)
    → AllThere dir name level to_stderr low high c
    → all_assigned dir name level to_stderr low high c0 ≡ (pos 0, c)
unfolding all_assigned AllThere
AllThere-all_assigned none name level to_stderr low high c0 c (e, f, g, h, i, j) =
    absurd (ground arith)
AllThere-all_assigned (some a) none level to_stderr low high c0 c (e, f, g, h, i, j) =
    absurd (ground arith)
AllThere-all_assigned (some a) (some b) none to_stderr low high c0 c (e, f, g, h, i, j) =
    absurd (ground arith)
AllThere-all_assigned (some a) (some b) (some l) none low high c0 c (e, f, g, h, i, j) =
    absurd (ground arith)
AllThere-all_assigned (some a) (some b) (some l) (some t) none high c0 c (e, f, g, h, i, j) =
    absurd (ground arith)
AllThere-all_assigned (some a) (some b) (some l) (some t) (some x) none c0 c (e, f, g, h, i, j) =
    absurd (ground arith)
AllThere-all_assigned (some a) (some b) (some l) (some t) (some x) (some y) c0 c
      (e, f, g, h, i, j) =
    ground arith

returned-injective :
    (x y : ℤ × GeneralConf)
    → ◌≡◌ {A = Call (ℤ × Option GeneralConf)} (returned (x.0, some x.1)) (returned (y.0, some y.1))
    → x ≡ y
returned-injective x y e = ground arith

module _ {V : Type 0} (yaml : Yaml V) where
  assign_fields-IsRead :
      (root : V) (c0 c : GeneralConf) → assign_fields yaml root c0 ≡ (pos 0, c) → IsRead yaml root c
  unfolding assign_fields all_assigned AllThere
  assign_fields-IsRead root c0 c e =
      let (dir, name, level, to_stderr, low, high) =
        all_assigned-AllThere (yaml.as_string root (key (codes "log") (codes "log_dir")))
          (yaml.as_string root (key (codes "log") (codes "log_name")))
          (yaml.as_string root (key (codes "log") (codes "log_level")))
          (yaml.as_bool root (key (codes "log") (codes "log_to_stderr")))
          (yaml.as_int root (key (codes "ice") (codes "min_port")))
          (yaml.as_int root (key (codes "ice") (codes "max_port"))) c0 c e in
      record {
        log_dir = dir;
        log_name = name;
        log_level = level;
        log_to_stderr = to_stderr;
        ice_min_port = low;
        ice_max_port = high;
      }

  IsRead-assign_fields :
      (root : V) (c0 c : GeneralConf) → IsRead yaml root c → assign_fields yaml root c0 ≡ (pos 0, c)
  unfolding assign_fields all_assigned AllThere
  IsRead-assign_fields root c0 c r =
      AllThere-all_assigned (yaml.as_string root (key (codes "log") (codes "log_dir")))
        (yaml.as_string root (key (codes "log") (codes "log_name")))
        (yaml.as_string root (key (codes "log") (codes "log_level")))
        (yaml.as_bool root (key (codes "log") (codes "log_to_stderr")))
        (yaml.as_int root (key (codes "ice") (codes "min_port")))
        (yaml.as_int root (key (codes "ice") (codes "max_port"))) c0 c
        (r.log_dir, r.log_name, r.log_level, r.log_to_stderr, r.ice_min_port, r.ice_max_port)

  -- For a file name and a configuration that are there, `load_general_conf` returns 0 with a
  -- configuration exactly when the file loads and its six values convert, and then the configuration
  -- has those values and nothing of what it was before.
  pub load_general_conf-IsRead :
      (name : Bytes) (before c : GeneralConf)
      → (load_general_conf yaml (some name) (some before) ≡ returned (pos 0, some c))
        ↔ ((root : V) × (yaml.load_file name ≡ some root) × IsRead yaml root c)
  unfolding load_general_conf
  load_general_conf-IsRead name before c = (reads, loads)
    where
      no_file :
          load_general_conf yaml (some name) (some before) ≡ returned (pos 0, some c)
          → yaml.load_file name ≡ none
          → ⊥
      no_file e missing = let e' = rw (missing, load_general_conf) at e in cc

      file_read :
          (root : V)
          → load_general_conf yaml (some name) (some before) ≡ returned (pos 0, some c)
          → yaml.load_file name ≡ some root
          → assign_fields yaml root default_conf ≡ (pos 0, c)
      file_read root e found =
          returned-injective (assign_fields yaml root default_conf) (pos 0, c)
            (rw (found, load_general_conf) at e)

      reads :
          load_general_conf yaml (some name) (some before) ≡ returned (pos 0, some c)
          → (root : V) × (yaml.load_file name ≡ some root) × IsRead yaml root c
      reads e = elim (Option-cases (yaml.load_file name)) [
        | inl missing ↦ absurd (no_file e missing)
        | inr (root, found) ↦
            (root, found, assign_fields-IsRead root default_conf c (file_read root e found))
      ]

      loads :
          (root : V) × (yaml.load_file name ≡ some root) × IsRead yaml root c
          → load_general_conf yaml (some name) (some before) ≡ returned (pos 0, some c)
      loads (root, found, r) =
          rw (found, load_general_conf)
            (ap (λ (x : ℤ × GeneralConf). returned (x.0, some x.1))
              (IsRead-assign_fields root default_conf c r))
