-- ===== src/Base/Conf.antt =====
-- xrtc_server/src/base/conf.h and conf.cpp: the general configuration. yaml-cpp is not part of the
-- repository: what the code uses of it is a parameter.
pub mod Exact
use dcj_rtc.Prelude.{
  ℤ, pos, minus_one, eq_ℤ, Bool, false, Bytes, codes, Option, none, some, List, [], ◌∷◌,
  if◌then◌else◌,
}

-- `LoadFile`, and `as<T>()` of the node that the keys lead to. `none` is a thrown
-- `YAML::Exception`.
pub record Yaml (V : Type 0) : Type 0 where
  pub load_file : Bytes → Option V
  pub as_string : V → (keys : List Bytes) → Option Bytes
  pub as_bool : V → (keys : List Bytes) → Option Bool
  pub as_int : V → (keys : List Bytes) → Option ℤ

-- A call that returns, or that an exception leaves.
pub data Call (A : Type 0) : Type 0 where
  returned : A → Call A
  thrown : Call A

pub record GeneralConf : Type 0 where
  pub log_dir : Bytes
  pub log_name : Bytes
  pub log_level : Bytes
  pub log_to_stderr : Bool
  pub ice_min_port : ℤ
  pub ice_max_port : ℤ

abbrev pub default_conf : GeneralConf
default_conf = record {
  log_dir = codes "./log";
  log_name = codes "undefined";
  log_level = codes "info";
  log_to_stderr = false;
  ice_min_port = pos 0;
  ice_max_port = pos 65535;
}

-- `new GeneralConf()`: the parentheses set every member to its zero.
abbrev pub new_conf : GeneralConf
new_conf = record {
  log_dir = [];
  log_name = [];
  log_level = [];
  log_to_stderr = false;
  ice_min_port = pos 0;
  ice_max_port = pos 0;
}

-- One assignment of the `try` block: an exception leaves it with what was assigned so far.
unfoldable pub assign :
    {A : Type 0} → Option A → (A → GeneralConf → GeneralConf) → ℤ × GeneralConf → ℤ × GeneralConf
assign value put (ret, c) =
    if eq_ℤ ret (pos 0)
    then elim value [ none ↦ (minus_one, c) | some v ↦ (pos 0, put v c) ]
    else (ret, c)

abbrev pub key : (section name : Bytes) → List Bytes
key section name = section ∷ name ∷ []

module _ {V : Type 0} (yaml : Yaml V) where
  -- The `try` block.
  unfoldable pub assign_fields : V → GeneralConf → ℤ × GeneralConf
  unfolding assign
  assign_fields root c =
      let log = codes "log" in
      let ice = codes "ice" in
      let c1 =
        assign (yaml.as_string root (key log (codes "log_dir"))) (λ v c. record c { log_dir = v })
          (pos 0, c) in
      let c2 =
        assign (yaml.as_string root (key log (codes "log_name"))) (λ v c. record c { log_name = v })
          c1 in
      let c3 =
        assign (yaml.as_string root (key log (codes "log_level")))
          (λ v c. record c { log_level = v }) c2 in
      let c4 =
        assign (yaml.as_bool root (key log (codes "log_to_stderr")))
          (λ v c. record c { log_to_stderr = v }) c3 in
      let c5 =
        assign (yaml.as_int root (key ice (codes "min_port")))
          (λ v c. record c { ice_min_port = v }) c4 in
      assign (yaml.as_int root (key ice (codes "max_port"))) (λ v c. record c { ice_max_port = v })
        c5

  -- `load_general_conf`; `none` is a null pointer. `LoadFile` stands in front of the `try` block.
  unfoldable pub load_general_conf :
      (filename : Option Bytes) (conf : Option GeneralConf) → Call (ℤ × Option GeneralConf)
  unfolding assign_fields
  load_general_conf filename conf = elim filename [
    | none ↦ returned (minus_one, conf)
    | some name ↦ elim conf [
      | none ↦ returned (minus_one, none)
      | some c ↦ elim (yaml.load_file name) [
        | none ↦ thrown
        | some root ↦ let (ret, c') = assign_fields root default_conf in returned (ret, some c')
      ]
    ]
  ]
