-- ===== src/Config/Paths.antt =====
-- consensus/pkg/config/path.py: where the files of a validator lie. The file system, the environment,
-- `os.path.join` and the library toml are parameters.
pub mod Priority
pub mod Loading
pub mod Dumps
use sawtooth_ddpoa.Prelude.{
  String, List, [], ◌∷◌, reverse, Option, none, some, Bool, true, contains, dec_key, Outcome, ok,
  raise, hang, configuration_error, decode_error, value_error, type_error, if◌then◌else◌, ◌&&◌,
}
use sawtooth_ddpoa.Prelude.Dict.{get, keys}

-- A directory that is `None` is not configured.
pub record PathConfig : Type 0 where
  pub config_dir : Option String
  pub log_dir : Option String
  pub data_dir : Option String
  pub key_dir : Option String
  pub policy_dir : Option String

abbrev pub no_paths : PathConfig
no_paths = record {
  config_dir = none;
  log_dir = none;
  data_dir = none;
  key_dir = none;
  policy_dir = none;
}

-- What reading a file comes to: an `IOError`, a `UnicodeDecodeError`, which is a `ValueError`, or a text.
pub data Reading : Type 0 where
  io_error undecodable : Reading
  content : String → Reading

-- What the process finds outside. `home` is the variable SAWTOOTH_HOME, `is_nt` says that the system is
-- Windows, and `base` is the folder above that of the program. `loads` gives
-- `none` where the text is no TOML; the values are texts.
pub record Outside : Type 0 where
  pub home : Option String
  pub is_nt : Bool
  pub base : String
  pub join : String → String → String
  pub exists : String → Bool
  pub read : String → Reading
  pub loads : String → Option (List (String × String))

abbrev pub valid_keys : List String
valid_keys = "data_dir" ∷ "key_dir" ∷ "log_dir" ∷ "policy_dir" ∷ []

unfoldable pub all_valid : List String → Bool
unfolding contains
all_valid [] = true
all_valid (k ∷ ks) = contains dec_key k valid_keys && all_valid ks

unfoldable pub from_table : List (String × String) → PathConfig
unfolding get
from_table t = record {
  config_dir = none;
  log_dir = get dec_key "log_dir" t;
  data_dir = get dec_key "data_dir" t;
  key_dir = get dec_key "key_dir" t;
  policy_dir = get dec_key "policy_dir" t;
}

unfoldable pub to_dict : PathConfig → List (String × Option String)
to_dict c =
    ("config_dir", c.config_dir)
    ∷ ("key_dir", c.key_dir)
    ∷ ("data_dir", c.data_dir)
    ∷ ("log_dir", c.log_dir)
    ∷ ("policy_dir", c.policy_dir)
    ∷ []

module _ (os : Outside) where
  under_home : String → PathConfig
  under_home home = record {
    config_dir = some (os.join home "etc");
    log_dir = some (os.join home "logs");
    data_dir = some (os.join home "data");
    key_dir = some (os.join home "keys");
    policy_dir = none;
  }

  on_windows : PathConfig
  on_windows = record {
    config_dir = some (os.join os.base "conf");
    log_dir = some (os.join os.base "logs");
    data_dir = some (os.join os.base "data");
    key_dir = some (os.join (os.join os.base "conf") "keys");
    policy_dir = some (os.join os.base "policy");
  }

  on_linux : PathConfig
  on_linux = record {
    config_dir = some "/etc/sawtooth";
    log_dir = some "/var/log/sawtooth";
    data_dir = some "/var/lib/sawtooth";
    key_dir = some "/etc/sawtooth/keys";
    policy_dir = some "/etc/sawtooth/policy";
  }

  unfoldable pub get_default_path_config : PathConfig
  unfolding under_home on_windows on_linux
  get_default_path_config = elim os.home [
    | some home ↦ under_home home
    | none ↦ if os.is_nt then on_windows else on_linux
  ]

  unfoldable pub load_toml_path_config : String → Outcome PathConfig
  unfolding all_valid from_table
  load_toml_path_config filename =
      if os.exists filename
      then elim (os.read filename) [
        | io_error ↦ raise configuration_error
        | undecodable ↦ raise value_error
        | content raw_config ↦ elim (os.loads raw_config) [
          | none ↦ raise decode_error
          | some toml_config ↦
              if all_valid (keys toml_config)
              then ok (from_table toml_config)
              else raise configuration_error
        ]
      ]
      else ok no_paths

abbrev pub or_keep : Option String → Option String → Option String
or_keep none old = old
or_keep (some new) old = some new

-- One round of the loop: what `config` sets replaces what was set before.
unfoldable pub override : PathConfig → PathConfig → PathConfig
override config acc = record {
  config_dir = or_keep config.config_dir acc.config_dir;
  log_dir = or_keep config.log_dir acc.log_dir;
  data_dir = or_keep config.data_dir acc.data_dir;
  key_dir = or_keep config.key_dir acc.key_dir;
  policy_dir = or_keep config.policy_dir acc.policy_dir;
}

unfoldable pub merge_loop : List PathConfig → PathConfig → PathConfig
unfolding override
merge_loop [] acc = acc
merge_loop (config ∷ configs) acc = merge_loop configs (override config acc)

unfoldable pub merge_path_config : List PathConfig → Option String → PathConfig
unfolding merge_loop
merge_path_config configs config_dir_override =
    let merged = merge_loop (reverse configs) no_paths in
    record merged { config_dir = or_keep config_dir_override merged.config_dir }

module _ (os : Outside) where
  merge_loaded : Option String → Outcome PathConfig → Outcome PathConfig
  unfolding merge_path_config get_default_path_config
  merge_loaded config_dir (ok toml_config) =
      ok (merge_path_config (toml_config ∷ get_default_path_config os ∷ []) config_dir)
  merge_loaded config_dir (raise e) = raise e
  merge_loaded config_dir hang = hang

  -- `os.path.join` of a `None` raises.
  unfoldable pub load_path_config : Option String → Outcome PathConfig
  unfolding get_default_path_config load_toml_path_config merge_loaded
  load_path_config config_dir = elim (or_keep config_dir (get_default_path_config os).config_dir) [
    | none ↦ raise type_error
    | some dir ↦ merge_loaded config_dir (load_toml_path_config os (os.join dir "path.toml"))
  ]
