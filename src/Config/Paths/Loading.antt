-- ===== src/Config/Paths/Loading.antt =====
-- `load_path_config` of consensus/pkg/config/path.py, on every outcome.
use sawtooth_ddpoa.Prelude.{
  String, List, [], ◌∷◌, Option, none, some, true, false, ◌≡◌, refl, ap, ◌∙◌, arith, inl, inr,
  Bool-cases, Option-cases, Outcome, ok, raise, dec_key, ◌⊎◌, configuration_error, decode_error,
  value_error,
}
use sawtooth_ddpoa.Prelude.Dict.{get, keys}
use sawtooth_ddpoa.Config.Paths.{
  Reading, io_error, undecodable, content, PathConfig, Outside, no_paths, or_keep, all_valid,
  from_table, get_default_path_config, load_toml_path_config, merge_loop, override,
  merge_path_config, load_path_config,
}

-- The outcome `r` of loading the file `file`, where `d` is the default.
pub data Loads (os : Outside) (config_dir : Option String) (file : String) (d : PathConfig)
    (r : Outcome PathConfig) : Type 0 where
  no_file :
      os.exists file ≡ false
      → r ≡ ok (record d { config_dir = or_keep config_dir d.config_dir })
      → Loads os config_dir file d r
  unreadable :
      os.exists file ≡ true
      → os.read file ≡ io_error
      → r ≡ raise configuration_error
      → Loads os config_dir file d r
  no_text :
      os.exists file ≡ true
      → os.read file ≡ undecodable
      → r ≡ raise value_error
      → Loads os config_dir file d r
  no_toml :
      (text : String)
      → os.exists file ≡ true
      → os.read file ≡ content text
      → os.loads text ≡ none
      → r ≡ raise decode_error
      → Loads os config_dir file d r
  unknown_key :
      (text : String) (t : List (String × String))
      → os.exists file ≡ true
      → os.read file ≡ content text
      → os.loads text ≡ some t
      → all_valid (keys t) ≡ false
      → r ≡ raise configuration_error
      → Loads os config_dir file d r
  -- What the file sets replaces the default.
  loaded :
      (text : String) (t : List (String × String)) (c : PathConfig)
      → os.exists file ≡ true
      → os.read file ≡ content text
      → os.loads text ≡ some t
      → all_valid (keys t) ≡ true
      → r ≡ ok c
      → c.config_dir ≡ or_keep config_dir d.config_dir
      → c.log_dir ≡ or_keep (get dec_key "log_dir" t) d.log_dir
      → c.data_dir ≡ or_keep (get dec_key "data_dir" t) d.data_dir
      → c.key_dir ≡ or_keep (get dec_key "key_dir" t) d.key_dir
      → c.policy_dir ≡ or_keep (get dec_key "policy_dir" t) d.policy_dir
      → Loads os config_dir file d r

Reading-cases :
    (x : Reading) → (x ≡ io_error) ⊎ ((x ≡ undecodable) ⊎ ((text : String) × (x ≡ content text)))
Reading-cases io_error = inl refl
Reading-cases undecodable = inr (inl refl)
Reading-cases (content text) = inr (inr (text, refl))

default_has_dir :
    (os : Outside) → (dir : String) × ((get_default_path_config os).config_dir ≡ some dir)
unfolding get_default_path_config
default_has_dir os = elim (Option-cases os.home) [
  | inr (home, e) ↦ (os.join home "etc", ground arith)
  | inl e ↦ elim (Bool-cases os.is_nt) [
    | inl nt ↦ (os.join os.base "conf", ground arith)
    | inr other ↦ ("/etc/sawtooth", ground arith)
  ]
]

config_dir_found :
    (os : Outside) (config_dir : Option String)
    → (dir : String) × (or_keep config_dir (get_default_path_config os).config_dir ≡ some dir)
config_dir_found os none = default_has_dir os
config_dir_found os (some dir) = (dir, refl)

over : (x y : Option String) → or_keep x (or_keep y none) ≡ or_keep x y
over x y = ground arith

default_only :
    (d : PathConfig) (config_dir : Option String)
    → merge_path_config (no_paths ∷ d ∷ []) config_dir
      ≡ record d { config_dir = or_keep config_dir d.config_dir }
unfolding merge_path_config merge_loop override
default_only d config_dir = ground arith

-- The file path.toml is looked for in the directory that is given, else in that of the default. The
-- result is the default without such a file; an error for a file that cannot be read, is no text, is no TOML
-- or has an unknown key; else what the file sets, and the default where it sets nothing.
pub load_path_config_cases :
    (os : Outside) (config_dir : Option String)
    → let d = get_default_path_config os in
      (dir : String) × (or_keep config_dir d.config_dir ≡ some dir)
      × Loads os config_dir (os.join dir "path.toml") d (load_path_config os config_dir)
unfolding load_path_config load_toml_path_config merge_path_config merge_loop override from_table
load_path_config_cases os config_dir =
    let (dir, here) = config_dir_found os config_dir in
    let d = get_default_path_config os in
    let file = os.join dir "path.toml" in
    (
      dir,
      here,
      elim (Bool-cases (os.exists file)) [
        | inr no_such ↦
            let run : load_path_config os config_dir
                ≡ ok (merge_path_config (no_paths ∷ d ∷ []) config_dir) =
              rw (here, no_such, load_path_config) refl in
            no_file no_such (run ∙ ap ok (default_only d config_dir))
        | inl found ↦ elim (Reading-cases (os.read file)) [
          | inl failed ↦ unreadable found failed (rw (here, found, failed, load_path_config) refl)
          | inr (inl garbled) ↦
              no_text found garbled (rw (here, found, garbled, load_path_config) refl)
          | inr (inr (text, raw)) ↦ elim (Option-cases (os.loads text)) [
            | inl bad ↦
                no_toml text found raw bad (rw (here, found, raw, bad, load_path_config) refl)
            | inr (t, table) ↦ elim (Bool-cases (all_valid (keys t))) [
              | inr unknown ↦
                  unknown_key text t found raw table unknown
                    (rw (here, found, raw, table, unknown, load_path_config) refl)
              | inl valid ↦
                  loaded text t (merge_path_config (from_table t ∷ d ∷ []) config_dir) found raw
                    table valid (rw (here, found, raw, table, valid, load_path_config) refl)
                    (ground arith) (over _ d.log_dir) (over _ d.data_dir) (over _ d.key_dir)
                    (over _ d.policy_dir)
            ]
          ]
        ]
      ],
    )
