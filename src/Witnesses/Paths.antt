-- ===== src/Witnesses/Paths.antt =====
-- Inputs for the theorems on consensus/pkg/config/path.py and consensus/main.py.
use sawtooth_ddpoa.Prelude.{
  String, List, [], ◌∷◌, none, some, true, false, ◌≡◌, refl, inl, ok, raise, configuration_error,
}
use sawtooth_ddpoa.Config.Paths.{
  content, PathConfig, Outside, or_keep, no_paths, get_default_path_config, merge_path_config,
  load_path_config, load_toml_path_config, to_dict,
}
use sawtooth_ddpoa.Config.Paths.Dumps.{set_entries, load-to_dict}
use sawtooth_ddpoa.Command.{Program, returned, main}
use sawtooth_ddpoa.Command.Exits.{Ends, main-Ends}
use sawtooth_ddpoa.Config.Paths.Priority.{first_set, merge_path_config_priority}
use sawtooth_ddpoa.Config.Paths.Loading.{Loads, load_path_config_cases}

abbrev linux : Outside
linux = record {
  home = none;
  is_nt = false;
  base = "/usr";
  join = λ dir name. dir;
  exists = λ name. true;
  read = λ name. content "";
  loads = λ text. some (("data_dir", "/data") ∷ []);
}

abbrev data_only : PathConfig
data_only = record no_paths { data_dir = some "/data" }

abbrev both : List PathConfig
both = data_only ∷ get_default_path_config linux ∷ []

priority_example :
    let c = merge_path_config both (some "/conf") in
    (c.config_dir ≡ or_keep (some "/conf") (first_set (λ p. p.config_dir) both))
    × (c.log_dir ≡ first_set (λ p. p.log_dir) both)
    × (c.data_dir ≡ first_set (λ p. p.data_dir) both)
    × (c.key_dir ≡ first_set (λ p. p.key_dir) both)
    × (c.policy_dir ≡ first_set (λ p. p.policy_dir) both)
priority_example = merge_path_config_priority both (some "/conf")

loading_example :
    let d = get_default_path_config linux in
    (dir : String) × (or_keep none d.config_dir ≡ some dir)
    × Loads linux none (linux.join dir "path.toml") d (load_path_config linux none)
loading_example = load_path_config_cases linux none

abbrev dumped : Outside
dumped = record linux { loads = λ text. some (set_entries (to_dict data_only)) }

dump_example :
    load_toml_path_config dumped "path.toml"
    ≡ elim data_only.config_dir [ none ↦ ok data_only | some dir ↦ raise configuration_error ]
dump_example = load-to_dict dumped "path.toml" "" data_only refl refl refl

abbrev broken : Program
broken = record {
  os = record linux { loads = λ text. none };
  argv = [];
  parse = λ args. inl 2;
  run = λ paths options. returned;
}

exit_example : Ends broken none (main broken none)
exit_example = main-Ends broken none
