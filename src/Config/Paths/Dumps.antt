-- ===== src/Config/Paths/Dumps.antt =====
-- `to_dict` against `load_toml_path_config` of consensus/pkg/config/path.py: whether a configuration
-- that has been written as TOML can be read.
use mathlib.Core.Option.{join, bind}
use sawtooth_ddpoa.Prelude.{
  String, List, [], ◌∷◌, Option, none, some, true, false, ◌≡◌, refl, ap, subst, ◌∙◌, arith, inl,
  inr, Option-cases, ok, raise, dec_key, contains, configuration_error, if_pos, if_neg,
}
use sawtooth_ddpoa.Prelude.Dict.{get, keys}
use sawtooth_ddpoa.Prelude.Distinct.{Distinct}
use sawtooth_ddpoa.Config.Paths.{
  content, PathConfig, Outside, all_valid, from_table, to_dict, load_toml_path_config,
}

-- `toml.dumps` leaves the entries out that are `None`.
unfoldable pub set_entries : List (String × Option String) → List (String × String)
set_entries [] = []
set_entries ((k, none) ∷ d) = set_entries d
set_entries ((k, some v) ∷ d) = (k, v) ∷ set_entries d

get-set_entries_absent :
    (k : String) (d : List (String × Option String))
    → contains dec_key k (keys d) ≡ false
    → get dec_key k (set_entries d) ≡ none
unfolding contains get set_entries
get-set_entries_absent k [] h = refl
get-set_entries_absent k ((j, none) ∷ d) h = ground (arith, get-set_entries_absent k d)
get-set_entries_absent k ((j, some v) ∷ d) h = ground (arith, get-set_entries_absent k d)

get-set_entries :
    (k : String) (d : List (String × Option String))
    → Distinct dec_key (keys d)
    → get dec_key k (set_entries d) ≡ join (get dec_key k d)
unfolding get set_entries join bind
get-set_entries k [] h = refl
get-set_entries k ((j, none) ∷ d) h = elim (dec_key j k) [
  | yes p ↦
      rw (if_pos _ p)
        (get-set_entries_absent k d (subst (λ i. contains dec_key i (keys d) ≡ false) p h.0))
  | no p ↦ rw (if_neg _ p) (get-set_entries k d h.1)
]
get-set_entries k ((j, some v) ∷ d) h = elim (dec_key j k) [
  | yes p ↦ rw (if_pos _ p, if_pos _ p)
  | no p ↦ rw (if_neg _ p, if_neg _ p) (get-set_entries k d h.1)
]

all_valid-set_entries :
    (d : List (String × Option String))
    → all_valid (keys d) ≡ true
    → all_valid (keys (set_entries d)) ≡ true
unfolding all_valid set_entries
all_valid-set_entries [] h = refl
all_valid-set_entries ((k, none) ∷ d) h = ground (arith, all_valid-set_entries d)
all_valid-set_entries ((k, some v) ∷ d) h = ground (arith, all_valid-set_entries d)

to_dict-Distinct : (c : PathConfig) → Distinct dec_key (keys (to_dict c))
unfolding contains dec_key to_dict
to_dict-Distinct c = (refl, (refl, (refl, (refl, (refl, tt)))))

from_table-to_dict :
    (c : PathConfig) → c.config_dir ≡ none → from_table (set_entries (to_dict c)) ≡ c
unfolding from_table get dec_key to_dict join bind
from_table-to_dict c e =
    let distinct = to_dict-Distinct c in
    let log_dir : get dec_key "log_dir" (set_entries (to_dict c)) ≡ c.log_dir =
      get-set_entries "log_dir" (to_dict c) distinct in
    let data_dir : get dec_key "data_dir" (set_entries (to_dict c)) ≡ c.data_dir =
      get-set_entries "data_dir" (to_dict c) distinct in
    let key_dir : get dec_key "key_dir" (set_entries (to_dict c)) ≡ c.key_dir =
      get-set_entries "key_dir" (to_dict c) distinct in
    let policy_dir : get dec_key "policy_dir" (set_entries (to_dict c)) ≡ c.policy_dir =
      get-set_entries "policy_dir" (to_dict c) distinct in
    ground arith

keys_valid :
    (c : PathConfig) → c.config_dir ≡ none → all_valid (keys (set_entries (to_dict c))) ≡ true
unfolding all_valid to_dict set_entries dec_key
keys_valid c e = rw e (
    all_valid-set_entries
      (("key_dir", c.key_dir)
        ∷ ("data_dir", c.data_dir)
        ∷ ("log_dir", c.log_dir)
        ∷ ("policy_dir", c.policy_dir)
        ∷ [])
      refl)

keys_refused :
    (c : PathConfig) (dir : String)
    → c.config_dir ≡ some dir
    → all_valid (keys (set_entries (to_dict c))) ≡ false
unfolding all_valid to_dict set_entries contains dec_key
keys_refused c dir e = rw e

module _ (os : Outside) (file text : String) (c : PathConfig) where
  -- The text of a file reads as the entries of `to_dict` that are set. Without a directory of the
  -- configuration the file gives the configuration back; with one it is refused.
  pub load-to_dict :
      os.exists file ≡ true
      → os.read file ≡ content text
      → os.loads text ≡ some (set_entries (to_dict c))
      → load_toml_path_config os file
        ≡ elim c.config_dir [ none ↦ ok c | some dir ↦ raise configuration_error ]
  unfolding load_toml_path_config
  load-to_dict found raw table = elim (Option-cases c.config_dir) [
    | inl e ↦
        rw (found, raw, table, keys_valid c e, load_toml_path_config)
          (ap ok (from_table-to_dict c e) ∙ ground arith)
    | inr (dir, e) ↦
        rw (found, raw, table, keys_refused c dir e, load_toml_path_config) (ground arith)
  ]
