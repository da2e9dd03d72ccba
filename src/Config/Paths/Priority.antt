-- ===== src/Config/Paths/Priority.antt =====
-- `merge_path_config` of consensus/pkg/config/path.py: the first configuration has priority.
use mathlib.Core.List.{reverse-cons}
use sawtooth_ddpoa.Prelude.{
  sym, subst, String, List, [], ◌∷◌, ◌++◌, reverse, Option, none, ◌≡◌, refl, arith,
}
use sawtooth_ddpoa.Config.Paths.{
  PathConfig, no_paths, or_keep, override, merge_loop, merge_path_config,
}

-- The first that is set, in the order of the list.
unfoldable pub first_set : (PathConfig → Option String) → List PathConfig → Option String
first_set field [] = none
first_set field (c ∷ cs) = or_keep (field c) (first_set field cs)

-- Each directory as the loop finds it.
abbrev Found : PathConfig → List PathConfig → PathConfig → Type 0
Found c configs acc =
    (c.config_dir ≡ or_keep (first_set (λ p. p.config_dir) configs) acc.config_dir)
    × (c.log_dir ≡ or_keep (first_set (λ p. p.log_dir) configs) acc.log_dir)
    × (c.data_dir ≡ or_keep (first_set (λ p. p.data_dir) configs) acc.data_dir)
    × (c.key_dir ≡ or_keep (first_set (λ p. p.key_dir) configs) acc.key_dir)
    × (c.policy_dir ≡ or_keep (first_set (λ p. p.policy_dir) configs) acc.policy_dir)

first_set-append :
    (field : PathConfig → Option String) (xs ys : List PathConfig)
    → first_set field (xs ++ ys) ≡ or_keep (first_set field xs) (first_set field ys)
unfolding first_set
first_set-append field [] ys = refl
first_set-append field (x ∷ xs) ys = ground (arith, first_set-append field xs ys)

merge_loop-append :
    (xs ys : List PathConfig) (acc : PathConfig)
    → merge_loop (xs ++ ys) acc ≡ merge_loop ys (merge_loop xs acc)
unfolding merge_loop
merge_loop-append [] ys acc = refl
merge_loop-append (x ∷ xs) ys acc = merge_loop-append xs ys (override x acc)

merge_loop-reverse :
    (configs : List PathConfig) (acc : PathConfig)
    → Found (merge_loop (reverse configs) acc) configs acc
unfolding merge_loop first_set override
merge_loop-reverse [] acc = (refl, refl, refl, refl, refl)
merge_loop-reverse (c ∷ cs) acc =
    subst (λ l. Found (merge_loop l acc) (c ∷ cs) acc) (sym (reverse-cons c cs))
      (rw (merge_loop-append (reverse cs) (c ∷ []) acc) (ground (arith, merge_loop-reverse cs acc)))

-- Each directory of the merged configuration is that of the first configuration in the list which
-- sets it, and not set where none does; an override replaces the directory of the configuration.
pub merge_path_config_priority :
    (configs : List PathConfig) (config_dir_override : Option String)
    → let c = merge_path_config configs config_dir_override in
      (c.config_dir ≡ or_keep config_dir_override (first_set (λ p. p.config_dir) configs))
      × (c.log_dir ≡ first_set (λ p. p.log_dir) configs)
      × (c.data_dir ≡ first_set (λ p. p.data_dir) configs)
      × (c.key_dir ≡ first_set (λ p. p.key_dir) configs)
      × (c.policy_dir ≡ first_set (λ p. p.policy_dir) configs)
unfolding merge_path_config
merge_path_config_priority configs config_dir_override =
    ground (arith, merge_loop-reverse configs no_paths)
