-- ===== src/Command/Exits.antt =====
-- How `main` of consensus/main.py ends.
use sawtooth_ddpoa.Prelude.{
  ℕ, String, List, Option, none, ◌≡◌, refl, Exn, Outcome, ok, raise, ◌⊎◌, inl, inr,
  configuration_error, decode_error, value_error,
}
use sawtooth_ddpoa.Config.Paths.{PathConfig, Outside, load_path_config}
use sawtooth_ddpoa.Config.Paths.Loading.{
  Loads, no_file, unreadable, no_text, no_toml, unknown_key, loaded, load_path_config_cases,
}
use sawtooth_ddpoa.Command.{
  Program, Options, End, returned, raised, interrupted, exits, never, args_or_argv, start_driver,
  handle_end, handle_config_error, main,
}

-- How a run of the driver ends, and with it the program.
pub data Driven (driver r : End) : Type 0 where
  stopped : driver ≡ returned → r ≡ returned → Driven driver r
  failed : (e : Exn) → driver ≡ raised e → r ≡ returned → Driven driver r
  cancelled : driver ≡ interrupted → r ≡ returned → Driven driver r
  left : (n : ℕ) → driver ≡ exits n → r ≡ exits n → Driven driver r
  endless : driver ≡ never → r ≡ never → Driven driver r

pub data Ends (p : Program) (args : Option (List String)) (r : End) : Type 0 where
  -- The exception leaves `main`: the handler that would exit with 1 is for another class.
  unconfigured :
      (e : Exn)
      → load_path_config p.os none ≡ raise e
      → (e ≡ configuration_error) ⊎ ((e ≡ decode_error) ⊎ (e ≡ value_error))
      → r ≡ raised e
      → Ends p args r
  not_parsed :
      (c : PathConfig) (n : ℕ)
      → load_path_config p.os none ≡ ok c
      → p.parse (args_or_argv p args) ≡ inl n
      → r ≡ exits n
      → Ends p args r
  driven :
      (c : PathConfig) (o : Options)
      → load_path_config p.os none ≡ ok c
      → p.parse (args_or_argv p args) ≡ inr o
      → Driven (p.run c o) r
      → Ends p args r

handle_end-Driven : (d : End) → Driven d (handle_end d)
unfolding handle_end
handle_end-Driven returned = stopped refl refl
handle_end-Driven (raised e) = failed e refl refl
handle_end-Driven interrupted = cancelled refl refl
handle_end-Driven (exits n) = left n refl refl
handle_end-Driven never = endless refl refl

-- Loading the paths gives them or one of three errors.
Loads-cases :
    {os : Outside} {dir : Option String} {file : String} {d : PathConfig} {r : Outcome PathConfig}
    → Loads os dir file d r
    → ((c : PathConfig) × (r ≡ ok c))
      ⊎ ((r ≡ raise configuration_error) ⊎ ((r ≡ raise decode_error) ⊎ (r ≡ raise value_error)))
Loads-cases (no_file f e) = inl (_, e)
Loads-cases (unreadable f g e) = inr (inl e)
Loads-cases (no_text f g e) = inr (inr (inr e))
Loads-cases (no_toml t f g k e) = inr (inr (inl e))
Loads-cases (unknown_key t k f g l v e) = inr (inl e)
Loads-cases (loaded t k c f g l v e a b x y z) = inl (c, e)

module _ (p : Program) (args : Option (List String)) where
  start_driver-Ends :
      (c : PathConfig) → load_path_config p.os none ≡ ok c → Ends p args (main p args)
  unfolding main start_driver
  start_driver-Ends c e = elim (Sum-cases (p.parse (args_or_argv p args))) [
    | inl (n, f) ↦ not_parsed c n e f (rw (e, f, main) refl)
    | inr (o, f) ↦ driven c o e f (rw (e, f, main) (handle_end-Driven (p.run c o)))
  ]
    where
      Sum-cases : (x : ℕ ⊎ Options) → ((n : ℕ) × (x ≡ inl n)) ⊎ ((o : Options) × (x ≡ inr o))
      Sum-cases (inl n) = inl (n, refl)
      Sum-cases (inr o) = inr (o, refl)

  -- A failure to load the paths leaves `main` as the exception that it is, and never as an exit with
  -- 1. Else an exit of the parser of the arguments ends the program, and so does one of the driver; it
  -- returns when the driver returns, raises or is interrupted.
  pub main-Ends : Ends p args (main p args)
  unfolding main handle_config_error
  main-Ends = elim (Loads-cases (load_path_config_cases p.os none).2) [
    | inl (c, e) ↦ start_driver-Ends c e
    | inr (inl e) ↦ unconfigured configuration_error e (inl refl) (rw (e, main) refl)
    | inr (inr (inl e)) ↦ unconfigured decode_error e (inr (inl refl)) (rw (e, main) refl)
    | inr (inr (inr e)) ↦ unconfigured value_error e (inr (inr refl)) (rw (e, main) refl)
  ]
