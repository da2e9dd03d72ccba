-- ===== src/Command.antt =====
-- `main` of consensus/main.py: it loads the path configuration, reads the arguments and runs the
-- driver of the SDK with an engine. argparse and the driver are parameters.
pub mod Exits
use sawtooth_ddpoa.Prelude.{
  ℕ, String, List, Option, none, some, Exn, ok, raise, hang, ◌⊎◌, inl, inr, sdk_configuration_error,
}
use sawtooth_ddpoa.Config.Paths.{PathConfig, Outside, load_path_config}

-- The parsed arguments: `--connect`, `--component` and the number of `-v`.
pub record Options : Type 0 where
  pub connect : String
  pub component : String
  pub verbose : ℕ

-- How a call ends. A `SystemExit` and a `KeyboardInterrupt` are no `Exception`.
pub data End : Type 0 where
  returned : End
  raised : Exn → End
  interrupted : End
  exits : ℕ → End
  never : End

-- `parse` is that of the parser which `parse_args` sets up, or the code of its exit; `run` sets the logs up, makes the driver
-- and starts it.
pub record Program : Type 0 where
  pub os : Outside
  pub argv : List String
  pub parse : List String → ℕ ⊎ Options
  pub run : PathConfig → Options → End

-- The handlers round the driver.
unfoldable pub handle_end : End → End
handle_end returned = returned
handle_end interrupted = returned
handle_end (raised e) = returned
handle_end (exits n) = exits n
handle_end never = never

unfoldable pub start_driver : Program → PathConfig → ℕ ⊎ Options → End
unfolding handle_end
start_driver p path_config (inl n) = exits n
start_driver p path_config (inr opts) = handle_end (p.run path_config opts)

-- The handler names the class of the SDK, which is not the one that `load_path_config` raises.
unfoldable pub handle_config_error : Exn → End
handle_config_error sdk_configuration_error = exits 1
handle_config_error e = raised e

unfoldable pub args_or_argv : Program → Option (List String) → List String
args_or_argv p none = p.argv
args_or_argv p (some args) = args

unfoldable pub main : Program → Option (List String) → End
unfolding start_driver handle_config_error args_or_argv load_path_config
main p args = elim (load_path_config p.os none) [
  | raise e ↦ handle_config_error e
  | hang ↦ never
  | ok path_config ↦ start_driver p path_config (p.parse (args_or_argv p args))
]
