-- ===== src/Main/Start.antt =====
-- cmd/main.go: `main`.
pub mod Arguments
pub mod Laws
use csi_gcs.Base.{String, Bool, ◌<>◌, Option, none, List, [], Dict, ℕ, if◌then◌else◌}
use csi_gcs.Go.{Outcome, ok, err}
use csi_gcs.World.{World}
use csi_gcs.Flags.FlagSet.{Formal}
use csi_gcs.Driver.Types.{new_gcs_driver}
use csi_gcs.Driver.Version.{Runtime, get_version_json}
use csi_gcs.Driver.Server.{Network, run}
use csi_gcs.Main.CommandLine.{CommandLine, Parsed, parsed, helped, failed, set_flag, parse_args}
use csi_gcs.Main.Flags.{Variables, declared, own_flags, all_flags, set_env_var_flags}

-- What the command is started with: its environment and its arguments, klog's flags with their
-- variables, the version of cmd/main.go, and what version.go reads of the build.
pub record Process (K : Type 0) : Type 0 where
  pub getenv : String → String
  pub args : List String
  pub klog : K
  pub klog_flags : Dict (Formal K)
  pub version : String
  pub driver_version : String
  pub runtime : Runtime
  pub json_text : String → String

-- `os.Exit` with a code, behind what was printed, or a return from `main`.
pub data Ending : Type 0 where
  exited : ℕ → String → Ending
  returned : Ending

unfoldable pub version_ending : Outcome String → Ending
version_ending (ok json) = exited 0 (json <> "\n")
version_ending (err e) = exited 1 ""

unfoldable pub run_ending : Outcome (Unit {0}) → Ending
run_ending (ok _) = returned
run_ending (err e) = exited 1 ""

module _ (W : World) (net : Network W) {K : Type 0} (p : Process K) where
  -- The command line behind the flags of the environment. There is no flag `alsologtostderr` before
  -- `klog.InitFlags`.
  unfoldable pub from_environment : CommandLine (Variables K)
  from_environment =
      let before : CommandLine (Variables K) =
        set_flag own_flags "alsologtostderr" "true"
          (record { vars = declared p.klog; actual = [] }) in
      set_env_var_flags (all_flags p.klog_flags) p.getenv before

  -- `main` behind `flag.Parse`. `NewGCSDriver` returns no error.
  unfoldable pub start : Variables K → W.State → Ending × W.State
  start v s =
      if v.version
      then (version_ending (get_version_json p.json_text p.driver_version p.runtime), s)
      else let (result, t) =
          run W net
            (new_gcs_driver v.driver_name v.node_name v.endpoint p.version v.delete_orphaned_pods)
            s in
        (run_ending result, t)

  -- A help text ends with 0 since Go 1.15, which the Dockerfile has, and an error with 2.
  abbrev pub parse_ending : Parsed (Variables K) → W.State → Ending × W.State
  parse_ending (parsed v) s = start v s
  parse_ending helped s = (exited 0 "", s)
  parse_ending failed s = (exited 2 "", s)

  unfoldable pub main : W.State → Ending × W.State
  main = parse_ending (parse_args (all_flags p.klog_flags) none p.args from_environment.vars)
