-- ===== src/Main/Tests.antt =====
-- The command with two arguments and a variable of the environment.
use csi_gcs.Base.{String, ◌==◌, true, false, none, List, [], ◌∷◌, map, if◌then◌else◌}
use csi_gcs.Flags.FlagSet.{value_flag}
use csi_gcs.World.Laws.Model.{Site}
use csi_gcs.Main.Start.{Process}
use csi_gcs.Main.Start.Arguments.{Argument, node_name_is, delete_orphaned_pods_is, print}

abbrev empty : Site
empty = record {
  bucket = λ n. none;
  exists = λ p. false;
  is_mounted = λ p. false;
  records = [];
  running = λ pod. true;
}

abbrev given : List Argument
given = node_name_is "one" ∷ delete_orphaned_pods_is true ∷ node_name_is "two" ∷ []

-- The verbosity of klog is a text here.
abbrev process : Process String
process = record {
  getenv = λ name. if name == "DRIVER_NAME" then "gcs.example.com" else "";
  args = map print given;
  klog = "0";
  klog_flags = ("v", value_flag (λ text v. (text, true))) ∷ [];
  version = "development";
  driver_version = "";
  runtime = record { version = "go1.15.6"; compiler = "gc"; goos = "linux"; goarch = "amd64" };
  json_text = λ text. text;
}
