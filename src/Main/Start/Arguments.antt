-- ===== src/Main/Start/Arguments.antt =====
-- The command's own flags as arguments in the form `--name=value`, and what `Parse` makes of them.
use csi_gcs.Base.{
  String, Bool, true, false, ◌≡◌, refl, ◌∙◌, Option, none, some, List, [], ◌∷◌, map, Dict, lookup,
  if◌then◌else◌,
}
use csi_gcs.Flags.FlagSet.{Formal, read_arg, read_name, split_equals, set_formal, parse_bool}
use csi_gcs.Main.CommandLine.{parsed, parse_args}
use csi_gcs.Main.Flags.{Variables, own_flags, all_flags}

pub data Argument : Type 0 where
  node_name_is driver_name_is csi_endpoint_is : String → Argument
  version_is delete_orphaned_pods_is : Bool → Argument

abbrev pub bool_text : Bool → String
bool_text b = if b then "true" else "false"

-- A text behind another.
prefixed : String → String → String
prefixed String.[] t = t
prefixed (String.◌∷◌ c s) t = String.◌∷◌ c (prefixed s t)

pub print : Argument → String
print (node_name_is text) = prefixed "--node-name=" text
print (driver_name_is text) = prefixed "--driver-name=" text
print (csi_endpoint_is text) = prefixed "--csi-endpoint=" text
print (version_is b) = prefixed "--version=" (bool_text b)
print (delete_orphaned_pods_is b) = prefixed "--delete-orphaned-pods=" (bool_text b)

-- What an argument gives to one of the flags.
abbrev pub node_name_of : Argument → Option String
node_name_of (node_name_is text) = some text
node_name_of _ = none

abbrev pub driver_name_of : Argument → Option String
driver_name_of (driver_name_is text) = some text
driver_name_of _ = none

abbrev pub csi_endpoint_of : Argument → Option String
csi_endpoint_of (csi_endpoint_is text) = some text
csi_endpoint_of _ = none

abbrev pub version_of : Argument → Option Bool
version_of (version_is b) = some b
version_of _ = none

abbrev pub delete_orphaned_pods_of : Argument → Option Bool
delete_orphaned_pods_of (delete_orphaned_pods_is b) = some b
delete_orphaned_pods_of _ = none

-- The last value that the arguments give, or the one from before.
abbrev pub last_given {ℓ} : {X : Type ℓ} → (Argument → Option X) → List Argument → X → X
last_given pick [] x = x
last_given pick (a ∷ given) x = elim (pick a) [
  | none ↦ last_given pick given x
  | some y ↦ last_given pick given y
]

module _ {K : Type 0} where
  abbrev pub apply : Argument → Variables K → Variables K
  apply (node_name_is text) v = record v { node_name = text }
  apply (driver_name_is text) v = record v { driver_name = text }
  apply (csi_endpoint_is text) v = record v { endpoint = text }
  apply (version_is b) v = record v { version = b }
  apply (delete_orphaned_pods_is b) v = record v { delete_orphaned_pods = b }

  abbrev pub apply_all : List Argument → Variables K → Variables K
  apply_all [] v = v
  apply_all (a ∷ given) v = apply_all given (apply a v)

  -- What the variables hold behind the arguments.
  pub record Given (given : List Argument) (before after : Variables K) : Type 0 where
    pub node_name : after.node_name ≡ last_given node_name_of given before.node_name
    pub driver_name : after.driver_name ≡ last_given driver_name_of given before.driver_name
    pub endpoint : after.endpoint ≡ last_given csi_endpoint_of given before.endpoint
    pub version : after.version ≡ last_given version_of given before.version
    pub delete_orphaned_pods :
        after.delete_orphaned_pods
        ≡ last_given delete_orphaned_pods_of given before.delete_orphaned_pods

  Given-cons :
      (a : Argument) {given : List Argument} (v : Variables K) {w : Variables K}
      → Given given (apply a v) w
      → Given (a ∷ given) v w
  Given-cons (node_name_is text) v g = record {
    node_name = g.node_name;
    driver_name = g.driver_name;
    endpoint = g.endpoint;
    version = g.version;
    delete_orphaned_pods = g.delete_orphaned_pods;
  }
  Given-cons (driver_name_is text) v g = record {
    node_name = g.node_name;
    driver_name = g.driver_name;
    endpoint = g.endpoint;
    version = g.version;
    delete_orphaned_pods = g.delete_orphaned_pods;
  }
  Given-cons (csi_endpoint_is text) v g = record {
    node_name = g.node_name;
    driver_name = g.driver_name;
    endpoint = g.endpoint;
    version = g.version;
    delete_orphaned_pods = g.delete_orphaned_pods;
  }
  Given-cons (version_is b) v g = record {
    node_name = g.node_name;
    driver_name = g.driver_name;
    endpoint = g.endpoint;
    version = g.version;
    delete_orphaned_pods = g.delete_orphaned_pods;
  }
  Given-cons (delete_orphaned_pods_is b) v g = record {
    node_name = g.node_name;
    driver_name = g.driver_name;
    endpoint = g.endpoint;
    version = g.version;
    delete_orphaned_pods = g.delete_orphaned_pods;
  }

  pub apply_all-Given :
      (given : List Argument) (v : Variables K) → Given given v (apply_all given v)
  apply_all-Given [] v = record {
    node_name = refl;
    driver_name = refl;
    endpoint = refl;
    version = refl;
    delete_orphaned_pods = refl;
  }
  apply_all-Given (a ∷ given) v = Given-cons a v (apply_all-Given given (apply a v))

  parse_printed :
      (klog_flags : Dict (Formal K)) (a : Argument) (args : List String) (v : Variables K)
      → parse_args (all_flags klog_flags) none (print a ∷ args) v
        ≡ parse_args (all_flags klog_flags) none args (apply a v)
  unfolding parse_args read_arg read_name split_equals set_formal parse_bool own_flags lookup print
      prefixed
  parse_printed klog_flags (node_name_is text) args v = refl
  parse_printed klog_flags (driver_name_is text) args v = refl
  parse_printed klog_flags (csi_endpoint_is text) args v = refl
  parse_printed klog_flags (version_is true) args v = refl
  parse_printed klog_flags (version_is false) args v = refl
  parse_printed klog_flags (delete_orphaned_pods_is true) args v = refl
  parse_printed klog_flags (delete_orphaned_pods_is false) args v = refl

  pub parse_args-print :
      (klog_flags : Dict (Formal K)) (given : List Argument) (v : Variables K)
      → parse_args (all_flags klog_flags) none (map print given) v ≡ parsed (apply_all given v)
  parse_args-print klog_flags [] v = unfold parse_args in refl
  parse_args-print klog_flags (a ∷ given) v =
      parse_printed klog_flags a (map print given) v ∙ parse_args-print klog_flags given (apply a v)
