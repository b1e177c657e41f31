-- ===== src/Flags/Gcsfuse/Laws.antt =====
-- Which options reach gcsfuse, and that only the entries of the options matter.
use csi_gcs.Base.{
  String, ◌<>◌, ◌==◌, ◌≡◌, refl, arith, Option, none, some, List, [], ◌∷◌, ◌++◌, split_comma, Dict,
  lookup, insert, lookup-insert, append_assoc, append-nil, sym, ◌∙◌, if◌then◌else◌,
}
use csi_gcs.Flags.Names.{flag_billing_project}
use csi_gcs.Flags.Switches.{flag_name_to_gcsfuse_option}
use csi_gcs.Flags.Gcsfuse.{
  maybe_add_flag, maybe_add_boolean_flag, maybe_add_direct_flag, extra_flags,
}

-- How the value of an option reaches gcsfuse: cut at its commas, as `name=value`, or as a name alone
-- that stands there if the value is "true".
pub data Passing : Type 0 where
  parts : Passing
  assigned switched : String → Passing

-- The options that gcsfuse is given, with the names that gcsfuse has for them.
abbrev pub passed_options : List (String × Passing)
passed_options =
    ("fuseMountOptions", parts)
    ∷ ("dirMode", assigned "dir_mode")
    ∷ ("fileMode", assigned "file_mode")
    ∷ ("uid", assigned "uid")
    ∷ ("gid", assigned "gid")
    ∷ ("implicitDirs", switched "implicit_dirs")
    ∷ ("limitBytesPerSec", assigned "limit_bytes_per_sec")
    ∷ ("limitOpsPerSec", assigned "limit_ops_per_sec")
    ∷ ("statCacheTTL", assigned "stat_cache_ttl")
    ∷ ("typeCacheTTL", assigned "type_cache_ttl")
    ∷ ("maxRetrySleep", assigned "max_retry_sleep")
    ∷ []

-- The arguments of one option that is set to `value`.
pub arguments : Passing → String → List String
arguments parts value = split_comma "" value
arguments (assigned name) value = (name <> ("=" <> value)) ∷ []
arguments (switched name) value = if value == "true" then name ∷ [] else []

contribution : Passing → Option String → List String
contribution passing none = []
contribution passing (some value) = arguments passing value

pub gather : List (String × Passing) → Dict String → List String
gather [] m = []
gather ((option, passing) ∷ rows) m = contribution passing (lookup option m) ++ gather rows m

valued : Dict String → String → List String
valued m flag = elim (lookup flag m) [
  | none ↦ []
  | some value ↦ (flag_name_to_gcsfuse_option flag <> ("=" <> value)) ∷ []
]

maybe_add_flag_lem :
    (r : List String) (m : Dict String) (k : String) → maybe_add_flag r m k ≡ r ++ valued m k
unfolding maybe_add_flag valued
maybe_add_flag_lem r m k = ground (arith, append-nil r)

truthy : Dict String → String → List String
truthy m flag = elim (lookup flag m) [
  | none ↦ []
  | some value ↦ if value == "true" then flag_name_to_gcsfuse_option flag ∷ [] else []
]

maybe_add_boolean_flag_lem :
    (r : List String) (m : Dict String) (k : String)
    → maybe_add_boolean_flag r m k ≡ r ++ truthy m k
unfolding maybe_add_boolean_flag truthy
maybe_add_boolean_flag_lem r m k = ground (arith, append-nil r)

direct : Dict String → String → List String
direct m flag = elim (lookup flag m) [ none ↦ [] | some value ↦ split_comma "" value ]

maybe_add_direct_flag_lem :
    (r : List String) (m : Dict String) (k : String) → maybe_add_direct_flag r m k ≡ r ++ direct m k
unfolding maybe_add_direct_flag direct
maybe_add_direct_flag_lem r m k = ground (arith, append-nil r)

ruleset additions = (
  maybe_add_flag_lem, maybe_add_boolean_flag_lem, maybe_add_direct_flag_lem, append_assoc,
  append-nil,
)

-- gcsfuse is given, one behind the other and in this order: the parts of the option
-- "fuseMountOptions" between its commas, then `dir_mode=`, `file_mode=`, `uid=` and `gid=` with the
-- values of "dirMode", "fileMode", "uid" and "gid", then `implicit_dirs` if "implicitDirs" is "true",
-- then `limit_bytes_per_sec=`, `limit_ops_per_sec=`, `stat_cache_ttl=`, `type_cache_ttl=` and
-- `max_retry_sleep=` with the values of "limitBytesPerSec", "limitOpsPerSec", "statCacheTTL",
-- "typeCacheTTL" and "maxRetrySleep". An option that is not set adds nothing, and nothing else is added.
pub extra_flags-eq-gather : (m : Dict String) → extra_flags m ≡ gather passed_options m
unfolding extra_flags valued truthy direct gather contribution arguments flag_name_to_gcsfuse_option
extra_flags-eq-gather m = simp additions

abbrev pub AgreeOn : List (String × Passing) → Dict String → Dict String → Type 0
AgreeOn [] m n = Unit
AgreeOn ((k, _) ∷ ks) m n = (lookup k m ≡ lookup k n) × AgreeOn ks m n

gather_of_AgreeOn :
    (rows : List (String × Passing)) (m n : Dict String)
    → AgreeOn rows m n
    → gather rows m ≡ gather rows n
unfolding gather
gather_of_AgreeOn [] m n _ = refl
gather_of_AgreeOn ((k, _) ∷ ks) m n (e, h) = rw (e, gather_of_AgreeOn ks m n h)

-- Two maps that agree on the eleven options give gcsfuse the same arguments.
pub extra_flags_of_AgreeOn :
    (m n : Dict String) → AgreeOn passed_options m n → extra_flags m ≡ extra_flags n
extra_flags_of_AgreeOn m n h =
    extra_flags-eq-gather m ∙ gather_of_AgreeOn passed_options m n h ∙ sym (extra_flags-eq-gather n)

-- The billing project is an option of the volume and has a name as an argument of gcsfuse, and yet
-- no billing project ever reaches gcsfuse.
pub extra_flags-insert_billing_project :
    (m : Dict String) (project : String)
    → extra_flags (insert flag_billing_project project m) ≡ extra_flags m
extra_flags-insert_billing_project m project =
    extra_flags_of_AgreeOn (insert flag_billing_project project m) m
      (simp lookup-insert (ground arith))
