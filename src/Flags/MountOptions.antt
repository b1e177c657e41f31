-- ===== src/Flags/MountOptions.antt =====
-- pkg/flags/flags.go: `MergeMountOptions`. Its local variables are the fields of `Vars`, its calls of
-- `args.Var` and the like are the rows of `formal`, and its last sixteen tests are `settings`.
pub mod Laws
pub mod Given
use csi_gcs.Base.{
  ℕ, String, ◌<>◌, Bool, true, false, ◌==◌, Option, none, some, List, [], ◌∷◌, ◌++◌, ℤ, pos, negsuc,
  ◌=ℤ◌, join, Dict, insert, if◌then◌else◌,
}
use csi_gcs.Strconv.{NumError, format_int, parse_int}
use csi_gcs.Flags.Names.{flag_bucket, flag_project_id, flag_kms_key_id}
use csi_gcs.Flags.Names.{flag_location, flag_fuse_mount_option, flag_dir_mode}
use csi_gcs.Flags.Names.{flag_file_mode, flag_uid, flag_gid}
use csi_gcs.Flags.Names.{flag_implicit_dirs, flag_billing_project, flag_limit_bytes_per_sec}
use csi_gcs.Flags.Names.{flag_limit_ops_per_sec, flag_stat_cache_ttl, flag_type_cache_ttl}
use csi_gcs.Flags.Names.{flag_max_retry_sleep, mount_option_bucket, mount_option_project_id}
use csi_gcs.Flags.Names.{
  mount_option_kms_key_id, mount_option_location, mount_option_fuse_mount_option,
}
use csi_gcs.Flags.Names.{mount_option_dir_mode, mount_option_file_mode, mount_option_uid}
use csi_gcs.Flags.Names.{mount_option_gid, mount_option_implicit_dirs, mount_option_billing_project}
use csi_gcs.Flags.Names.{
  mount_option_limit_bytes_per_sec, mount_option_limit_ops_per_sec, mount_option_stat_cache_ttl,
}
use csi_gcs.Flags.Names.{mount_option_type_cache_ttl, mount_option_max_retry_sleep}
use csi_gcs.Flags.FlagSet.{Formal, bool_flag, value_flag, parse}

pub record Vars : Type 0 where
  pub bucket : String
  pub project_id : String
  pub kms_key_id : String
  pub location : String
  pub fuse_mount_options : List String
  pub dir_mode : ℤ
  pub file_mode : ℤ
  pub uid : ℤ
  pub gid : ℤ
  pub implicit_dirs : Bool
  pub billing_project : String
  pub limit_bytes_per_sec : ℤ
  pub limit_ops_per_sec : ℤ
  pub stat_cache_ttl : String
  pub type_cache_ttl : String
  pub max_retry_sleep_min : ℤ

abbrev pub defaults : Vars
defaults = record {
  bucket = "";
  project_id = "";
  kms_key_id = "";
  location = "";
  fuse_mount_options = [];
  dir_mode = negsuc 0;
  file_mode = negsuc 0;
  uid = negsuc 0;
  gid = negsuc 0;
  implicit_dirs = false;
  billing_project = "";
  limit_bytes_per_sec = negsuc 0;
  limit_ops_per_sec = negsuc 0;
  stat_cache_ttl = "";
  type_cache_ttl = "";
  max_retry_sleep_min = negsuc 0;
}

abbrev no_error : Option NumError → Bool
no_error none = true
no_error (some e) = false

-- `StringVar`
abbrev string_var : (String → Vars → Vars) → Formal Vars
string_var set = value_flag (λ text v. (set text v, true))

-- The `Set` of a number assigns the number that `ParseInt` returns beside an error too. `Int64Var`
-- reads with base 0, and `octalInt.Set` with base 8.
number_set : ℕ → (ℤ → Vars → Vars) → String → Vars → Vars × Bool
number_set base set text v = let (n, e) = parse_int text base in (set n v, no_error e)

abbrev number_var : ℕ → (ℤ → Vars → Vars) → Formal Vars
number_var base set = value_flag (number_set base set)

unfoldable pub formal : String → Option (Formal Vars)
unfolding number_set
formal name =
    if name == mount_option_bucket
    then some (string_var (λ x v. record v { bucket = x }))
    else if name == mount_option_project_id
    then some (string_var (λ x v. record v { project_id = x }))
    else if name == mount_option_kms_key_id
    then some (string_var (λ x v. record v { kms_key_id = x }))
    else if name == mount_option_location
    then some (string_var (λ x v. record v { location = x }))
    else if name == mount_option_fuse_mount_option
    then some
        (string_var (λ x v. record v { fuse_mount_options = v.fuse_mount_options ++ (x ∷ []) }))
    else if name == mount_option_dir_mode
    then some (number_var 8 (λ x v. record v { dir_mode = x }))
    else if name == mount_option_file_mode
    then some (number_var 8 (λ x v. record v { file_mode = x }))
    else if name == mount_option_uid
    then some (number_var 0 (λ x v. record v { uid = x }))
    else if name == mount_option_gid
    then some (number_var 0 (λ x v. record v { gid = x }))
    else if name == mount_option_implicit_dirs
    then some (bool_flag (λ x v. record v { implicit_dirs = x }))
    else if name == mount_option_billing_project
    then some (string_var (λ x v. record v { billing_project = x }))
    else if name == mount_option_limit_bytes_per_sec
    then some (number_var 0 (λ x v. record v { limit_bytes_per_sec = x }))
    else if name == mount_option_limit_ops_per_sec
    then some (number_var 0 (λ x v. record v { limit_ops_per_sec = x }))
    else if name == mount_option_stat_cache_ttl
    then some (string_var (λ x v. record v { stat_cache_ttl = x }))
    else if name == mount_option_type_cache_ttl
    then some (string_var (λ x v. record v { type_cache_ttl = x }))
    else if name == mount_option_max_retry_sleep
    then some (number_var 0 (λ x v. record v { max_retry_sleep_min = x }))
    else none

-- The tests behind the parse: a variable with its first value sets nothing.
text_setting : String → Option String
text_setting x = if x == "" then none else some x

list_setting : List String → Option String
list_setting [] = none
list_setting (x ∷ xs) = some (join (x ∷ xs) ",")

mode_setting : ℤ → Option String
mode_setting x = if x =ℤ negsuc 0 then none else some ("0" <> format_int x 8)

number_setting : ℤ → Option String
number_setting x = if x =ℤ negsuc 0 then none else some (format_int x 10)

bool_setting : Bool → Option String
bool_setting x = if x then some "true" else none

unfoldable pub settings : Vars → Dict (Option String)
unfolding text_setting list_setting mode_setting number_setting bool_setting
settings v =
    (flag_bucket, text_setting v.bucket)
    ∷ (flag_project_id, text_setting v.project_id)
    ∷ (flag_kms_key_id, text_setting v.kms_key_id)
    ∷ (flag_location, text_setting v.location)
    ∷ (flag_fuse_mount_option, list_setting v.fuse_mount_options)
    ∷ (flag_dir_mode, mode_setting v.dir_mode)
    ∷ (flag_file_mode, mode_setting v.file_mode)
    ∷ (flag_uid, number_setting v.uid)
    ∷ (flag_gid, number_setting v.gid)
    ∷ (flag_implicit_dirs, bool_setting v.implicit_dirs)
    ∷ (flag_billing_project, text_setting v.billing_project)
    ∷ (flag_limit_bytes_per_sec, number_setting v.limit_bytes_per_sec)
    ∷ (flag_limit_ops_per_sec, number_setting v.limit_ops_per_sec)
    ∷ (flag_stat_cache_ttl, text_setting v.stat_cache_ttl)
    ∷ (flag_type_cache_ttl, text_setting v.type_cache_ttl)
    ∷ (flag_max_retry_sleep, number_setting v.max_retry_sleep_min)
    ∷ []

-- `if test { result[flag] = value }`
put : String → Option String → Dict String → Dict String
put flag none result = result
put flag (some value) result = insert flag value result

unfoldable pub put_settings : Dict String → Dict (Option String) → Dict String
unfolding put
put_settings result [] = result
put_settings result ((flag, value) ∷ rows) = put_settings (put flag value result) rows

unfoldable pub merge_mount_options : Dict String → List String → Dict String
merge_mount_options a b = put_settings a (settings (parse formal b defaults))
