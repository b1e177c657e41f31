-- ===== src/Flags/Switches.antt =====
-- pkg/flags/flags.go: the `switch` functions between the spellings of a flag.
pub mod Laws
use text.Mathlib.Text.{starts_with}
use csi_gcs.Base.{String, Bool, true, false, not, ◌==◌, if◌then◌else◌}
use csi_gcs.Flags.Names.{flag_bucket, flag_project_id, flag_kms_key_id}
use csi_gcs.Flags.Names.{flag_location, flag_fuse_mount_option, flag_dir_mode}
use csi_gcs.Flags.Names.{flag_file_mode, flag_uid, flag_gid}
use csi_gcs.Flags.Names.{flag_implicit_dirs, flag_billing_project, flag_limit_bytes_per_sec}
use csi_gcs.Flags.Names.{flag_limit_ops_per_sec, flag_stat_cache_ttl, flag_type_cache_ttl}
use csi_gcs.Flags.Names.{flag_max_retry_sleep, annotation_prefix, annotation_bucket}
use csi_gcs.Flags.Names.{annotation_project_id, annotation_kms_key_id, annotation_location}
use csi_gcs.Flags.Names.{annotation_fuse_mount_option, annotation_dir_mode, annotation_file_mode}
use csi_gcs.Flags.Names.{annotation_uid, annotation_gid, annotation_implicit_dirs}
use csi_gcs.Flags.Names.{
  annotation_billing_project, annotation_limit_bytes_per_sec, annotation_limit_ops_per_sec,
}
use csi_gcs.Flags.Names.{
  annotation_stat_cache_ttl, annotation_type_cache_ttl, annotation_max_retry_sleep,
}
use csi_gcs.Flags.Names.{mount_option_bucket, mount_option_project_id, mount_option_kms_key_id}
use csi_gcs.Flags.Names.{
  mount_option_location, mount_option_fuse_mount_option, mount_option_dir_mode,
}
use csi_gcs.Flags.Names.{mount_option_file_mode, mount_option_uid, mount_option_gid}
use csi_gcs.Flags.Names.{
  mount_option_implicit_dirs, mount_option_billing_project, mount_option_limit_bytes_per_sec,
}
use csi_gcs.Flags.Names.{
  mount_option_limit_ops_per_sec, mount_option_stat_cache_ttl, mount_option_type_cache_ttl,
}
use csi_gcs.Flags.Names.{mount_option_max_retry_sleep}

unfoldable pub is_flag : String → Bool
is_flag flag =
    if flag == flag_bucket
    then true
    else if flag == flag_project_id
    then true
    else if flag == flag_kms_key_id
    then true
    else if flag == flag_location
    then true
    else if flag == flag_fuse_mount_option
    then true
    else if flag == flag_dir_mode
    then true
    else if flag == flag_file_mode
    then true
    else if flag == flag_uid
    then true
    else if flag == flag_gid
    then true
    else if flag == flag_implicit_dirs
    then true
    else if flag == flag_billing_project
    then true
    else if flag == flag_limit_bytes_per_sec
    then true
    else if flag == flag_limit_ops_per_sec
    then true
    else if flag == flag_stat_cache_ttl
    then true
    else if flag == flag_type_cache_ttl
    then true
    else if flag == flag_max_retry_sleep
    then true
    else false

unfoldable pub flag_name_from_annotation : String → String
flag_name_from_annotation annotation =
    if annotation == annotation_bucket
    then flag_bucket
    else if annotation == annotation_project_id
    then flag_project_id
    else if annotation == annotation_kms_key_id
    then flag_kms_key_id
    else if annotation == annotation_location
    then flag_location
    else if annotation == annotation_fuse_mount_option
    then flag_fuse_mount_option
    else if annotation == annotation_dir_mode
    then flag_dir_mode
    else if annotation == annotation_file_mode
    then flag_file_mode
    else if annotation == annotation_uid
    then flag_uid
    else if annotation == annotation_gid
    then flag_gid
    else if annotation == annotation_implicit_dirs
    then flag_implicit_dirs
    else if annotation == annotation_billing_project
    then flag_billing_project
    else if annotation == annotation_limit_bytes_per_sec
    then flag_limit_bytes_per_sec
    else if annotation == annotation_limit_ops_per_sec
    then flag_limit_ops_per_sec
    else if annotation == annotation_stat_cache_ttl
    then flag_stat_cache_ttl
    else if annotation == annotation_type_cache_ttl
    then flag_type_cache_ttl
    else if annotation == annotation_max_retry_sleep
    then flag_max_retry_sleep
    else ""

-- `strings.HasPrefix(annotation, ANNOTATION_PREFIX)`
unfoldable pub is_own_annotation : String → Bool
is_own_annotation annotation = starts_with annotation annotation_prefix

unfoldable pub is_annotation : String → Bool
is_annotation annotation = not (flag_name_from_annotation annotation == "")

unfoldable pub flag_name_from_mount_option : String → String
flag_name_from_mount_option cmd =
    if cmd == mount_option_bucket
    then flag_bucket
    else if cmd == mount_option_project_id
    then flag_project_id
    else if cmd == mount_option_kms_key_id
    then flag_kms_key_id
    else if cmd == mount_option_location
    then flag_location
    else if cmd == mount_option_fuse_mount_option
    then flag_fuse_mount_option
    else if cmd == mount_option_dir_mode
    then flag_dir_mode
    else if cmd == mount_option_file_mode
    then flag_file_mode
    else if cmd == mount_option_uid
    then flag_uid
    else if cmd == mount_option_gid
    then flag_gid
    else if cmd == mount_option_implicit_dirs
    then flag_implicit_dirs
    else if cmd == mount_option_billing_project
    then flag_billing_project
    else if cmd == mount_option_limit_bytes_per_sec
    then flag_limit_bytes_per_sec
    else if cmd == mount_option_limit_ops_per_sec
    then flag_limit_ops_per_sec
    else if cmd == mount_option_stat_cache_ttl
    then flag_stat_cache_ttl
    else if cmd == mount_option_type_cache_ttl
    then flag_type_cache_ttl
    else if cmd == mount_option_max_retry_sleep
    then flag_max_retry_sleep
    else ""

unfoldable pub is_mount_option : String → Bool
is_mount_option cmd = not (flag_name_from_mount_option cmd == "")

unfoldable pub flag_name_to_gcsfuse_option : String → String
flag_name_to_gcsfuse_option flag =
    if flag == flag_dir_mode
    then "dir_mode"
    else if flag == flag_file_mode
    then "file_mode"
    else if flag == flag_uid
    then "uid"
    else if flag == flag_gid
    then "gid"
    else if flag == flag_implicit_dirs
    then "implicit_dirs"
    else if flag == flag_billing_project
    then "billing_project"
    else if flag == flag_limit_bytes_per_sec
    then "limit_bytes_per_sec"
    else if flag == flag_limit_ops_per_sec
    then "limit_ops_per_sec"
    else if flag == flag_stat_cache_ttl
    then "stat_cache_ttl"
    else if flag == flag_type_cache_ttl
    then "type_cache_ttl"
    else if flag == flag_max_retry_sleep
    then "max_retry_sleep"
    else ""
