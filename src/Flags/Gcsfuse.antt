-- ===== src/Flags/Gcsfuse.antt =====
-- pkg/flags/flags.go: the arguments of gcsfuse from the options.
pub mod Laws
use csi_gcs.Base.{
  String, ◌<>◌, ◌==◌, Option, none, some, List, [], ◌∷◌, ◌++◌, split_comma, Dict, lookup,
  if◌then◌else◌,
}
use csi_gcs.Flags.Names.{
  flag_fuse_mount_option, flag_dir_mode, flag_file_mode, flag_uid, flag_gid, flag_implicit_dirs,
  flag_limit_bytes_per_sec, flag_limit_ops_per_sec, flag_stat_cache_ttl, flag_type_cache_ttl,
  flag_max_retry_sleep,
}
use csi_gcs.Flags.Switches.{flag_name_to_gcsfuse_option}

unfoldable pub maybe_add_flag : List String → Dict String → String → List String
maybe_add_flag result flags name = elim (lookup name flags) [
  | none ↦ result
  | some value ↦ result ++ ((flag_name_to_gcsfuse_option name <> ("=" <> value)) ∷ [])
]

unfoldable pub maybe_add_boolean_flag : List String → Dict String → String → List String
maybe_add_boolean_flag result flags name = elim (lookup name flags) [
  | none ↦ result
  | some value ↦
      if value == "true" then result ++ (flag_name_to_gcsfuse_option name ∷ []) else result
]

unfoldable pub maybe_add_direct_flag : List String → Dict String → String → List String
maybe_add_direct_flag result flags name = elim (lookup name flags) [
  | none ↦ result
  | some value ↦ result ++ split_comma "" value
]

unfoldable pub extra_flags : Dict String → List String
extra_flags flags =
    let r1 = maybe_add_direct_flag [] flags flag_fuse_mount_option in
    let r2 = maybe_add_flag r1 flags flag_dir_mode in
    let r3 = maybe_add_flag r2 flags flag_file_mode in
    let r4 = maybe_add_flag r3 flags flag_uid in
    let r5 = maybe_add_flag r4 flags flag_gid in
    let r6 = maybe_add_boolean_flag r5 flags flag_implicit_dirs in
    let r7 = maybe_add_flag r6 flags flag_limit_bytes_per_sec in
    let r8 = maybe_add_flag r7 flags flag_limit_ops_per_sec in
    let r9 = maybe_add_flag r8 flags flag_stat_cache_ttl in
    let r10 = maybe_add_flag r9 flags flag_type_cache_ttl in
    maybe_add_flag r10 flags flag_max_retry_sleep
