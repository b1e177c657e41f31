-- ===== src/Flags/Names.antt =====
-- pkg/flags/flags.go: the names of the flags, of the annotations and of the mount options.
use csi_gcs.Base.{String}

abbrev pub flag_bucket : String
flag_bucket = "bucket"

abbrev pub flag_project_id : String
flag_project_id = "projectId"

abbrev pub flag_kms_key_id : String
flag_kms_key_id = "kmsKeyId"

abbrev pub flag_location : String
flag_location = "location"

abbrev pub flag_fuse_mount_option : String
flag_fuse_mount_option = "fuseMountOptions"

abbrev pub flag_dir_mode : String
flag_dir_mode = "dirMode"

abbrev pub flag_file_mode : String
flag_file_mode = "fileMode"

abbrev pub flag_uid : String
flag_uid = "uid"

abbrev pub flag_gid : String
flag_gid = "gid"

abbrev pub flag_implicit_dirs : String
flag_implicit_dirs = "implicitDirs"

abbrev pub flag_billing_project : String
flag_billing_project = "billingProject"

abbrev pub flag_limit_bytes_per_sec : String
flag_limit_bytes_per_sec = "limitBytesPerSec"

abbrev pub flag_limit_ops_per_sec : String
flag_limit_ops_per_sec = "limitOpsPerSec"

abbrev pub flag_stat_cache_ttl : String
flag_stat_cache_ttl = "statCacheTTL"

abbrev pub flag_type_cache_ttl : String
flag_type_cache_ttl = "typeCacheTTL"

abbrev pub flag_max_retry_sleep : String
flag_max_retry_sleep = "maxRetrySleep"

abbrev pub annotation_prefix : String
annotation_prefix = "gcs.csi.ofek.dev/"

abbrev pub annotation_bucket : String
annotation_bucket = "gcs.csi.ofek.dev/bucket"

abbrev pub annotation_project_id : String
annotation_project_id = "gcs.csi.ofek.dev/project-id"

abbrev pub annotation_kms_key_id : String
annotation_kms_key_id = "gcs.csi.ofek.dev/kms-key-id"

abbrev pub annotation_location : String
annotation_location = "gcs.csi.ofek.dev/location"

abbrev pub annotation_fuse_mount_option : String
annotation_fuse_mount_option = "gcs.csi.ofek.dev/fuse-mount-options"

abbrev pub annotation_dir_mode : String
annotation_dir_mode = "gcs.csi.ofek.dev/dir-mode"

abbrev pub annotation_file_mode : String
annotation_file_mode = "gcs.csi.ofek.dev/file-mode"

abbrev pub annotation_uid : String
annotation_uid = "gcs.csi.ofek.dev/uid"

abbrev pub annotation_gid : String
annotation_gid = "gcs.csi.ofek.dev/gid"

abbrev pub annotation_implicit_dirs : String
annotation_implicit_dirs = "gcs.csi.ofek.dev/implicit-dirs"

abbrev pub annotation_billing_project : String
annotation_billing_project = "gcs.csi.ofek.dev/billing-project"

abbrev pub annotation_limit_bytes_per_sec : String
annotation_limit_bytes_per_sec = "gcs.csi.ofek.dev/limit-bytes-per-sec"

abbrev pub annotation_limit_ops_per_sec : String
annotation_limit_ops_per_sec = "gcs.csi.ofek.dev/limit-ops-per-sec"

abbrev pub annotation_stat_cache_ttl : String
annotation_stat_cache_ttl = "gcs.csi.ofek.dev/stat-cache-ttl"

abbrev pub annotation_type_cache_ttl : String
annotation_type_cache_ttl = "gcs.csi.ofek.dev/type-cache-ttl"

abbrev pub annotation_max_retry_sleep : String
annotation_max_retry_sleep = "gcs.csi.ofek.dev/max-retry-sleep"

abbrev pub mount_option_bucket : String
mount_option_bucket = "bucket"

abbrev pub mount_option_project_id : String
mount_option_project_id = "project-id"

abbrev pub mount_option_kms_key_id : String
mount_option_kms_key_id = "kms-key-id"

abbrev pub mount_option_location : String
mount_option_location = "location"

abbrev pub mount_option_fuse_mount_option : String
mount_option_fuse_mount_option = "fuse-mount-option"

abbrev pub mount_option_dir_mode : String
mount_option_dir_mode = "dir-mode"

abbrev pub mount_option_file_mode : String
mount_option_file_mode = "file-mode"

abbrev pub mount_option_uid : String
mount_option_uid = "uid"

abbrev pub mount_option_gid : String
mount_option_gid = "gid"

abbrev pub mount_option_implicit_dirs : String
mount_option_implicit_dirs = "implicit-dirs"

abbrev pub mount_option_billing_project : String
mount_option_billing_project = "billing-project"

abbrev pub mount_option_limit_bytes_per_sec : String
mount_option_limit_bytes_per_sec = "limit-bytes-per-sec"

abbrev pub mount_option_limit_ops_per_sec : String
mount_option_limit_ops_per_sec = "limit-ops-per-sec"

abbrev pub mount_option_stat_cache_ttl : String
mount_option_stat_cache_ttl = "stat-cache-ttl"

abbrev pub mount_option_type_cache_ttl : String
mount_option_type_cache_ttl = "type-cache-ttl"

abbrev pub mount_option_max_retry_sleep : String
mount_option_max_retry_sleep = "max-retry-sleep"
