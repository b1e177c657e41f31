-- ===== src/Flags/Switches/Laws.antt =====
-- The three spellings of the flags as tables: an annotation and a mount option name a flag of their own.
use csi_gcs.Base.{
  String, Bool, true, false, not, ◌&&◌, ◌||◌, ◌==◌, sym, ◌≡◌, ◌∙◌, inl, inr, [], ◌∷◌, refl, arith,
  eq_iff, Dict,
}
use csi_gcs.Base.Switch.{switch, all_rows, switch_sound}
use csi_gcs.Flags.Names.{flag_bucket, flag_project_id, flag_kms_key_id}
use csi_gcs.Flags.Names.{flag_location, flag_fuse_mount_option, flag_dir_mode}
use csi_gcs.Flags.Names.{flag_file_mode, flag_uid, flag_gid}
use csi_gcs.Flags.Names.{flag_implicit_dirs, flag_billing_project, flag_limit_bytes_per_sec}
use csi_gcs.Flags.Names.{flag_limit_ops_per_sec, flag_stat_cache_ttl, flag_type_cache_ttl}
use csi_gcs.Flags.Names.{flag_max_retry_sleep, annotation_bucket, annotation_project_id}
use csi_gcs.Flags.Names.{annotation_kms_key_id, annotation_location, annotation_fuse_mount_option}
use csi_gcs.Flags.Names.{annotation_dir_mode, annotation_file_mode, annotation_uid}
use csi_gcs.Flags.Names.{annotation_gid, annotation_implicit_dirs, annotation_billing_project}
use csi_gcs.Flags.Names.{
  annotation_limit_bytes_per_sec, annotation_limit_ops_per_sec, annotation_stat_cache_ttl,
}
use csi_gcs.Flags.Names.{annotation_type_cache_ttl, annotation_max_retry_sleep, mount_option_bucket}
use csi_gcs.Flags.Names.{mount_option_project_id, mount_option_kms_key_id, mount_option_location}
use csi_gcs.Flags.Names.{
  mount_option_fuse_mount_option, mount_option_dir_mode, mount_option_file_mode,
}
use csi_gcs.Flags.Names.{mount_option_uid, mount_option_gid, mount_option_implicit_dirs}
use csi_gcs.Flags.Names.{
  mount_option_billing_project, mount_option_limit_bytes_per_sec, mount_option_limit_ops_per_sec,
}
use csi_gcs.Flags.Names.{
  mount_option_stat_cache_ttl, mount_option_type_cache_ttl, mount_option_max_retry_sleep,
}
use csi_gcs.Flags.Switches.{
  is_flag, flag_name_from_annotation, is_own_annotation, is_annotation, flag_name_from_mount_option,
  is_mount_option,
}

-- The flag of each annotation.
abbrev pub annotations : Dict String
annotations =
    (annotation_bucket, flag_bucket)
    ∷ (annotation_project_id, flag_project_id)
    ∷ (annotation_kms_key_id, flag_kms_key_id)
    ∷ (annotation_location, flag_location)
    ∷ (annotation_fuse_mount_option, flag_fuse_mount_option)
    ∷ (annotation_dir_mode, flag_dir_mode)
    ∷ (annotation_file_mode, flag_file_mode)
    ∷ (annotation_uid, flag_uid)
    ∷ (annotation_gid, flag_gid)
    ∷ (annotation_implicit_dirs, flag_implicit_dirs)
    ∷ (annotation_billing_project, flag_billing_project)
    ∷ (annotation_limit_bytes_per_sec, flag_limit_bytes_per_sec)
    ∷ (annotation_limit_ops_per_sec, flag_limit_ops_per_sec)
    ∷ (annotation_stat_cache_ttl, flag_stat_cache_ttl)
    ∷ (annotation_type_cache_ttl, flag_type_cache_ttl)
    ∷ (annotation_max_retry_sleep, flag_max_retry_sleep)
    ∷ []

-- The annotation of each flag.
abbrev pub annotation_names : Dict String
annotation_names =
    (flag_bucket, annotation_bucket)
    ∷ (flag_project_id, annotation_project_id)
    ∷ (flag_kms_key_id, annotation_kms_key_id)
    ∷ (flag_location, annotation_location)
    ∷ (flag_fuse_mount_option, annotation_fuse_mount_option)
    ∷ (flag_dir_mode, annotation_dir_mode)
    ∷ (flag_file_mode, annotation_file_mode)
    ∷ (flag_uid, annotation_uid)
    ∷ (flag_gid, annotation_gid)
    ∷ (flag_implicit_dirs, annotation_implicit_dirs)
    ∷ (flag_billing_project, annotation_billing_project)
    ∷ (flag_limit_bytes_per_sec, annotation_limit_bytes_per_sec)
    ∷ (flag_limit_ops_per_sec, annotation_limit_ops_per_sec)
    ∷ (flag_stat_cache_ttl, annotation_stat_cache_ttl)
    ∷ (flag_type_cache_ttl, annotation_type_cache_ttl)
    ∷ (flag_max_retry_sleep, annotation_max_retry_sleep)
    ∷ []

-- The flag of each mount option.
abbrev pub mount_options : Dict String
mount_options =
    (mount_option_bucket, flag_bucket)
    ∷ (mount_option_project_id, flag_project_id)
    ∷ (mount_option_kms_key_id, flag_kms_key_id)
    ∷ (mount_option_location, flag_location)
    ∷ (mount_option_fuse_mount_option, flag_fuse_mount_option)
    ∷ (mount_option_dir_mode, flag_dir_mode)
    ∷ (mount_option_file_mode, flag_file_mode)
    ∷ (mount_option_uid, flag_uid)
    ∷ (mount_option_gid, flag_gid)
    ∷ (mount_option_implicit_dirs, flag_implicit_dirs)
    ∷ (mount_option_billing_project, flag_billing_project)
    ∷ (mount_option_limit_bytes_per_sec, flag_limit_bytes_per_sec)
    ∷ (mount_option_limit_ops_per_sec, flag_limit_ops_per_sec)
    ∷ (mount_option_stat_cache_ttl, flag_stat_cache_ttl)
    ∷ (mount_option_type_cache_ttl, flag_type_cache_ttl)
    ∷ (mount_option_max_retry_sleep, flag_max_retry_sleep)
    ∷ []

-- The mount option of each flag.
abbrev pub mount_option_names : Dict String
mount_option_names =
    (flag_bucket, mount_option_bucket)
    ∷ (flag_project_id, mount_option_project_id)
    ∷ (flag_kms_key_id, mount_option_kms_key_id)
    ∷ (flag_location, mount_option_location)
    ∷ (flag_fuse_mount_option, mount_option_fuse_mount_option)
    ∷ (flag_dir_mode, mount_option_dir_mode)
    ∷ (flag_file_mode, mount_option_file_mode)
    ∷ (flag_uid, mount_option_uid)
    ∷ (flag_gid, mount_option_gid)
    ∷ (flag_implicit_dirs, mount_option_implicit_dirs)
    ∷ (flag_billing_project, mount_option_billing_project)
    ∷ (flag_limit_bytes_per_sec, mount_option_limit_bytes_per_sec)
    ∷ (flag_limit_ops_per_sec, mount_option_limit_ops_per_sec)
    ∷ (flag_stat_cache_ttl, mount_option_stat_cache_ttl)
    ∷ (flag_type_cache_ttl, mount_option_type_cache_ttl)
    ∷ (flag_max_retry_sleep, mount_option_max_retry_sleep)
    ∷ []

-- The cases of `is_flag`.
abbrev pub flags : Dict Bool
flags =
    (flag_bucket, true)
    ∷ (flag_project_id, true)
    ∷ (flag_kms_key_id, true)
    ∷ (flag_location, true)
    ∷ (flag_fuse_mount_option, true)
    ∷ (flag_dir_mode, true)
    ∷ (flag_file_mode, true)
    ∷ (flag_uid, true)
    ∷ (flag_gid, true)
    ∷ (flag_implicit_dirs, true)
    ∷ (flag_billing_project, true)
    ∷ (flag_limit_bytes_per_sec, true)
    ∷ (flag_limit_ops_per_sec, true)
    ∷ (flag_stat_cache_ttl, true)
    ∷ (flag_type_cache_ttl, true)
    ∷ (flag_max_retry_sleep, true)
    ∷ []

flag_name_from_annotation_table :
    (k : String) → flag_name_from_annotation k ≡ switch annotations "" k
unfolding flag_name_from_annotation
flag_name_from_annotation_table k = refl

flag_name_from_mount_option_table :
    (k : String) → flag_name_from_mount_option k ≡ switch mount_options "" k
unfolding flag_name_from_mount_option
flag_name_from_mount_option_table k = refl

-- The annotation of a flag, which the program never computes.
unfoldable pub annotation_of_flag : String → String
annotation_of_flag f = switch annotation_names "" f

-- The mount option of a flag, which the program never computes.
pub mount_option_of_flag : String → String
mount_option_of_flag f = switch mount_option_names "" f

known_annotation : String → String → Bool
known_annotation k f = annotation_of_flag f == k && is_flag f && is_own_annotation k

-- The table, checked row by row.
known_annotation_rows : all_rows known_annotation annotations ≡ true
unfolding known_annotation is_flag is_own_annotation annotation_of_flag
known_annotation_rows = refl

is_annotation_of_eq_nil : (k : String) → flag_name_from_annotation k ≡ "" → is_annotation k ≡ false
unfolding is_annotation
is_annotation_of_eq_nil k e = rw e

known_annotation_sound :
    (k : String) → is_annotation k ≡ true → known_annotation k (flag_name_from_annotation k) ≡ true
known_annotation_sound k h =
    elim (switch_sound known_annotation annotations "" k known_annotation_rows) [
      | inl good ↦ rw flag_name_from_annotation_table good
      | inr missing ↦ cc (is_annotation_of_eq_nil k (flag_name_from_annotation_table k ∙ missing))
    ]

-- An annotation that names a flag has the driver's prefix, the flag is one of the sixteen, and no
-- other annotation names it.
pub is_annotation_lem :
    (k : String)
    → is_annotation k ≡ true
    → (annotation_of_flag (flag_name_from_annotation k) ≡ k)
      × (is_flag (flag_name_from_annotation k) ≡ true)
      × (is_own_annotation k ≡ true)
unfolding known_annotation
is_annotation_lem k h =
    ground (
      arith,
      known_annotation_sound k h,
      eq_iff (annotation_of_flag (flag_name_from_annotation k)) k,
    )

known_mount_option : String → String → Bool
known_mount_option k f = mount_option_of_flag f == k && is_flag f

known_mount_option_rows : all_rows known_mount_option mount_options ≡ true
unfolding known_mount_option is_flag mount_option_of_flag
known_mount_option_rows = refl

is_mount_option_of_eq_nil :
    (k : String) → flag_name_from_mount_option k ≡ "" → is_mount_option k ≡ false
unfolding is_mount_option
is_mount_option_of_eq_nil k e = rw e

known_mount_option_sound :
    (k : String)
    → is_mount_option k ≡ true
    → known_mount_option k (flag_name_from_mount_option k) ≡ true
known_mount_option_sound k h =
    elim (switch_sound known_mount_option mount_options "" k known_mount_option_rows) [
      | inl good ↦ rw flag_name_from_mount_option_table good
      | inr missing ↦
          cc (is_mount_option_of_eq_nil k (flag_name_from_mount_option_table k ∙ missing))
    ]

-- A mount option that names a flag names one of the sixteen, and no other mount option names it.
pub is_mount_option_lem :
    (k : String)
    → is_mount_option k ≡ true
    → (mount_option_of_flag (flag_name_from_mount_option k) ≡ k)
      × (is_flag (flag_name_from_mount_option k) ≡ true)
unfolding known_mount_option
is_mount_option_lem k h = ground (
  arith,
  known_mount_option_sound k h,
  eq_iff (mount_option_of_flag (flag_name_from_mount_option k)) k,
)

named_flag : String → Bool → Bool
named_flag f v =
    not v
    || (flag_name_from_annotation (annotation_of_flag f) == f
        && is_annotation (annotation_of_flag f)
        && (flag_name_from_mount_option (mount_option_of_flag f) == f
            && is_mount_option (mount_option_of_flag f)))

named_flag_rows : all_rows named_flag flags ≡ true
unfolding named_flag annotation_of_flag mount_option_of_flag flag_name_from_annotation
    flag_name_from_mount_option is_annotation is_mount_option
named_flag_rows = refl

is_flag_table : (f : String) → is_flag f ≡ switch flags false f
unfolding is_flag
is_flag_table f = refl

named_flag_sound : (f : String) → is_flag f ≡ true → named_flag f true ≡ true
named_flag_sound f h = elim (switch_sound named_flag flags false f named_flag_rows) [
  | inl good ↦ rw (sym (is_flag_table f) ∙ h) at good
  | inr missing ↦ cc (is_flag_table f)
]

-- Every flag is named by its annotation and by its mount option.
pub is_flag_lem :
    (f : String)
    → is_flag f ≡ true
    → (flag_name_from_annotation (annotation_of_flag f) ≡ f)
      × (is_annotation (annotation_of_flag f) ≡ true)
      × (flag_name_from_mount_option (mount_option_of_flag f) ≡ f)
      × (is_mount_option (mount_option_of_flag f) ≡ true)
unfolding named_flag
is_flag_lem f h = ground (
  arith,
  named_flag_sound f h,
  eq_iff (flag_name_from_annotation (annotation_of_flag f)) f,
  eq_iff (flag_name_from_mount_option (mount_option_of_flag f)) f,
)
