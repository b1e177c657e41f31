-- ===== src/Flags/MountOptions/Given.antt =====
-- What mount options that `MergeMountOptions` of pkg/flags/flags.go can read mean for the options of a
-- volume, as tables of their own.
pub mod Parse
pub mod Laws
use csi_gcs.Base.{
  String, ◌<>◌, ◌==◌, ◌≡◌, Option, none, some, List, [], ◌∷◌, ℤ, negsuc, ◌=ℤ◌, if◌then◌else◌,
}
use csi_gcs.Strconv.{parse_int, format_int}

-- What a mount option has as its value, and what becomes of it.
pub data Kind : Type 0 where
  one_text text_list octal_number one_number only_name : Kind

pub data MountOption : Type 0 where
  bucket_option : MountOption
  project_id_option : MountOption
  kms_key_id_option : MountOption
  location_option : MountOption
  fuse_mount_option_option : MountOption
  dir_mode_option : MountOption
  file_mode_option : MountOption
  uid_option : MountOption
  gid_option : MountOption
  implicit_dirs_option : MountOption
  billing_project_option : MountOption
  limit_bytes_per_sec_option : MountOption
  limit_ops_per_sec_option : MountOption
  stat_cache_ttl_option : MountOption
  type_cache_ttl_option : MountOption
  max_retry_sleep_option : MountOption

-- The name of a mount option.
unfoldable pub given_name : MountOption → String
given_name bucket_option = "bucket"
given_name project_id_option = "project-id"
given_name kms_key_id_option = "kms-key-id"
given_name location_option = "location"
given_name fuse_mount_option_option = "fuse-mount-option"
given_name dir_mode_option = "dir-mode"
given_name file_mode_option = "file-mode"
given_name uid_option = "uid"
given_name gid_option = "gid"
given_name implicit_dirs_option = "implicit-dirs"
given_name billing_project_option = "billing-project"
given_name limit_bytes_per_sec_option = "limit-bytes-per-sec"
given_name limit_ops_per_sec_option = "limit-ops-per-sec"
given_name stat_cache_ttl_option = "stat-cache-ttl"
given_name type_cache_ttl_option = "type-cache-ttl"
given_name max_retry_sleep_option = "max-retry-sleep"

-- The option of the volume that it sets.
pub set_flag : MountOption → String
set_flag bucket_option = "bucket"
set_flag project_id_option = "projectId"
set_flag kms_key_id_option = "kmsKeyId"
set_flag location_option = "location"
set_flag fuse_mount_option_option = "fuseMountOptions"
set_flag dir_mode_option = "dirMode"
set_flag file_mode_option = "fileMode"
set_flag uid_option = "uid"
set_flag gid_option = "gid"
set_flag implicit_dirs_option = "implicitDirs"
set_flag billing_project_option = "billingProject"
set_flag limit_bytes_per_sec_option = "limitBytesPerSec"
set_flag limit_ops_per_sec_option = "limitOpsPerSec"
set_flag stat_cache_ttl_option = "statCacheTTL"
set_flag type_cache_ttl_option = "typeCacheTTL"
set_flag max_retry_sleep_option = "maxRetrySleep"

-- Its kind.
unfoldable pub kind : MountOption → Kind
kind bucket_option = one_text
kind project_id_option = one_text
kind kms_key_id_option = one_text
kind location_option = one_text
kind fuse_mount_option_option = text_list
kind dir_mode_option = octal_number
kind file_mode_option = octal_number
kind uid_option = one_number
kind gid_option = one_number
kind implicit_dirs_option = only_name
kind billing_project_option = one_text
kind limit_bytes_per_sec_option = one_number
kind limit_ops_per_sec_option = one_number
kind stat_cache_ttl_option = one_text
kind type_cache_ttl_option = one_text
kind max_retry_sleep_option = one_number

-- A mount option with its value, behind `=` or as an argument of its own.
pub data Given : Type 0 where
  joined spaced : MountOption → String → Given

pub spell : Given → List String → List String
unfolding given_name kind
spell (joined o x) rest = elim (kind o) [
  | one_text ↦ (("--" <> (given_name o <> "=")) <> x) ∷ rest
  | text_list ↦ (("--" <> (given_name o <> "=")) <> x) ∷ rest
  | octal_number ↦ (("--" <> (given_name o <> "=")) <> x) ∷ rest
  | one_number ↦ (("--" <> (given_name o <> "=")) <> x) ∷ rest
  | only_name ↦ ("--" <> given_name o) ∷ rest
]
spell (spaced o x) rest = elim (kind o) [
  | one_text ↦ ("--" <> given_name o) ∷ x ∷ rest
  | text_list ↦ ("--" <> given_name o) ∷ x ∷ rest
  | octal_number ↦ ("--" <> given_name o) ∷ x ∷ rest
  | one_number ↦ ("--" <> given_name o) ∷ x ∷ rest
  | only_name ↦ ("--" <> given_name o) ∷ rest
]

pub spell_all : List Given → List String
unfolding spell
spell_all [] = []
spell_all (g ∷ gs) = spell g (spell_all gs)

-- A number is one that `ParseInt` reads without an error: an octal one for a mode, and one in Go's
-- own notation otherwise.
abbrev pub Reads : Kind → String → Type 0
Reads one_text x = Unit
Reads text_list x = Unit
Reads octal_number x = (parse_int x 8).1 ≡ none
Reads one_number x = (parse_int x 0).1 ≡ none
Reads only_name x = Unit

abbrev pub Readable : Given → Type 0
Readable (joined o x) = Reads (kind o) x
Readable (spaced o x) = Reads (kind o) x

abbrev pub AllReadable : List Given → Type 0
AllReadable [] = Unit
AllReadable (g ∷ gs) = Readable g × AllReadable gs

-- A number as it is written into the options; -1 stands for none.
written : String → ℤ → Option String
written text n = if n =ℤ negsuc 0 then none else some text

-- The value that a mount option leaves behind, from the value that the ones before it have left.
pub next_value : Kind → String → Option String → Option String
unfolding written
next_value one_text x before = if x == "" then none else some x
next_value text_list x none = some x
next_value text_list x (some texts) = some (texts <> ("," <> x))
next_value octal_number x before = written ("0" <> format_int (parse_int x 8).0 8) (parse_int x 8).0
next_value one_number x before = written (format_int (parse_int x 0).0 10) (parse_int x 0).0
next_value only_name x before = some "true"

pub one_value : MountOption → String → String → Option String → Option String
one_value o x k before = if k == set_flag o then next_value (kind o) x before else before

pub value_of : List Given → String → Option String → Option String
unfolding one_value
value_of [] k before = before
value_of (joined o x ∷ gs) k before = value_of gs k (one_value o x k before)
value_of (spaced o x ∷ gs) k before = value_of gs k (one_value o x k before)
