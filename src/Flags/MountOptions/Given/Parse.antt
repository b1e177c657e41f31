-- ===== src/Flags/MountOptions/Given/Parse.antt =====
-- The parser of package flag reads each mount option into its variable.
use text.Mathlib.TextLemmas.{nil-append, cons-append}
use csi_gcs.Base.{String, ◌<>◌, ◌≡◌, ◌∙◌, refl, ap, true, List, [], ◌∷◌, ◌++◌}
use csi_gcs.Strconv.{parse_int}
use csi_gcs.Flags.FlagSet.{parse, parse_one, set_formal, read_arg, read_name, split_equals}
use csi_gcs.Flags.MountOptions.{Vars, formal}
use csi_gcs.Flags.MountOptions.Given.{
  MountOption, bucket_option, project_id_option, kms_key_id_option, location_option,
  fuse_mount_option_option, dir_mode_option, file_mode_option, uid_option, gid_option,
  implicit_dirs_option, billing_project_option, limit_bytes_per_sec_option,
  limit_ops_per_sec_option, stat_cache_ttl_option, type_cache_ttl_option, max_retry_sleep_option,
  given_name, kind, joined, spaced, spell, Reads,
}

unfoldable pub assign : MountOption → String → Vars → Vars
assign bucket_option x v = record v { bucket = x }
assign project_id_option x v = record v { project_id = x }
assign kms_key_id_option x v = record v { kms_key_id = x }
assign location_option x v = record v { location = x }
assign fuse_mount_option_option x v = record v {
  fuse_mount_options = v.fuse_mount_options ++ (x ∷ []);
}
assign dir_mode_option x v = record v { dir_mode = (parse_int x 8).0 }
assign file_mode_option x v = record v { file_mode = (parse_int x 8).0 }
assign uid_option x v = record v { uid = (parse_int x 0).0 }
assign gid_option x v = record v { gid = (parse_int x 0).0 }
assign implicit_dirs_option x v = record v { implicit_dirs = true }
assign billing_project_option x v = record v { billing_project = x }
assign limit_bytes_per_sec_option x v = record v { limit_bytes_per_sec = (parse_int x 0).0 }
assign limit_ops_per_sec_option x v = record v { limit_ops_per_sec = (parse_int x 0).0 }
assign stat_cache_ttl_option x v = record v { stat_cache_ttl = x }
assign type_cache_ttl_option x v = record v { type_cache_ttl = x }
assign max_retry_sleep_option x v = record v { max_retry_sleep_min = (parse_int x 0).0 }

-- The same text, character by character.
behind : String → String → String
behind String.[] x = x
behind (String.◌∷◌ c s) x = String.◌∷◌ c (behind s x)

behind-append : (s x : String) → s <> x ≡ behind s x
unfolding behind
behind-append String.[] x = nil-append x
behind-append (String.◌∷◌ c s) x = cons-append c s x ∙ ap (String.◌∷◌ c) (behind-append s x)

pub parse-joined :
    (o : MountOption) (x : String) (rest : List String) (v : Vars)
    → Reads (kind o) x
    → parse formal (spell (joined o x) rest) v ≡ parse formal rest (assign o x v)
unfolding formal parse parse_one set_formal read_arg read_name split_equals spell kind given_name
    assign behind
parse-joined bucket_option x [] v h = rw (behind-append "--bucket=" x) refl
parse-joined bucket_option x (arg ∷ args) v h = rw (behind-append "--bucket=" x) refl
parse-joined project_id_option x [] v h = rw (behind-append "--project-id=" x) refl
parse-joined project_id_option x (arg ∷ args) v h = rw (behind-append "--project-id=" x) refl
parse-joined kms_key_id_option x [] v h = rw (behind-append "--kms-key-id=" x) refl
parse-joined kms_key_id_option x (arg ∷ args) v h = rw (behind-append "--kms-key-id=" x) refl
parse-joined location_option x [] v h = rw (behind-append "--location=" x) refl
parse-joined location_option x (arg ∷ args) v h = rw (behind-append "--location=" x) refl
parse-joined fuse_mount_option_option x [] v h = rw (behind-append "--fuse-mount-option=" x) refl
parse-joined fuse_mount_option_option x (arg ∷ args) v h =
    rw (behind-append "--fuse-mount-option=" x) refl
parse-joined dir_mode_option x [] v h = rw (behind-append "--dir-mode=" x) (rw (h, parse) refl)
parse-joined dir_mode_option x (arg ∷ args) v h =
    rw (behind-append "--dir-mode=" x) (rw (h, parse) refl)
parse-joined file_mode_option x [] v h = rw (behind-append "--file-mode=" x) (rw (h, parse) refl)
parse-joined file_mode_option x (arg ∷ args) v h =
    rw (behind-append "--file-mode=" x) (rw (h, parse) refl)
parse-joined uid_option x [] v h = rw (behind-append "--uid=" x) (rw (h, parse) refl)
parse-joined uid_option x (arg ∷ args) v h = rw (behind-append "--uid=" x) (rw (h, parse) refl)
parse-joined gid_option x [] v h = rw (behind-append "--gid=" x) (rw (h, parse) refl)
parse-joined gid_option x (arg ∷ args) v h = rw (behind-append "--gid=" x) (rw (h, parse) refl)
parse-joined implicit_dirs_option x [] v h = refl
parse-joined implicit_dirs_option x (arg ∷ args) v h = refl
parse-joined billing_project_option x [] v h = rw (behind-append "--billing-project=" x) refl
parse-joined billing_project_option x (arg ∷ args) v h =
    rw (behind-append "--billing-project=" x) refl
parse-joined limit_bytes_per_sec_option x [] v h =
    rw (behind-append "--limit-bytes-per-sec=" x) (rw (h, parse) refl)
parse-joined limit_bytes_per_sec_option x (arg ∷ args) v h =
    rw (behind-append "--limit-bytes-per-sec=" x) (rw (h, parse) refl)
parse-joined limit_ops_per_sec_option x [] v h =
    rw (behind-append "--limit-ops-per-sec=" x) (rw (h, parse) refl)
parse-joined limit_ops_per_sec_option x (arg ∷ args) v h =
    rw (behind-append "--limit-ops-per-sec=" x) (rw (h, parse) refl)
parse-joined stat_cache_ttl_option x [] v h = rw (behind-append "--stat-cache-ttl=" x) refl
parse-joined stat_cache_ttl_option x (arg ∷ args) v h =
    rw (behind-append "--stat-cache-ttl=" x) refl
parse-joined type_cache_ttl_option x [] v h = rw (behind-append "--type-cache-ttl=" x) refl
parse-joined type_cache_ttl_option x (arg ∷ args) v h =
    rw (behind-append "--type-cache-ttl=" x) refl
parse-joined max_retry_sleep_option x [] v h =
    rw (behind-append "--max-retry-sleep=" x) (rw (h, parse) refl)
parse-joined max_retry_sleep_option x (arg ∷ args) v h =
    rw (behind-append "--max-retry-sleep=" x) (rw (h, parse) refl)

pub parse-spaced :
    (o : MountOption) (x : String) (rest : List String) (v : Vars)
    → Reads (kind o) x
    → parse formal (spell (spaced o x) rest) v ≡ parse formal rest (assign o x v)
unfolding formal parse parse_one set_formal read_arg read_name split_equals spell kind given_name
    assign
parse-spaced bucket_option x rest v h = refl
parse-spaced project_id_option x rest v h = refl
parse-spaced kms_key_id_option x rest v h = refl
parse-spaced location_option x rest v h = refl
parse-spaced fuse_mount_option_option x rest v h = refl
parse-spaced dir_mode_option x rest v h = rw h refl
parse-spaced file_mode_option x rest v h = rw h refl
parse-spaced uid_option x rest v h = rw h refl
parse-spaced gid_option x rest v h = rw h refl
parse-spaced implicit_dirs_option x [] v h = refl
parse-spaced implicit_dirs_option x (arg ∷ args) v h = refl
parse-spaced billing_project_option x rest v h = refl
parse-spaced limit_bytes_per_sec_option x rest v h = rw h refl
parse-spaced limit_ops_per_sec_option x rest v h = rw h refl
parse-spaced stat_cache_ttl_option x rest v h = refl
parse-spaced type_cache_ttl_option x rest v h = refl
parse-spaced max_retry_sleep_option x rest v h = rw h refl
