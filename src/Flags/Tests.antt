-- ===== src/Flags/Tests.antt =====
-- Runs of pkg/flags, and the theorems about it at concrete maps.
use csi_gcs.Base.{
  String, ◌==◌, ◌≡◌, refl, sym, Bool-cases, inl, inr, true, none, some, or_else, List, [], ◌∷◌,
  Dict, lookup, insert, pos, eq_iff, arith, if◌then◌else◌, NodupKeys, SameEntries,
}
use csi_gcs.Strconv.{err_syntax, parse_int, parse_uint, scan, digit_value, underscore_ok}
use csi_gcs.Flags.Switches.{is_flag, is_annotation, is_own_annotation, flag_name_from_annotation}
use csi_gcs.Flags.Switches.Laws.{annotation_of_flag, is_annotation_lem}
use csi_gcs.Flags.Merge.{merge_flags, merge_secret, merge_annotations}
use csi_gcs.Flags.Merge.Laws.{lookup-merge_annotations, merge-SameEntries}
use csi_gcs.Flags.FlagSet.{parse}
use csi_gcs.Flags.MountOptions.{defaults, formal, merge_mount_options}
use csi_gcs.Flags.MountOptions.Laws.{dir_mode_malformed}
use csi_gcs.Flags.MountOptions.Given.{
  dir_mode_option, implicit_dirs_option, uid_option, kind, Given, joined, spaced, spell_all,
  AllReadable, value_of,
}
use csi_gcs.Flags.MountOptions.Given.Laws.{lookup-merge_mount_options_given}
use csi_gcs.Flags.Gcsfuse.{extra_flags}
use csi_gcs.Flags.Gcsfuse.Laws.{passed_options, gather, extra_flags-eq-gather}

abbrev options : Dict String
options = ("bucket", "one") ∷ ("gid", "63147") ∷ []

abbrev secrets : Dict String
secrets = ("bucket", "two") ∷ ("key", "{}") ∷ []

abbrev annotations : Dict String
annotations = ("gcs.csi.ofek.dev/bucket", "three") ∷ ("example.com/bucket", "four") ∷ []

secrets-NodupKeys : NodupKeys secrets
unfolding lookup
secrets-NodupKeys = ground arith

annotations-NodupKeys : NodupKeys annotations
unfolding lookup
annotations-NodupKeys = ground arith

lookup-merge_annotations_example : lookup "bucket" (merge_annotations options annotations) ≡ (
    if is_flag "bucket"
    then or_else (lookup (annotation_of_flag "bucket") annotations) (lookup "bucket" options)
    else lookup "bucket" options)
lookup-merge_annotations_example =
    lookup-merge_annotations options annotations "bucket" annotations-NodupKeys

-- The annotation of the driver wins, and the other one is not read.
merged_annotations :
    merge_annotations options annotations ≡ ("bucket", "three") ∷ ("gid", "63147") ∷ []
unfolding merge_annotations insert is_annotation is_own_annotation flag_name_from_annotation
merged_annotations = refl

abbrev reordered : Dict String
reordered = ("key", "{}") ∷ ("bucket", "two") ∷ []

reordered-NodupKeys : NodupKeys reordered
unfolding lookup
reordered-NodupKeys = ground arith

secrets-reordered : SameEntries secrets reordered
unfolding lookup
secrets-reordered k = elim (Bool-cases ("bucket" == k)) [
  | inl same ↦ rw (sym ((eq_iff "bucket" k).0 same)) refl
  | inr other ↦ rw other (ground arith)
]

merge-SameEntries_example :
    SameEntries (merge_flags options secrets) (merge_flags options reordered)
    × SameEntries (merge_secret options secrets) (merge_secret options reordered)
    × SameEntries (merge_annotations options secrets) (merge_annotations options reordered)
merge-SameEntries_example =
    merge-SameEntries options options secrets reordered secrets-NodupKeys reordered-NodupKeys
      (λ k. refl) secrets-reordered

bucket_is_annotation : is_annotation "gcs.csi.ofek.dev/bucket" ≡ true
unfolding is_annotation flag_name_from_annotation
bucket_is_annotation = refl

is_annotation_lem_example :
    (annotation_of_flag (flag_name_from_annotation "gcs.csi.ofek.dev/bucket")
      ≡ "gcs.csi.ofek.dev/bucket")
    × (is_flag (flag_name_from_annotation "gcs.csi.ofek.dev/bucket") ≡ true)
    × (is_own_annotation "gcs.csi.ofek.dev/bucket" ≡ true)
is_annotation_lem_example = is_annotation_lem "gcs.csi.ofek.dev/bucket" bucket_is_annotation

abbrev given : List Given
given =
    joined dir_mode_option "0755" ∷ spaced implicit_dirs_option "" ∷ spaced uid_option "1000" ∷ []

given-AllReadable : AllReadable given
unfolding kind parse_int parse_uint scan digit_value underscore_ok
given-AllReadable = (refl, (tt, (refl, tt)))

lookup-merge_mount_options_given_example :
    lookup "uid" (merge_mount_options options (spell_all given))
    ≡ or_else (value_of given "uid" none) (lookup "uid" options)
lookup-merge_mount_options_given_example =
    lookup-merge_mount_options_given options given "uid" given-AllReadable

malformed : parse_int "rwx" 8 ≡ (pos 0, some err_syntax)
unfolding parse_int parse_uint scan digit_value underscore_ok
malformed = refl

dir_mode_malformed_example :
    (parse formal ("--dir-mode" ∷ "rwx" ∷ "--implicit-dirs" ∷ []) defaults
      ≡ record defaults { dir_mode = pos 0 })
    × (lookup "dirMode"
          (merge_mount_options options ("--dir-mode" ∷ "rwx" ∷ "--implicit-dirs" ∷ []))
        ≡ some "00")
dir_mode_malformed_example = dir_mode_malformed options "rwx" ("--implicit-dirs" ∷ []) malformed

extra_flags-eq-gather_example : extra_flags options ≡ gather passed_options options
extra_flags-eq-gather_example = extra_flags-eq-gather options
