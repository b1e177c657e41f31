-- ===== src/Flags/MountOptions/Given/Laws.antt =====
-- `MergeMountOptions` does what the tables of `Given` say.
use text.Mathlib.TextLemmas.{append_assoc}
use csi_gcs.Base.{
  String, ◌<>◌, ◌==◌, ◌≡◌, ◌∙◌, refl, ap, eq_iff, Bool, true, false, Bool-cases, inl, inr, Option,
  none, some, or_else, List, [], ◌∷◌, ◌++◌, join, Dict, lookup,
}
use csi_gcs.Base.Switch.{all_rows, switch_sound}
use csi_gcs.Flags.FlagSet.{parse}
use csi_gcs.Flags.MountOptions.{Vars, defaults, formal, settings, merge_mount_options}
use csi_gcs.Flags.MountOptions.Laws.{setting, lookup-merge_mount_options}
use csi_gcs.Flags.MountOptions.Given.{
  text_list, MountOption, bucket_option, project_id_option, kms_key_id_option, location_option,
  fuse_mount_option_option, dir_mode_option, file_mode_option, uid_option, gid_option,
  implicit_dirs_option, billing_project_option, limit_bytes_per_sec_option,
  limit_ops_per_sec_option, stat_cache_ttl_option, type_cache_ttl_option, max_retry_sleep_option,
  set_flag, kind, Given, joined, spaced, spell_all, AllReadable, next_value, one_value, value_of,
}
use csi_gcs.Flags.MountOptions.Given.Parse.{assign, parse-joined, parse-spaced}

join-append :
    (y : String) (ys : List String) (x : String)
    → join (y ∷ (ys ++ (x ∷ []))) "," ≡ join (y ∷ ys) "," <> ("," <> x)
unfolding join
join-append y [] x = refl
join-append y (z ∷ ys) x = rw (join-append z ys x) (
    cc (
      append_assoc y ("," <> join (z ∷ ys) ",") ("," <> x),
      append_assoc "," (join (z ∷ ys) ",") ("," <> x),
    ))

listed :
    (v : Vars) (xs : List String) (x : String)
    → setting (record v { fuse_mount_options = xs ++ (x ∷ []) }) "fuseMountOptions"
      ≡ next_value text_list x (setting (record v { fuse_mount_options = xs }) "fuseMountOptions")
unfolding settings next_value join
listed v [] x = refl
listed v (y ∷ ys) x = ap some (join-append y ys x)

setting_here :
    (o : MountOption) (x : String) (v : Vars)
    → setting (assign o x v) (set_flag o) ≡ next_value (kind o) x (setting v (set_flag o))
unfolding assign settings next_value set_flag kind
setting_here bucket_option x v = refl
setting_here project_id_option x v = refl
setting_here kms_key_id_option x v = refl
setting_here location_option x v = refl
setting_here fuse_mount_option_option x v = listed v v.fuse_mount_options x
setting_here dir_mode_option x v = refl
setting_here file_mode_option x v = refl
setting_here uid_option x v = refl
setting_here gid_option x v = refl
setting_here implicit_dirs_option x v = refl
setting_here billing_project_option x v = refl
setting_here limit_bytes_per_sec_option x v = refl
setting_here limit_ops_per_sec_option x v = refl
setting_here stat_cache_ttl_option x v = refl
setting_here type_cache_ttl_option x v = refl
setting_here max_retry_sleep_option x v = refl

setting_elsewhere :
    (o : MountOption) (x : String) (v : Vars) (k : String)
    → (k == set_flag o) ≡ false
    → setting (assign o x v) k ≡ setting v k
unfolding assign settings set_flag
setting_elsewhere bucket_option x v k h = rw h refl
setting_elsewhere project_id_option x v k h = rw h refl
setting_elsewhere kms_key_id_option x v k h = rw h refl
setting_elsewhere location_option x v k h = rw h refl
setting_elsewhere fuse_mount_option_option x v k h = rw h refl
setting_elsewhere dir_mode_option x v k h = rw h refl
setting_elsewhere file_mode_option x v k h = rw h refl
setting_elsewhere uid_option x v k h = rw h refl
setting_elsewhere gid_option x v k h = rw h refl
setting_elsewhere implicit_dirs_option x v k h = rw h refl
setting_elsewhere billing_project_option x v k h = rw h refl
setting_elsewhere limit_bytes_per_sec_option x v k h = rw h refl
setting_elsewhere limit_ops_per_sec_option x v k h = rw h refl
setting_elsewhere stat_cache_ttl_option x v k h = rw h refl
setting_elsewhere type_cache_ttl_option x v k h = rw h refl
setting_elsewhere max_retry_sleep_option x v k h = rw h refl

setting-assign :
    (o : MountOption) (x : String) (v : Vars) (k : String)
    → setting (assign o x v) k ≡ one_value o x k (setting v k)
unfolding one_value
setting-assign o x v k = elim (Bool-cases (k == set_flag o)) [
  | inl same ↦ let e = (eq_iff k (set_flag o)).0 same in rw (same, e) (setting_here o x v)
  | inr other ↦ rw other (setting_elsewhere o x v k other)
]

setting-parse :
    (gs : List Given) (v : Vars) (k : String)
    → AllReadable gs
    → setting (parse formal (spell_all gs) v) k ≡ value_of gs k (setting v k)
unfolding spell_all value_of
setting-parse [] v k h = unfold parse in refl
setting-parse (joined o x ∷ gs) v k (fine, h) =
    ap (λ w. setting w k) (parse-joined o x (spell_all gs) v fine)
    ∙ setting-parse gs (assign o x v) k h
    ∙ ap (value_of gs k) (setting-assign o x v k)
setting-parse (spaced o x ∷ gs) v k (fine, h) =
    ap (λ w. setting w k) (parse-spaced o x (spell_all gs) v fine)
    ∙ setting-parse gs (assign o x v) k h
    ∙ ap (value_of gs k) (setting-assign o x v k)

absent : String → Option String → Bool
absent k none = true
absent k (some x) = false

none_of_absent : (k : String) (x : Option String) → absent k x ≡ true → x ≡ none
unfolding absent
none_of_absent k none h = refl
none_of_absent k (some x) h = cc

no_defaults : all_rows absent (settings defaults) ≡ true
unfolding absent settings
no_defaults = refl

setting-defaults : (k : String) → setting defaults k ≡ none
setting-defaults k = elim (switch_sound absent (settings defaults) none k no_defaults) [
  | inl found ↦ none_of_absent k (setting defaults k) found
  | inr missing ↦ missing
]

-- Behind mount options that can be read, in whatever order and however often each is given, every
-- key has the value that the table of the sixteen mount options says. The last text or number of an
-- option wins, where an empty text and the number -1 stand for none; `--fuse-mount-option` gives the
-- list of its texts, with commas between them; `--dir-mode` and `--file-mode` give the octal number
-- behind a 0, and the other numbers are written in decimal; `--implicit-dirs` gives "true". A key that
-- no mount option gives a value keeps the one that it had. A value stands behind `=` or in an argument
-- of its own.
pub lookup-merge_mount_options_given :
    (a : Dict String) (gs : List Given) (k : String)
    → AllReadable gs
    → lookup k (merge_mount_options a (spell_all gs)) ≡ or_else (value_of gs k none) (lookup k a)
lookup-merge_mount_options_given a gs k h =
    lookup-merge_mount_options a (spell_all gs) k
    ∙ ap (λ value. or_else value (lookup k a))
        (setting-parse gs defaults k h ∙ ap (value_of gs k) (setting-defaults k))
