-- ===== src/Flags/MountOptions/Laws.antt =====
-- What the options hold after `MergeMountOptions`.
use csi_gcs.Base.{
  String, Bool, true, false, ◌==◌, ◌≡◌, refl, eq_iff, arith, Option, none, some, or_else, List, [],
  ◌∷◌, Dict, lookup, insert, lookup-insert, insert-NodupKeys, NodupKeys, if◌then◌else◌, pos, inl,
  inr, ◌∙◌,
}
use csi_gcs.Base.Switch.{switch, all_rows, switch_sound}
use csi_gcs.Strconv.{err_syntax, parse_int, format_bits, format_uint, format_int}
use csi_gcs.Flags.Names.{flag_dir_mode}
use csi_gcs.Flags.Switches.{is_flag}
use csi_gcs.Flags.FlagSet.{parse, parse_one, read_arg, read_name, split_equals}
use csi_gcs.Flags.MountOptions.{
  Vars, defaults, formal, settings, put, put_settings, merge_mount_options,
}

-- The value that the variables give to a flag, if one does.
abbrev pub setting : Vars → String → Option String
setting v flag = switch (settings v) none flag

settings-NodupKeys : (v : Vars) → NodupKeys (settings v)
unfolding settings lookup
settings-NodupKeys v = ground arith

lookup-put :
    (k flag : String) (value : Option String) (a : Dict String)
    → lookup k (put flag value a) ≡ (if flag == k then or_else value (lookup k a) else lookup k a)
unfolding put or_else
lookup-put k flag none a = ground arith
lookup-put k flag (some value) a = lookup-insert flag k value a

switch_of_lookup :
    (k : String) (rows : Dict (Option String)) → lookup k rows ≡ none → switch rows none k ≡ none
unfolding lookup
switch_of_lookup k [] h = refl
switch_of_lookup k ((j, v) ∷ rows) h =
    ground (arith, eq_iff j k, eq_iff k j, switch_of_lookup k rows)

lookup-put_settings :
    (k : String) (rows : Dict (Option String)) (a : Dict String)
    → NodupKeys rows
    → lookup k (put_settings a rows) ≡ or_else (switch rows none k) (lookup k a)
unfolding put_settings or_else
lookup-put_settings k [] a u = refl
lookup-put_settings k ((j, value) ∷ rows) a (fresh, u) =
    rw (lookup-put_settings k rows (put j value a) u, lookup-put)
      (ground (arith, eq_iff j k, eq_iff k j, switch_of_lookup j rows fresh))

-- Behind the mount options a flag has the value that the parsed variables give it, and every key
-- that they set no value for keeps its value.
pub lookup-merge_mount_options :
    (a : Dict String) (b : List String) (k : String)
    → lookup k (merge_mount_options a b)
      ≡ or_else (setting (parse formal b defaults) k) (lookup k a)
unfolding merge_mount_options
lookup-merge_mount_options a b k = lookup-put_settings k _ a (settings-NodupKeys _)

put_settings-NodupKeys :
    (rows : Dict (Option String)) (a : Dict String) → NodupKeys a → NodupKeys (put_settings a rows)
unfolding put_settings put
put_settings-NodupKeys [] a u = u
put_settings-NodupKeys ((k, none) ∷ rows) a u = put_settings-NodupKeys rows a u
put_settings-NodupKeys ((k, some v) ∷ rows) a u =
    put_settings-NodupKeys rows (insert k v a) (insert-NodupKeys k v a u)

pub merge_mount_options-NodupKeys :
    (a : Dict String) (b : List String) → NodupKeys a → NodupKeys (merge_mount_options a b)
unfolding merge_mount_options
merge_mount_options-NodupKeys a b u = put_settings-NodupKeys _ a u

flag_row : String → Option String → Bool
flag_row k v = is_flag k

settings_rows : (v : Vars) → all_rows flag_row (settings v) ≡ true
unfolding flag_row settings is_flag
settings_rows v = refl

-- The mount options set flags alone.
pub setting_of_not_is_flag : (v : Vars) (k : String) → is_flag k ≡ false → setting v k ≡ none
unfolding flag_row
setting_of_not_is_flag v k h = elim (switch_sound flag_row (settings v) none k (settings_rows v)) [
  | inl flag ↦ cc
  | inr missing ↦ missing
]

-- If the first mount option is `--dir-mode` with a text behind it that is no octal number (a syntax
-- error for `ParseInt`, beside a 0), then the directory mode becomes "00", with no permission at all,
-- whatever it was before, and the options behind it are not read.
pub dir_mode_malformed :
    (a : Dict String) (text : String) (rest : List String)
    → parse_int text 8 ≡ (pos 0, some err_syntax)
    → (parse formal ("--dir-mode" ∷ text ∷ rest) defaults ≡ record defaults { dir_mode = pos 0 })
      × (lookup flag_dir_mode (merge_mount_options a ("--dir-mode" ∷ text ∷ rest)) ≡ some "00")
dir_mode_malformed a text rest h =
    let e : parse formal ("--dir-mode" ∷ text ∷ rest) defaults
        ≡ record defaults { dir_mode = pos 0 } =
      unfold formal parse parse_one read_arg read_name split_equals in rw h refl in
    (
      e,
      lookup-merge_mount_options a ("--dir-mode" ∷ text ∷ rest) flag_dir_mode
          ∙ rw e (unfold settings format_int format_uint format_bits or_else in refl),
    )
