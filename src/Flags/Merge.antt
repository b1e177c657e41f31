-- ===== src/Flags/Merge.antt =====
-- pkg/flags/flags.go: the three loops that add a map to the options. A warning in the log is left
-- out. `result = a` is no copy, but each caller gives the map that it replaces by the result.
pub mod Laws
use csi_gcs.Base.{String, [], ◌∷◌, Dict, insert, if◌then◌else◌}
use csi_gcs.Flags.Switches.{is_flag, is_annotation, is_own_annotation, flag_name_from_annotation}

unfoldable pub merge_flags : Dict String → Dict String → Dict String
merge_flags result [] = result
merge_flags result ((k, v) ∷ b) = merge_flags (if is_flag k then insert k v result else result) b

unfoldable pub merge_secret : Dict String → Dict String → Dict String
merge_secret result [] = result
merge_secret result ((k, v) ∷ b) = merge_secret (if is_flag k then insert k v result else result) b

-- One round of the loop of `MergeAnnotations`.
merge_annotation : Dict String → String → String → Dict String
merge_annotation result k v =
    if is_own_annotation k
    then if is_annotation k then insert (flag_name_from_annotation k) v result else result
    else result

unfoldable pub merge_annotations : Dict String → Dict String → Dict String
unfolding merge_annotation
merge_annotations result [] = result
merge_annotations result ((k, v) ∷ b) = merge_annotations (merge_annotation result k v) b
