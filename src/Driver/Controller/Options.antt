-- ===== src/Driver/Controller/Options.antt =====
-- Which of the places where an option can be given wins, and what the node makes of the options that
-- `CreateVolume` has found.
use csi_gcs.Base.{
  String, ◌∙◌, ◌≡◌, refl, sym, ap, arith, false, Option, none, some, or_else, eq_iff, List, [], ◌∷◌,
  Dict, lookup, NodupKeys, Bool-cases, inl, inr, if◌then◌else◌,
}
use csi_gcs.Flags.Switches.{is_flag}
use csi_gcs.Flags.Switches.Laws.{annotation_of_flag}
use csi_gcs.Flags.Merge.Laws.{
  lookup-merge_flags, merge_secret-eq-merge_flags, lookup-merge_annotations, merge_flags-NodupKeys,
  merge_annotations-NodupKeys,
}
use csi_gcs.Flags.FlagSet.{parse}
use csi_gcs.Flags.MountOptions.{defaults, formal, merge_mount_options}
use csi_gcs.Flags.MountOptions.Laws.{
  setting, lookup-merge_mount_options, setting_of_not_is_flag, merge_mount_options-NodupKeys,
}
use csi_gcs.World.{World}
use csi_gcs.Driver.Types.{Capability, mount_flags, map_or_empty}
use csi_gcs.Driver.Controller.{
  CreateVolumeRequest, merge_capabilities, default_options, volume_options,
}
use csi_gcs.Driver.Node.{PublishRequest, publish_options}

-- The value of a flag behind the mount flags of the capabilities: the last one that sets it wins.
abbrev pub from_capabilities : List Capability → String → Option String → Option String
from_capabilities [] k before = before
from_capabilities (c ∷ cs) k before =
    from_capabilities cs k (or_else (setting (parse formal (mount_flags c) defaults) k) before)

lookup-merge_capabilities :
    (cs : List Capability) (a : Dict String) (k : String)
    → lookup k (merge_capabilities a cs) ≡ from_capabilities cs k (lookup k a)
unfolding merge_capabilities
lookup-merge_capabilities [] a k = refl
lookup-merge_capabilities (c ∷ cs) a k =
    lookup-merge_capabilities cs (merge_mount_options a (mount_flags c)) k
    ∙ ap (from_capabilities cs k) (lookup-merge_mount_options a (mount_flags c) k)

merge_capabilities-NodupKeys :
    (cs : List Capability) (a : Dict String) → NodupKeys a → NodupKeys (merge_capabilities a cs)
unfolding merge_capabilities
merge_capabilities-NodupKeys [] a u = u
merge_capabilities-NodupKeys (c ∷ cs) a u =
    merge_capabilities-NodupKeys cs _ (merge_mount_options-NodupKeys a (mount_flags c) u)

from_capabilities_of_not_is_flag :
    (cs : List Capability) (k : String) → is_flag k ≡ false → from_capabilities cs k none ≡ none
unfolding or_else
from_capabilities_of_not_is_flag [] k h = refl
from_capabilities_of_not_is_flag (c ∷ cs) k h =
    rw (setting_of_not_is_flag (parse formal (mount_flags c) defaults) k h)
      (from_capabilities_of_not_is_flag cs k h)

-- The defaults set flags alone.
default_options_of_not_is_flag :
    (W : World) (name k : String) → is_flag k ≡ false → lookup k (default_options W name) ≡ none
unfolding lookup is_flag
default_options_of_not_is_flag W name k h = ground (
  arith,
  eq_iff "bucket" k,
  eq_iff "location" k,
  eq_iff "kmsKeyId" k,
  eq_iff k "bucket",
  eq_iff k "location",
  eq_iff k "kmsKeyId",
)

-- The maps of a request and the annotations of the claim are Go maps.
pub record HasMaps (req : CreateVolumeRequest) (annotations : Dict String) : Type 0 where
  pub secrets : NodupKeys req.secrets
  pub parameters : NodupKeys (map_or_empty req.parameters)
  pub claim : NodupKeys annotations

default_options-NodupKeys : (W : World) (name : String) → NodupKeys (default_options W name)
unfolding lookup
default_options-NodupKeys W name = ground (arith)

volume_options-NodupKeys :
    (W : World) (req : CreateVolumeRequest) (annotations : Dict String)
    → NodupKeys (volume_options W req annotations)
unfolding volume_options
volume_options-NodupKeys W req annotations = merge_annotations-NodupKeys _ _ (
    merge_annotations-NodupKeys _ _ (
      merge_capabilities-NodupKeys req.volume_capabilities _ (
        rw merge_secret-eq-merge_flags
          (merge_flags-NodupKeys req.secrets _ (default_options-NodupKeys W req.name)))))

module _ (W : World) (req : CreateVolumeRequest) (annotations : Dict String)
    (maps : HasMaps req annotations) where
  pub lookup-volume_options :
      (k : String)
      → lookup k (volume_options W req annotations) ≡ (
          if is_flag k
          then or_else (lookup (annotation_of_flag k) (map_or_empty req.parameters)) (
              or_else (lookup (annotation_of_flag k) annotations) (
                from_capabilities req.volume_capabilities k
                  (or_else (lookup k req.secrets) (lookup k (default_options W req.name)))))
          else none)
  unfolding volume_options
  lookup-volume_options k = elim (Bool-cases (is_flag k)) [
    | inl flag ↦
        rw
          (
            flag,
            lookup-merge_annotations _ _ k maps.parameters,
            flag,
            lookup-merge_annotations _ _ k maps.claim,
            flag,
            lookup-merge_capabilities,
            merge_secret-eq-merge_flags,
            lookup-merge_flags _ _ k maps.secrets,
            flag,
          )
          refl
    | inr other ↦
        rw
          (
            other,
            lookup-merge_annotations _ _ k maps.parameters,
            other,
            lookup-merge_annotations _ _ k maps.claim,
            other,
            lookup-merge_capabilities,
            merge_secret-eq-merge_flags,
            lookup-merge_flags _ _ k maps.secrets,
            other,
          )
          (rw (default_options_of_not_is_flag W req.name k other)
            (from_capabilities_of_not_is_flag req.volume_capabilities k other))
  ]

  -- If the context of a volume is the options that `CreateVolume` has found, from maps with
  -- distinct keys, then each of these options has the same value in the node's map of options,
  -- whatever the secrets and the mount flags there say.
  pub publish_options-volume_options :
      (preq : PublishRequest) (k v : String)
      → preq.volume_context ≡ some (volume_options W req annotations)
      → lookup k (volume_options W req annotations) ≡ some v
      → lookup k (publish_options preq) ≡ some v
  unfolding publish_options volume_options
  publish_options-volume_options preq k v context found =
      let u = volume_options-NodupKeys W req annotations in
      elim (Bool-cases (is_flag k)) [
        | inl flag ↦
            rw (context, lookup-merge_flags _ (volume_options W req annotations) k u, flag, found)
              (unfold or_else in refl)
        | inr other ↦
            let e : some v ≡ none = sym found ∙ lookup-volume_options k ∙ rw other refl in cc
      ]
