-- ===== src/Driver/Node/Succeeds.antt =====
-- When the handlers of the node succeed.
use csi_gcs.Base.{
  String, ◌==◌, ◌≡◌, ◌⊎◌, none, refl, Bool, true, false, Option, inl, inr, Bool-cases,
}
use csi_gcs.Go.{ok, bind, reject}
use csi_gcs.Go.Laws.{bind_ok, relabel_ok_of}
use csi_gcs.World.{World, Attrs}
use csi_gcs.Api.{PublishedVolume}
use csi_gcs.World.Laws.{Keeps, IsStorage, IsApart}
use csi_gcs.World.Up.{IsUp, IsNodeUp, IsRecordsUp}
use csi_gcs.Util.Cluster.{mount_name}
use csi_gcs.Driver.Types.{GcsDriver}
use csi_gcs.Driver.Node.{forget_mount, unmount_target, unpublish_answer, node_unpublish_volume}

module _ (W : World) (bucket : W.State → String → Option Attrs) (storage : IsStorage W bucket)
    (apart : IsApart W String (Option Attrs) bucket) (up : IsUp W bucket) (node : IsNodeUp W)
    (driver : GcsDriver) where
  open up use {credentials_up, client_up}
  open node use {first_object_up, mkdir_all_up, answer_up, mount_up, cleanup_up}

  forget_mount_ok :
      (volume_id target : String) (s : W.State)
      → (forget_mount W driver volume_id target s).0 ≡ ok tt
  unfolding forget_mount bind
  forget_mount_ok volume_id target s = elim (Bool-cases driver.delete_orphaned_pods) [
    | inl on ↦ rw on refl
    | inr off ↦ rw off refl
  ]

  unmount_target_ok :
      (volume_id target : String) (b : Bool) (s : W.State)
      → (unmount_target W driver volume_id target b s).0 ≡ ok tt
  unfolding unmount_target
  unmount_target_ok volume_id target true s = refl
  unmount_target_ok volume_id target false s =
      bind_ok _ _ (relabel_ok_of _ _ (cleanup_up target false s))
        (forget_mount_ok volume_id target _)

  -- On a day on which all calls are answered, `NodeUnpublishVolume` succeeds for every volume id
  -- and target path that are given, whether the target is a mount point, none, or missing, and also
  -- if the record of the mount cannot be deleted. The hypotheses are `IsStorage`, `IsApart`, `IsUp`
  -- and `IsNodeUp`.
  pub node_unpublish_volume_of_IsNodeUp :
      (volume_id target : String) (s : W.State)
      → (volume_id == "") ≡ false
      → (target == "") ≡ false
      → (node_unpublish_volume W driver volume_id target s).0 ≡ ok tt
  unfolding node_unpublish_volume unpublish_answer reject bind
  node_unpublish_volume_of_IsNodeUp volume_id target s named targeted = elim (answer_up target s) [
    | inl (b, answer) ↦ rw (named, targeted, answer) (unmount_target_ok volume_id target b _)
    | inr (e, missing, failed) ↦ rw (named, targeted, failed, missing) refl
  ]

  module _ (live : W.State → String → Option PublishedVolume) (records : IsRecordsUp W live)
      (apart_records : IsApart W String (Option PublishedVolume) live) where
    open records use {
      config_up, gcs_up, core_up, uid_up, record_up, config_keeps, gcs_keeps, core_keeps, uid_keeps,
      first_object_keeps, answer_keeps, mkdir_all_keeps, mount_keeps,
    }

    -- If the driver records mounts, then there is no record of this one.
    abbrev pub Unrecorded : String → String → W.State → Type 0
    Unrecorded volume_id target s =
        (driver.delete_orphaned_pods ≡ false)
        ⊎ (live s (mount_name volume_id target driver.node_name) ≡ none)
