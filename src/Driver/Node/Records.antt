-- ===== src/Driver/Node/Records.antt =====
-- What `NodePublishVolume` records of a mount.
use csi_gcs.Base.{String, ◌≡◌, refl, ◌∙◌, Bool, true, false, Option, Dict, lookup}
use csi_gcs.Api.{PublishedVolume}
use csi_gcs.Go.{Outcome, ok}
use csi_gcs.Go.Laws.{bind_post, call_post, reject_post}
use csi_gcs.World.{World}
use csi_gcs.World.Laws.{IsApart}
use csi_gcs.World.Mounts.{IsMounter, IsUnmounted}
use csi_gcs.World.Registry.{IsRegistry}
use csi_gcs.Flags.Names.{flag_bucket}
use csi_gcs.Util.Cluster.Laws.{Recorded, register_mount-Recorded}
use csi_gcs.Driver.Types.{GcsDriver, text_or_empty, map_or_empty}
use csi_gcs.Driver.Node.{
  PublishRequest, publish_options, record_mount, mount_target, publish_in, node_publish_volume,
}
use csi_gcs.Driver.Node.Keeps.{client_and_key-Keeps, bucket_exists-Keeps}
use csi_gcs.Driver.Node.Mounts.{check_target_post}

-- The pod that a request names.
abbrev pub pod_namespace : PublishRequest → String
pod_namespace req =
    text_or_empty (lookup "csi.storage.k8s.io/pod.namespace" (map_or_empty req.volume_context))

abbrev pub pod_name : PublishRequest → String
pod_name req =
    text_or_empty (lookup "csi.storage.k8s.io/pod.name" (map_or_empty req.volume_context))

module _ (W : World) (mounted : W.State → String → Bool)
    (live : W.State → String → Option PublishedVolume) (driver : GcsDriver)
    (mounter : IsMounter W mounted) (apart : IsApart W String Bool mounted)
    (unmounted : IsUnmounted W String Bool mounted) (registry : IsRegistry W live)
    (cleaning : driver.delete_orphaned_pods ≡ true) where
  abbrev Remembers : PublishRequest → Dict String → Outcome (Unit {0}) × W.State → Type 0
  Remembers req options r =
      (r.0 ≡ ok tt)
      → Recorded W live registry req.volume_id req.target_path driver.node_name (pod_namespace req)
          (pod_name req) options r.1

  record_mount-Remembers :
      (req : PublishRequest) (options : Dict String) (s : W.State)
      → Remembers req options (record_mount W driver req options s)
  unfolding record_mount
  record_mount-Remembers req options s = rw cleaning (
      register_mount-Recorded W live registry req.volume_id req.target_path driver.node_name
        (pod_namespace req) (pod_name req) options s)

  mount_target-Remembers :
      (req : PublishRequest) (options : Dict String) (key_file : String) (b : Bool) (s : W.State)
      → b ≡ true
      → Remembers req options (mount_target W driver req options key_file b s)
  unfolding mount_target
  mount_target-Remembers req options key_file true s on =
      call_post (Remembers req options) _ _ _ (λ _ _. record_mount-Remembers req options _)
        (λ e _ h. cc)
  mount_target-Remembers req options key_file false s on = cc

  not_mounted : (b : Bool) {now : Bool} → now ≡ false → (b ≡ false → now ≡ true) → b ≡ true
  not_mounted true free there = refl
  not_mounted false free there = let on = there refl in cc

  publish_in-Remembers :
      (req : PublishRequest) (options : Dict String) (c : W.Client × String) (s : W.State)
      → mounted s req.target_path ≡ false
      → Remembers req options (publish_in W driver req options c s)
  unfolding publish_in
  publish_in-Remembers req options (client, key_file) s free =
      let P = Remembers req options in
      let p = req.target_path in
      let kept =
        bucket_exists-Keeps W apart unmounted client (text_or_empty (lookup flag_bucket options)) s
          p in
      call_post P _ _ _
        (λ found _.
          reject_post P _ _ _ _ (λ _ h. cc)
            λ _.
              check_target_post W mounted driver mounter apart unmounted P p _ _
                (λ b t same there.
                  mount_target-Remembers req options key_file b t
                    (not_mounted b (same p ∙ kept ∙ free) there))
                (λ e t same h. cc))
        (λ e _ h. cc)

  -- Behind a success of `NodePublishVolume` on a target that was no mount point, the record of the
  -- mount is there, with the pod that the request names.
  pub node_publish_volume-Recorded :
      (req : PublishRequest) (s : W.State)
      → mounted s req.target_path ≡ false
      → (node_publish_volume W driver req s).0 ≡ ok tt
      → Recorded W live registry req.volume_id req.target_path driver.node_name
          (pod_namespace req)
          (pod_name req)
          (publish_options req)
          (node_publish_volume W driver req s).1
  unfolding node_publish_volume
  node_publish_volume-Recorded req s free =
      let P = Remembers req (publish_options req) in
      reject_post P _ _ s _ (λ _ h. cc)
        λ _.
          reject_post P _ _ s _ (λ _ h. cc)
            λ _.
              reject_post P _ _ s _ (λ _ h. cc)
                λ _.
                  reject_post P _ _ s _ (λ _ h. cc)
                    λ _.
                      bind_post P _ _
                        (λ c _.
                          publish_in-Remembers req (publish_options req) c _
                            (client_and_key-Keeps W apart req.secrets s req.target_path ∙ free))
                        (λ e _ h. cc)
