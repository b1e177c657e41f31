-- ===== src/Util/Cluster/Laws.antt =====
-- What is registered is listed for its node, until it is unregistered.
use mathlib.Core.List.{Memᴰ}
use csi_gcs.Base.{String, ◌≡◌, refl, Option, none, some, ◌∙◌, List, Dict, lookup}
use csi_gcs.Api.{PublishedVolume}
use csi_gcs.Go.{Outcome, ok}
use csi_gcs.Go.Laws.{bind_post}
use csi_gcs.World.{World}
use csi_gcs.World.Registry.{IsRegistry}
use csi_gcs.Util.Cluster.{
  mount_name, published_volume, register_mount, unregister_mount, get_registered_mounts,
}

module _ (W : World) (live : W.State → String → Option PublishedVolume)
    (registry : IsRegistry W live) where
  open registry use {create_ok, delete_ok, list_keeps, list_live, config_keeps, gcs_keeps}

  -- The record of a mount is there.
  abbrev pub Recorded : String → String → String → String → String → Dict String → W.State → Type 0
  Recorded volume_id target node namespace name options s =
      (uid : String) × (live s (mount_name volume_id target node)
        ≡ some (published_volume volume_id target node namespace name options uid))

  -- Behind a success of `RegisterMount` the record is there.
  pub register_mount-Recorded :
      (volume_id target node namespace name : String) (options : Dict String) (s : W.State)
      → (register_mount W volume_id target node namespace name options s).0 ≡ ok tt
      → Recorded volume_id target node namespace name options
          (register_mount W volume_id target node namespace name options s).1
  unfolding register_mount published_volume
  register_mount-Recorded volume_id target node namespace name options s =
      let P = λ (r : Outcome (Unit {0}) × W.State).
        (r.0 ≡ ok tt) → Recorded volume_id target node namespace name options r.1 in
      bind_post P _ _
        (λ config _.
          bind_post P _ _
            (λ clientset _.
              bind_post P _ _
                (λ core _.
                  bind_post P _ _
                    (λ uid _.
                      bind_post P _ _
                        (λ created done _. (
                          uid,
                          create_ok clientset
                              (published_volume volume_id target node namespace name options uid) _
                              done,
                        ))
                        (λ e _ h. cc))
                    (λ e _ h. cc))
                (λ e _ h. cc))
            (λ e _ h. cc))
        (λ e _ h. cc)

  unregister_mount-none :
      (volume_id target node : String) (s : W.State)
      → (unregister_mount W volume_id target node s).0 ≡ ok tt
      → live (unregister_mount W volume_id target node s).1 (mount_name volume_id target node)
        ≡ none
  unfolding unregister_mount
  unregister_mount-none volume_id target node s =
      let P = λ (r : Outcome (Unit {0}) × W.State).
        (r.0 ≡ ok tt) → live r.1 (mount_name volume_id target node) ≡ none in
      bind_post P _ _
        (λ config _.
          bind_post P _ _ (λ clientset _ done. delete_ok clientset _ _ done) (λ e _ h. cc))
        (λ e _ h. cc)

  -- A record that is there is listed for its node.
  pub get_registered_mounts-Mem :
      (volume_id target node namespace name : String) (options : Dict String) (uid : String)
      (s : W.State) (vs : List PublishedVolume)
      → live s (mount_name volume_id target node)
        ≡ some (published_volume volume_id target node namespace name options uid)
      → (get_registered_mounts W node s).0 ≡ ok vs
      → Memᴰ (published_volume volume_id target node namespace name options uid) vs
  unfolding get_registered_mounts published_volume lookup
  get_registered_mounts-Mem volume_id target node namespace name options uid s vs there =
      let v = published_volume volume_id target node namespace name options uid in
      let P = λ (r : Outcome (List PublishedVolume) × W.State). (r.0 ≡ ok vs) → Memᴰ v vs in
      bind_post P _ _
        (λ config _.
          bind_post P _ _
            (λ clientset _ done.
              list_live clientset _ _ vs v done (gcs_keeps config _ _ ∙ config_keeps s _ ∙ there)
                ((refl, tt)))
            (λ e _ h. cc))
        (λ e _ h. cc)
