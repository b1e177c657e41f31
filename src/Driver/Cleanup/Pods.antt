-- ===== src/Driver/Cleanup/Pods.antt =====
-- Which pods are gone behind `RunPodCleanup`.
use mathlib.Core.List.{Memᴰ}
use csi_gcs.Base.{
  String, ◌≡◌, refl, ◌∙◌, subst, Bool, true, false, Bool-cases, inl, inr, Option, List, [], ◌∷◌,
  Dict,
}
use csi_gcs.Api.{PublishedVolume}
use csi_gcs.Go.{Outcome, ok, err, bind}
use csi_gcs.World.{World}
use csi_gcs.World.Laws.{IsApart}
use csi_gcs.World.Mounts.{IsMounter, IsUnmounted}
use csi_gcs.World.Registry.{IsRegistry, IsPods}
use csi_gcs.Util.Cluster.{mount_name, published_volume, delete_pod, get_registered_mounts}
use csi_gcs.Util.Cluster.Laws.{Recorded, get_registered_mounts-Mem}
use csi_gcs.Driver.Types.{GcsDriver}
use csi_gcs.Driver.Node.{PublishRequest, publish_options, node_publish_volume}
use csi_gcs.Driver.Node.Records.{pod_namespace, pod_name, node_publish_volume-Recorded}
use csi_gcs.Driver.Cleanup.{run_pod_cleanup}
use csi_gcs.Driver.Cleanup.Laws.{all_deleted, after_list, run_pod_cleanup-eq-after_list}

abbrev pod_of : PublishedVolume → String × String
pod_of v = (v.spec.pod.namespace, v.spec.pod.name)

module _ (W : World) (running : W.State → String × String → Bool) (pods : IsPods W running) where
  open pods use {config_up, core_up, config_keeps, core_keeps, delete_up, delete_ok, delete_stays}

  delete_pod_api :
      (P : Outcome (Unit {0}) × W.State → Type 0) (namespace name : String) (s : W.State)
      → ((c : W.CoreClientset) (t : W.State)
          → ((pod : String × String) → running t pod ≡ running s pod)
          → P (W.delete_pod c namespace name t))
      → P (delete_pod W namespace name s)
  unfolding delete_pod bind
  delete_pod_api P namespace name s h =
      let (config, e) = config_up s in
      rw e (
        let (core, e') = core_up config (W.in_cluster_config s).1 in
        rw e' (h core _ (λ pod. core_keeps config _ pod ∙ config_keeps s pod)))

  delete_pod_stays :
      (namespace name : String) (s : W.State) (pod : String × String)
      → running s pod ≡ false
      → running (delete_pod W namespace name s).1 pod ≡ false
  delete_pod_stays namespace name s pod gone =
      delete_pod_api (λ r. running r.1 pod ≡ false) namespace name s
        (λ c t same. delete_stays c namespace name t pod (same pod ∙ gone))

  delete_pod_gone :
      (namespace name : String) (s : W.State)
      → running (delete_pod W namespace name s).1 (namespace, name) ≡ false
  delete_pod_gone namespace name s =
      delete_pod_api (λ r. running r.1 (namespace, name) ≡ false) namespace name s
        (λ c t same. elim (Bool-cases (running t (namespace, name))) [
          | inl there ↦ delete_ok c namespace name t (delete_up c namespace name t there)
          | inr gone ↦ delete_stays c namespace name t (namespace, name) gone
        ])

  all_deleted_stays :
      (vs : List PublishedVolume) (s : W.State) (pod : String × String)
      → running s pod ≡ false
      → running (all_deleted W vs s) pod ≡ false
  unfolding all_deleted
  all_deleted_stays [] s pod gone = gone
  all_deleted_stays (v ∷ vs) s pod gone =
      all_deleted_stays vs _ pod (delete_pod_stays _ _ s pod gone)

  all_deleted_gone :
      (vs : List PublishedVolume) (s : W.State) (v : PublishedVolume)
      → Memᴰ v vs
      → running (all_deleted W vs s) (pod_of v) ≡ false
  unfolding all_deleted
  all_deleted_gone [] s v m = elim m [ ]
  all_deleted_gone (w ∷ vs) s v (Memᴰ.head e) = all_deleted_stays vs _ (pod_of v) (
      subst
        (λ w. running (delete_pod W w.spec.pod.namespace w.spec.pod.name s).1 (pod_of v) ≡ false) e
        (delete_pod_gone _ _ s))
  all_deleted_gone (w ∷ vs) s v (Memᴰ.tail m) = all_deleted_gone vs _ v m

  after_list_gone :
      (r : Outcome (List PublishedVolume) × W.State) (v : PublishedVolume)
      → ((vs : List PublishedVolume) → r.0 ≡ ok vs → Memᴰ v vs)
      → (after_list W r).0 ≡ ok tt
      → running (after_list W r).1 (pod_of v) ≡ false
  unfolding after_list
  after_list_gone (ok vs, s) v listed done = all_deleted_gone vs s v (listed vs refl)
  after_list_gone (err e, s) v listed done = cc

  module _ (live : W.State → String → Option PublishedVolume) (registry : IsRegistry W live) where
    run_pod_cleanup-Recorded :
        (d : GcsDriver) (volume_id target namespace name : String) (options : Dict String)
        (s : W.State)
        → Recorded W live registry volume_id target d.node_name namespace name options s
        → (run_pod_cleanup W d s).0 ≡ ok tt
        → running (run_pod_cleanup W d s).1 (namespace, name) ≡ false
    unfolding published_volume
    run_pod_cleanup-Recorded d volume_id target namespace name options s (uid, there) =
        let v = published_volume volume_id target d.node_name namespace name options uid in
        rw (run_pod_cleanup-eq-after_list W d s) (
          after_list_gone (get_registered_mounts W d.node_name s) v (λ vs e.
            get_registered_mounts-Mem W live registry volume_id target d.node_name namespace name
              options uid s vs there e))

    -- If `NodePublishVolume` succeeds on a target that was no mount point, for a driver that is to
    -- delete orphaned pods, and the driver of the same node is later started while the record of the
    -- mount is still there, then a `RunPodCleanup` that succeeds leaves the pod of the request not
    -- running. The mounter, the records and the pods are as `IsMounter`, `IsRegistry` and `IsPods`
    -- describe them, and the other calls mount nothing (`IsApart`, `IsUnmounted`).
    pub node_publish_volume-run_pod_cleanup :
        (mounted : W.State → String → Bool) (mounter : IsMounter W mounted)
        (apart : IsApart W String Bool mounted) (unmounted : IsUnmounted W String Bool mounted)
        (driver restarted : GcsDriver) (req : PublishRequest) (s t : W.State)
        → driver.delete_orphaned_pods ≡ true
        → restarted.node_name ≡ driver.node_name
        → mounted s req.target_path ≡ false
        → (node_publish_volume W driver req s).0 ≡ ok tt
        → (let name = mount_name req.volume_id req.target_path driver.node_name in
            live t name ≡ live (node_publish_volume W driver req s).1 name)
        → (run_pod_cleanup W restarted t).0 ≡ ok tt
        → running (run_pod_cleanup W restarted t).1 (pod_namespace req, pod_name req) ≡ false
    node_publish_volume-run_pod_cleanup mounted mounter apart unmounted driver restarted req s t
          cleaning same free published still =
        let (uid, there) =
          node_publish_volume-Recorded W mounted live driver mounter apart unmounted registry
            cleaning req s free published in
        run_pod_cleanup-Recorded restarted req.volume_id req.target_path (pod_namespace req)
          (pod_name req) (publish_options req) t (rw same (uid, still ∙ there))
