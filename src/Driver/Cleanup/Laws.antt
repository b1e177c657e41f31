-- ===== src/Driver/Cleanup/Laws.antt =====
-- Which deletions `RunPodCleanup` carries out.
use csi_gcs.Base.{◌≡◌, refl, List, [], ◌∷◌}
use csi_gcs.Api.{PublishedVolume}
use csi_gcs.Go.{Outcome, ok, err, bind}
use csi_gcs.World.{World}
use csi_gcs.Util.Cluster.{get_registered_mounts, delete_pod}
use csi_gcs.Driver.Types.{GcsDriver}
use csi_gcs.Driver.Cleanup.{delete_pods, run_pod_cleanup}

module _ (W : World) where
  -- The state behind the deletion of the pod of each record in turn, whatever each of them returns.
  unfoldable pub all_deleted : List PublishedVolume → W.State → W.State
  all_deleted [] s = s
  all_deleted (v ∷ vs) s = all_deleted vs (delete_pod W v.spec.pod.namespace v.spec.pod.name s).1

  delete_pods_lem :
      (vs : List PublishedVolume) (s : W.State) → delete_pods W vs s ≡ (ok tt, all_deleted vs s)
  unfolding delete_pods all_deleted bind
  delete_pods_lem [] s = refl
  delete_pods_lem (v ∷ vs) s = delete_pods_lem vs _

  -- The answer of the list, as the result of the cleanup.
  unfoldable pub after_list :
      Outcome (List PublishedVolume) × W.State → Outcome (Unit {0}) × W.State
  after_list (ok vs, s) = (ok tt, all_deleted vs s)
  after_list (err e, s) = (err e, s)

  after_list_lem :
      (r : Outcome (List PublishedVolume) × W.State) → bind r (delete_pods W) ≡ after_list r
  unfolding bind after_list
  after_list_lem (ok vs, s) = delete_pods_lem vs s
  after_list_lem (err e, s) = refl

  -- `RunPodCleanup` fails if the records of the node cannot be listed, with the error of the list,
  -- and in no other case: it deletes the pod of every record in turn, and a deletion that fails
  -- neither stops it nor makes it fail.
  pub run_pod_cleanup-eq-after_list :
      (d : GcsDriver) (s : W.State)
      → run_pod_cleanup W d s ≡ after_list (get_registered_mounts W d.node_name s)
  unfolding run_pod_cleanup
  run_pod_cleanup-eq-after_list d s = after_list_lem (get_registered_mounts W d.node_name s)
