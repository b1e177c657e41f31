-- ===== src/Driver/Cleanup.antt =====
-- pkg/driver/driver.go: `RunPodCleanup` deletes the pods whose mounts the last run of the driver on
-- this node recorded.
pub mod Laws
pub mod Pods
pub mod Spared
use csi_gcs.Base.{List, [], ◌∷◌}
use csi_gcs.Api.{PublishedVolume}
use csi_gcs.Go.{M, ◌>>=◌, attempt, pure}
use csi_gcs.World.{World}
use csi_gcs.Util.Cluster.{get_registered_mounts, delete_pod}
use csi_gcs.Driver.Types.{GcsDriver}

module _ (W : World) where
  -- The loop over the records: an error of one deletion reaches the log alone.
  unfoldable pub delete_pods : List PublishedVolume → M W.State (Unit {0})
  delete_pods [] = pure tt
  delete_pods (v ∷ vs) = do
    r ← attempt (delete_pod W v.spec.pod.namespace v.spec.pod.name)
    delete_pods vs

  unfoldable pub run_pod_cleanup : GcsDriver → M W.State (Unit {0})
  run_pod_cleanup d = do
    published_volumes ← get_registered_mounts W d.node_name
    delete_pods published_volumes
