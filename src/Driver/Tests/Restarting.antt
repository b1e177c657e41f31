-- ===== src/Driver/Tests/Restarting.antt =====
-- A volume that is published, and the cleanup at the next start of the driver.
use csi_gcs.Base.{◌≡◌, refl, true, false, none, some, [], ◌∷◌, lookup}
use csi_gcs.Go.{ok, bind, relabel, reject}
use csi_gcs.World.Laws.Model.{Site, site}
use csi_gcs.World.Laws.Model.Mounting.{
  mounted_at, site-IsMounter, site-IsUnmounted, site-IsApart_mounts,
}
use csi_gcs.World.Laws.Model.Registry.{
  live, site-IsRegistry, site-IsApart_records, site-IsOutside, running_at, site-IsPods,
}
use csi_gcs.Util.Capacity.{bucket_exists}
use csi_gcs.Util.Cluster.{register_mount, get_registered_mounts}
use csi_gcs.Driver.Types.{GcsDriver, new_gcs_driver, mount}
use csi_gcs.Driver.Client.{new_client}
use csi_gcs.Driver.Node.{
  PublishRequest, client_and_key, check_target, record_mount, mount_target, publish_in,
  node_publish_volume,
}
use csi_gcs.Driver.Node.Retry.{node_publish_volume-mounted}
use csi_gcs.Driver.Cleanup.{run_pod_cleanup}
use csi_gcs.Driver.Cleanup.Laws.{after_list, run_pod_cleanup-eq-after_list}
use csi_gcs.Driver.Cleanup.Pods.{node_publish_volume-run_pod_cleanup}
use csi_gcs.Driver.Tests.{start}

abbrev driver : GcsDriver
driver = new_gcs_driver "gcs.csi.ofek.dev" "node" "unix:///csi.sock" "1.0" true

abbrev request : PublishRequest
request = record {
  volume_id = "pv";
  target_path = "/pods/one";
  capability = some (mount []);
  readonly = false;
  secrets = [];
  volume_context = some (
      ("csi.storage.k8s.io/pod.namespace", "default")
      ∷ ("csi.storage.k8s.io/pod.name", "web")
      ∷ []);
}

published : (node_publish_volume site driver request start).0 ≡ ok tt
unfolding new_gcs_driver node_publish_volume client_and_key publish_in bucket_exists check_target
    mount_target record_mount register_mount new_client bind relabel reject
published = refl

abbrev later : Site
later = (node_publish_volume site driver request start).1

cleaned : (run_pod_cleanup site driver later).0 ≡ ok tt
unfolding new_gcs_driver get_registered_mounts after_list bind
cleaned = rw (run_pod_cleanup-eq-after_list site driver later) refl

node_publish_volume-run_pod_cleanup_example :
    running_at (run_pod_cleanup site driver later).1 ("default", "web") ≡ false
unfolding new_gcs_driver lookup
node_publish_volume-run_pod_cleanup_example =
    node_publish_volume-run_pod_cleanup site running_at site-IsPods live site-IsRegistry mounted_at
      site-IsMounter site-IsApart_mounts site-IsUnmounted driver driver request start later refl
      refl refl published refl cleaned

abbrev published_twice : Site
published_twice = record start { is_mounted = λ path. true }

node_publish_volume-mounted_example :
    live (node_publish_volume site driver request published_twice).1 "a" ≡ none
node_publish_volume-mounted_example =
    node_publish_volume-mounted site mounted_at live site-IsMounter site-IsApart_mounts
      site-IsUnmounted site-IsApart_records site-IsOutside driver request published_twice refl "a"
