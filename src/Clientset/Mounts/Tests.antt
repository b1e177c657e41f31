-- ===== src/Clientset/Mounts/Tests.antt =====
-- A mount that is published and cleaned up, with the client set and the small API server.
use csi_gcs.Base.{String, ◌≡◌, refl, true, false, pos, none, some, [], ◌∷◌, Dict, lookup}
use csi_gcs.Go.{ok, bind, relabel, reject}
use csi_gcs.Util.Capacity.{bucket_exists}
use csi_gcs.Util.Cluster.{register_mount, get_registered_mounts}
use csi_gcs.Driver.Client.{new_client}
use csi_gcs.World.Laws.Model.{Site, site}
use csi_gcs.World.Laws.Model.Registry.{running_at, site-IsPods}
use csi_gcs.World.Laws.Model.Mounting.{
  mounted_at, site-IsMounter, site-IsApart_mounts, site-IsUnmounted,
}
use csi_gcs.World.{World}
use csi_gcs.Driver.Types.{GcsDriver, new_gcs_driver, mount}
use csi_gcs.Driver.Node.{
  PublishRequest, client_and_key, check_target, record_mount, mount_target, publish_in,
  node_publish_volume,
}
use csi_gcs.Driver.Cleanup.{run_pod_cleanup}
use csi_gcs.Driver.Cleanup.Laws.{after_list, run_pod_cleanup-eq-after_list}
use csi_gcs.Clientset.Typed
use csi_gcs.Clientset.Typed.{RestConfig, set_config_defaults, published_volumes, rest_client_of}
use csi_gcs.Clientset.PublishedVolumes.{create, list}
use csi_gcs.Clientset.Config.{
  new_for_config, with_limiter, shares_limiter, clients_for, gcs_v1beta1,
}
use csi_gcs.Clientset.Connect.{noted, outcome}
use csi_gcs.Clientset.Server.Model.{server_go}
use csi_gcs.Clientset.Server.Answering.{server_go-IsServer}
use csi_gcs.Clientset.Mounts.{linked, connect-node_publish_volume-run_pod_cleanup}
use csi_gcs.Clientset.Mounts.Model.{server_go-IsMountless}

abbrev config_of : Unit {0} → RestConfig server_go
config_of c = record {
  group_version = none;
  api_path = "";
  negotiated_serializer = none;
  user_agent = "";
  rate_limiter = none;
  qps = true;
  burst = pos 10;
  other = tt;
}

abbrev first_label : Dict String → String
first_label [] = ""
first_label ((key, value) ∷ labels) = value

abbrev cluster : World
cluster = linked site server_go config_of (λ h. h) first_label (server_go-IsServer first_label)

abbrev start : Site
start = record {
  bucket = λ name. some (record { labels = [] });
  exists = λ _. false;
  is_mounted = λ _. false;
  records = [];
  running = λ pod. true;
}

abbrev driver : GcsDriver
driver = new_gcs_driver "gcs.csi.ofek.dev" "node" "unix:///csi.sock" "1.0" true

abbrev request : PublishRequest
request = record {
  volume_id = "pv";
  target_path = "/pods/one";
  capability = some (mount []);
  readonly = false;
  secrets = [];
  volume_context = some (
      ("csi.storage.k8s.io/pod.namespace", "default")
      ∷ ("csi.storage.k8s.io/pod.name", "web")
      ∷ []);
}

published : (node_publish_volume cluster driver request start).0 ≡ ok tt
unfolding new_gcs_driver node_publish_volume client_and_key publish_in bucket_exists check_target
    mount_target record_mount register_mount new_client bind relabel reject noted outcome
    new_for_config with_limiter shares_limiter clients_for Typed.new_for_config set_config_defaults
    create published_volumes rest_client_of gcs_v1beta1
published = refl

abbrev later : Site
later = (node_publish_volume cluster driver request start).1

cleaned : (run_pod_cleanup cluster driver later).0 ≡ ok tt
unfolding new_gcs_driver get_registered_mounts after_list bind noted outcome new_for_config
    with_limiter shares_limiter clients_for Typed.new_for_config set_config_defaults list
    published_volumes rest_client_of gcs_v1beta1
cleaned = rw (run_pod_cleanup-eq-after_list cluster driver later) refl

connect-node_publish_volume-run_pod_cleanup_example :
    running_at (run_pod_cleanup cluster driver later).1 ("default", "web") ≡ false
unfolding new_gcs_driver lookup
connect-node_publish_volume-run_pod_cleanup_example =
    connect-node_publish_volume-run_pod_cleanup site server_go config_of (λ h. h) first_label
      (server_go-IsServer first_label) mounted_at running_at site-IsPods site-IsMounter
      site-IsApart_mounts site-IsUnmounted server_go-IsMountless (λ s n. refl) driver driver request
      start later refl refl refl published refl cleaned
