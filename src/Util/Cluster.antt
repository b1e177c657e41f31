-- ===== src/Util/Cluster.antt =====
-- pkg/util/common.go: what the driver asks of the Kubernetes API. A record of a mount is a
-- `PublishedVolume` whose name is computed from the volume, the path and the node.
pub mod Laws
use csi_gcs.Base.{String, ◌<>◌, List, [], ◌∷◌, Dict}
use csi_gcs.Api.{PublishedVolume}
use csi_gcs.Go.{M, ◌>>=◌, pure}
use csi_gcs.Strconv.{format_uint}
use csi_gcs.World.{World}
use csi_gcs.Util.Crc.{checksum_ieee}

-- `fmt.Sprintf("%s-%s-%s", volumeID, targetPath, node)` and its checksum in base 16
unfoldable pub mount_name : String → String → String → String
mount_name volume_id target_path node =
    format_uint (checksum_ieee (volume_id <> ("-" <> (target_path <> ("-" <> node))))) 16

-- What the driver records of a mount.
unfoldable pub published_volume :
    String → String → String → String → String → Dict String → String → PublishedVolume
published_volume volume_id target_path node pod_namespace pod_name options uid = record {
  name = mount_name volume_id target_path node;
  labels = ("gcs.csi.ofek.dev/node", node) ∷ [];
  owner_references = record { api_version = "v1"; kind = "Node"; name = node; uid = uid } ∷ [];
  spec = record {
    node = node;
    target_path = target_path;
    volume_handle = volume_id;
    options = options;
    pod = record { name = pod_name; namespace = pod_namespace };
  };
}

module _ (W : World) where
  unfoldable pub get_pvc_annotations : String → String → M W.State (Dict String)
  get_pvc_annotations pvc_name pvc_namespace = do
    config ← W.in_cluster_config
    clientset ← W.new_core_clientset config
    W.get_pvc_annotations clientset pvc_namespace pvc_name

  unfoldable pub delete_pod : String → String → M W.State (Unit {0})
  delete_pod namespace name = do
    config ← W.in_cluster_config
    clientset ← W.new_core_clientset config
    W.delete_pod clientset namespace name

  unfoldable pub get_registered_mounts : String → M W.State (List PublishedVolume)
  get_registered_mounts node = do
    config ← W.in_cluster_config
    clientset ← W.new_gcs_clientset config
    W.list_published_volumes clientset (("gcs.csi.ofek.dev/node", node) ∷ [])

  unfoldable pub register_mount :
      String → String → String → String → String → Dict String → M W.State (Unit {0})
  register_mount volume_id target_path node pod_namespace pod_name options = do
    config ← W.in_cluster_config
    clientset ← W.new_gcs_clientset config
    core_clientset ← W.new_core_clientset config
    uid ← W.get_node_uid core_clientset node
    created ←
        W.create_published_volume clientset
          (published_volume volume_id target_path node pod_namespace pod_name options uid)
    pure tt

  unfoldable pub unregister_mount : String → String → String → M W.State (Unit {0})
  unregister_mount volume_id target_path node = do
    config ← W.in_cluster_config
    clientset ← W.new_gcs_clientset config
    W.delete_published_volume clientset (mount_name volume_id target_path node)
