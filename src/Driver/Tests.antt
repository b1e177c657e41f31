-- ===== src/Driver/Tests.antt =====
-- The theorems about the handlers, at a site with one bucket.
mod Succeeding
mod Volumes
mod Serving
mod Sparing
mod Restarting
mod Rejecting
use csi_gcs.Base.{
  String, ◌≡◌, true, refl, ◌==◌, arith, false, Option, none, some, or_else, List, [], ◌∷◌, pos,
  lookup, if◌then◌else◌,
}
use csi_gcs.Flags.Switches.{is_flag}
use csi_gcs.Flags.Switches.Laws.{annotation_of_flag}
use csi_gcs.World.{Attrs}
use csi_gcs.World.Laws.Model.{Site, site}
use csi_gcs.World.Laws.Model.Files.{
  exists_at, spoiled_at, site-IsKeyStore, site-IsSpoiled, site-IsRemote, site-IsRemote_spoiled,
}
use csi_gcs.World.Laws.Model.Mounting.{
  mounted_at, site-IsMounter, site-IsUnmounted, site-IsApart_mounts,
}
use csi_gcs.World.Laws.Model.Storage.{bucket_of, site-IsStorage, site-IsApart}
use csi_gcs.Driver.Types.{GcsDriver, new_gcs_driver, mount}
use csi_gcs.Driver.Controller.{
  CreateVolumeRequest, volume_options, create_volume, delete_volume, controller_expand_volume,
}
use csi_gcs.Driver.Controller.Create.{CreatePost, claim_annotations, create_volume-CreatePost}
use csi_gcs.Driver.Controller.Expand.{
  ExpandPost, controller_expand_volume-ExpandPost, DeletePost, delete_volume-DeletePost,
}
use csi_gcs.Driver.Controller.Options.{
  HasMaps, lookup-volume_options, publish_options-volume_options,
}
use csi_gcs.Driver.Node.{
  PublishRequest, publish_options, node_publish_volume, node_unpublish_volume,
}
use csi_gcs.Driver.Controller.{ExpandVolumeRequest, ValidateRequest, validate_volume_capabilities}
use csi_gcs.Driver.Volumes.Requests.{
  Request, create_volume_request, delete_volume_request, expand_volume_request, validate_request,
  run,
}
use csi_gcs.Driver.Controller.KeyFiles.Handlers.{run-SameFiles}
use csi_gcs.Driver.Controller.Validate.{ValidatePost, validate_volume_capabilities-ValidatePost}
use csi_gcs.Driver.Node.Mounts.{
  MountPost, node_publish_volume-MountPost, node_unpublish_volume-MountPost,
}
use csi_gcs.Util.Cluster.{get_registered_mounts}
use csi_gcs.Driver.Cleanup.{run_pod_cleanup}

abbrev bucket_at : String → Option Attrs
bucket_at n = if n == "pv" then some (record { labels = ("capacity", "1024") ∷ [] }) else none

abbrev start : Site
start = record {
  bucket = bucket_at;
  exists = λ _. false;
  is_mounted = λ _. false;
  records = [];
  running = λ pod. true;
}

abbrev request : CreateVolumeRequest
request = record {
  name = "pv";
  volume_capabilities = mount ("--dir-mode=0755" ∷ []) ∷ [];
  secrets = ("projectId", "project") ∷ ("key", "{}") ∷ [];
  parameters = some (("gcs.csi.ofek.dev/location", "EU") ∷ []);
  required_bytes = some (pos 512);
}

create_volume-CreatePost_example :
    CreatePost site bucket_of site-IsStorage start
      (volume_options site request
        (claim_annotations site bucket_of site-IsStorage site-IsApart request start))
      (pos 512)
      (create_volume site request start)
create_volume-CreatePost_example =
    create_volume-CreatePost site bucket_of site-IsStorage site-IsApart request start (omega arith)

controller_expand_volume-ExpandPost_example :
    ExpandPost site bucket_of site-IsStorage start "pv" (pos 4096) (
      controller_expand_volume site
        (record { volume_id = "pv"; secrets = []; required_bytes = some (pos 4096) })
        start)
controller_expand_volume-ExpandPost_example =
    controller_expand_volume-ExpandPost site bucket_of site-IsStorage site-IsApart
      (record { volume_id = "pv"; secrets = []; required_bytes = some (pos 4096) }) start
      (omega arith)

delete_volume-DeletePost_example :
    DeletePost site bucket_of site-IsStorage start "pv" (delete_volume site "pv" [] start)
delete_volume-DeletePost_example =
    delete_volume-DeletePost site bucket_of site-IsStorage site-IsApart "pv" [] start

request-HasMaps : HasMaps request []
unfolding lookup
request-HasMaps = record { secrets = ground arith; parameters = (refl, tt); claim = tt }

-- The parameters of the storage class give the location.
location_found : lookup "location" (volume_options site request []) ≡ some "EU"
unfolding is_flag annotation_of_flag lookup or_else
location_found = lookup-volume_options site request [] request-HasMaps "location"

abbrev publish_request : PublishRequest
publish_request = record {
  volume_id = "pv";
  target_path = "/pods/one";
  capability = some (mount ("--dir-mode=0700" ∷ []));
  readonly = false;
  secrets = ("key", "{}") ∷ [];
  volume_context = some (volume_options site request []);
}

publish_options-volume_options_example :
    lookup "location" (publish_options publish_request) ≡ some "EU"
publish_options-volume_options_example =
    publish_options-volume_options site request [] request-HasMaps publish_request "location" "EU"
      refl location_found

abbrev cleaner : GcsDriver
cleaner = new_gcs_driver "gcs.csi.ofek.dev" "node" "unix:///csi.sock" "1.0" true

node_publish_volume-MountPost_example :
    MountPost site mounted_at cleaner true start "/pods/one"
      (node_publish_volume site cleaner publish_request start)
node_publish_volume-MountPost_example =
    node_publish_volume-MountPost site mounted_at cleaner site-IsMounter site-IsApart_mounts
      site-IsUnmounted publish_request start

node_unpublish_volume-MountPost_example :
    MountPost site mounted_at cleaner false start "/pods/one"
      (node_unpublish_volume site cleaner "pv" "/pods/one" start)
node_unpublish_volume-MountPost_example =
    node_unpublish_volume-MountPost site mounted_at cleaner site-IsMounter site-IsApart_mounts
      site-IsUnmounted "pv" "/pods/one" start

abbrev expand_request : ExpandVolumeRequest
expand_request = record {
  volume_id = "pv";
  secrets = ("key", "{}") ∷ [];
  required_bytes = some (pos 4096);
}

abbrev asked : ValidateRequest
asked = record {
  volume_id = "pv";
  volume_capabilities = mount [] ∷ [];
  secrets = ("key", "{}") ∷ [];
  volume_context = none;
  parameters = none;
}

validate_volume_capabilities-ValidatePost_example :
    ValidatePost site bucket_of site-IsStorage site-IsApart start asked
      (validate_volume_capabilities site asked start)
validate_volume_capabilities-ValidatePost_example =
    validate_volume_capabilities-ValidatePost site bucket_of site-IsStorage site-IsApart asked start

abbrev mixed : List Request
mixed =
    create_volume_request request
    ∷ expand_volume_request expand_request
    ∷ validate_request asked
    ∷ delete_volume_request "pv" (("key", "{}") ∷ [])
    ∷ []

run-SameFiles_example : exists_at (run site mixed start) "/tmp/keys/key" ≡ false
run-SameFiles_example =
    run-SameFiles site exists_at spoiled_at site-IsKeyStore site-IsSpoiled site-IsRemote
      site-IsRemote_spoiled mixed start "/tmp/keys/key" refl
