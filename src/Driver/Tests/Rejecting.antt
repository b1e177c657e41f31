-- ===== src/Driver/Tests/Rejecting.antt =====
-- Requests that are rejected.
use csi_gcs.Base.{refl, false, none, some, [], ◌∷◌}
use csi_gcs.World.Laws.Model.{site}
use csi_gcs.Driver.Types.{block, mount, only_mounts}
use csi_gcs.Driver.Controller.{CreateVolumeRequest, create_volume}
use csi_gcs.Driver.Node.{PublishRequest, node_publish_volume}
use csi_gcs.Driver.Rejects.{Rejected, create_volume-Rejected, node_publish_volume-Rejected}
use csi_gcs.Driver.Tests.{start, cleaner}

abbrev block_request : CreateVolumeRequest
block_request = record {
  name = "pv";
  volume_capabilities = mount [] ∷ block ∷ [];
  secrets = [];
  parameters = none;
  required_bytes = none;
}

create_volume-Rejected_example : Rejected (create_volume site block_request) start
unfolding only_mounts
create_volume-Rejected_example = create_volume-Rejected site block_request start refl

abbrev targetless : PublishRequest
targetless = record {
  volume_id = "pv";
  target_path = "";
  capability = some (mount []);
  readonly = false;
  secrets = [];
  volume_context = none;
}

node_publish_volume-Rejected_example : Rejected (node_publish_volume site cleaner targetless) start
node_publish_volume-Rejected_example =
    node_publish_volume-Rejected site cleaner targetless start refl
