-- ===== src/Driver/Identity.antt =====
-- pkg/driver/identity.go, and the handlers of controller.go and node.go that only answer.
use csi_gcs.Base.{String, ◌<>◌, List, [], ◌∷◌}
use csi_gcs.Go.{unimplemented, Error, status}
use csi_gcs.Driver.Types.{GcsDriver}

pub record PluginInfo : Type 0 where
  pub name : String
  pub vendor_version : String

pub data PluginCapability : Type 0 where
  controller_service : PluginCapability

-- The capabilities of the controller and of the node.
pub data Rpc : Type 0 where
  create_delete_volume expand_volume : Rpc

-- `driverVersion` is set by the build.
unfoldable pub get_plugin_info : String → GcsDriver → PluginInfo
get_plugin_info driver_version d = record { name = d.name; vendor_version = driver_version }

unfoldable pub get_plugin_capabilities : List PluginCapability
get_plugin_capabilities = controller_service ∷ []

unfoldable pub controller_get_capabilities : List Rpc
controller_get_capabilities = create_delete_volume ∷ expand_volume ∷ []

unfoldable pub node_get_capabilities : List Rpc
node_get_capabilities = expand_volume ∷ []

unfoldable pub node_get_info : GcsDriver → String
node_get_info d = d.node_name

-- The calls of the controller service that are not implemented.
pub data ControllerCall : Type 0 where
  controller_publish_volume controller_unpublish_volume get_capacity list_volumes : ControllerCall
  create_snapshot delete_snapshot list_snapshots : ControllerCall

unfoldable pub controller_unimplemented : ControllerCall → Error
controller_unimplemented call = status unimplemented ""

-- The calls of the node service that are not implemented.
pub data NodeCall : Type 0 where
  node_stage_volume node_unstage_volume node_get_volume_stats : NodeCall

abbrev call_name : NodeCall → String
call_name node_stage_volume = "NodeStageVolume"
call_name node_unstage_volume = "NodeUnstageVolume"
call_name node_get_volume_stats = "NodeGetVolumeStats"

unfoldable pub node_unimplemented : GcsDriver → NodeCall → Error
node_unimplemented d call =
    status unimplemented (call_name call <> (": not implemented by " <> d.name))
