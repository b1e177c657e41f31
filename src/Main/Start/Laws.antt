-- ===== src/Main/Start/Laws.antt =====
-- What the command starts the driver with.
use csi_gcs.Base.{false, ◌≡◌, List}
use csi_gcs.World.{World}
use csi_gcs.Driver.Server.{Network}
use csi_gcs.Main.Flags.{Variables}
use csi_gcs.Main.Flags.Laws.{env_or}
use csi_gcs.Main.Flags.Final.{read_bool}
use csi_gcs.Main.Start.{Process}
use csi_gcs.Main.Start.Arguments.{
  Argument, node_name_of, driver_name_of, csi_endpoint_of, version_of, delete_orphaned_pods_of,
  last_given,
}

module _ (W : World) (net : Network W) {K : Type 0} (p : Process K) where
  -- The last argument for a flag wins over the environment, which wins over the default.
  pub record Chosen (given : List Argument) (v : Variables K) : Type 0 where
    pub node_name :
        v.node_name
        ≡ last_given node_name_of given (env_or (p.getenv "NODE_NAME") (λ text. text) "")
    pub driver_name :
        v.driver_name
        ≡ last_given driver_name_of given
            (env_or (p.getenv "DRIVER_NAME") (λ text. text) "gcs.csi.ofek.dev")
    pub endpoint :
        v.endpoint
        ≡ last_given csi_endpoint_of given
            (env_or (p.getenv "CSI_ENDPOINT") (λ text. text) "unix:///csi/csi.sock")
    pub version :
        v.version ≡ last_given version_of given (env_or (p.getenv "VERSION") read_bool false)
    pub delete_orphaned_pods :
        v.delete_orphaned_pods
        ≡ last_given delete_orphaned_pods_of given
            (env_or (p.getenv "DELETE_ORPHANED_PODS") read_bool false)
