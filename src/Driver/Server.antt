-- ===== src/Driver/Server.antt =====
-- pkg/driver/driver.go: `Run`. The listener of package net and the server of package grpc are
-- parameters. The server's interceptor writes logs alone and passes each result on.
pub mod Laws
pub mod Model
use csi_gcs.Base.{String, ◌==◌, List, [], ◌∷◌, if◌then◌else◌}
use csi_gcs.Go.{M, Outcome, ◌>>=◌, ◌>>◌, attempt, errorf, pure, reject}
use csi_gcs.World.{World}
use csi_gcs.Util.Endpoint.{Url, parse_endpoint}
use csi_gcs.Driver.Types.{GcsDriver}
use csi_gcs.Driver.Cleanup.{run_pod_cleanup}

-- What is registered with the server.
pub data Service : Type 0 where
  identity_server node_server controller_server : Service

-- `net.Listen` of a scheme and an address, and the server of package grpc: `Serve` with its services.
pub record Network (W : World) : Type 1 where
  pub Listener : Type 0
  pub listen : String → String → M W.State Listener
  pub serve : GcsDriver → List Service → Listener → M W.State (Unit {0})
  -- `Stop` of the server
  pub stop_server : W.State → W.State
  -- `url.Parse`, and `%q` of package fmt
  pub parse_url : String → Outcome Url
  pub quote : String → String

unfoldable pub services : List Service
services = identity_server ∷ node_server ∷ controller_server ∷ []

module _ (W : World) (net : Network W) where
  -- An error of the cleanup reaches the log alone.
  unfoldable pub clean_up : GcsDriver → M W.State (Unit {0})
  clean_up d =
      if d.delete_orphaned_pods then (do r ← attempt (run_pod_cleanup W d); pure tt) else pure tt

  unfoldable pub run : GcsDriver → M W.State (Unit {0})
  run d = do
    reject (d.mount_point == "") (errorf "--bucket-mount-path is required")
    (scheme, address) ← parse_endpoint W net.parse_url net.quote d.endpoint
    listener ← net.listen scheme address
    clean_up d
    net.serve d services listener

  -- Nothing of the driver calls it.
  unfoldable pub stop : W.State → W.State
  stop s = net.stop_server s
