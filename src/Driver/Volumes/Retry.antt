-- ===== src/Driver/Volumes/Retry.antt =====
-- `CreateVolume` may be called again: CSI asks for the same answer.
use csi_gcs.Base.{String, Dict, Option}
use csi_gcs.World.{World, Attrs}
use csi_gcs.World.Laws.{IsStorage, IsApart}
use csi_gcs.World.Atomic.{IsAtomic}
use csi_gcs.World.Up.{IsUp, IsClusterUp}
use csi_gcs.Driver.Controller.{CreateVolumeRequest}
use csi_gcs.Driver.Controller.Claims.{HasClaim}

module _ (W : World) (bucket : W.State → String → Option Attrs) (storage : IsStorage W bucket)
    (atomic : IsAtomic W bucket) (apart : IsApart W String (Option Attrs) bucket)
    (up : IsUp W bucket) (claim : W.State → String × String → Option (Dict String))
    (cluster : IsClusterUp W claim) where
  abbrev Claimed : CreateVolumeRequest → W.State → Dict String → Type 0
  Claimed req s annotations = HasClaim W bucket storage apart claim cluster req s annotations
