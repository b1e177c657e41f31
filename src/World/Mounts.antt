-- ===== src/World/Mounts.antt =====
-- What the node relies on of the mounter, as hypotheses about a view of the mount points.
use csi_gcs.Base.{String, ◌≡◌, ◌≢◌, Bool, true, false, not, List, ℕ}
use csi_gcs.Api.{PublishedVolume}
use csi_gcs.Go.{Error, is_not_exist, ok, err}
use csi_gcs.World.{World}
use csi_gcs.World.Laws.{Keeps}

-- `mounted` says which paths are mount points. For a mount of gcsfuse the answer of the mounter is
-- exact, a path that is missing is no mount point, and a call that fails touches no other path.
pub record IsMounter (W : World) (mounted : W.State → String → Bool) : Type 0 where
  pub answer_keeps : (p : String) → Keeps mounted (W.is_likely_not_mount_point p)
  pub answer_ok :
      (p : String) (s : W.State) (b : Bool)
      → (W.is_likely_not_mount_point p s).0 ≡ ok b
      → mounted s p ≡ not b
  pub answer_missing :
      (p : String) (s : W.State) (e : Error)
      → (W.is_likely_not_mount_point p s).0 ≡ err e
      → is_not_exist e ≡ true
      → mounted s p ≡ false
  pub mount_ok :
      (source target kind : String) (options : List String) (s : W.State)
      → (W.mount source target kind options s).0 ≡ ok tt
      → mounted (W.mount source target kind options s).1 target ≡ true
  pub mount_other :
      (source target kind : String) (options : List String) (s : W.State) (m : String)
      → target ≢ m
      → mounted (W.mount source target kind options s).1 m ≡ mounted s m
  pub cleanup_ok :
      (p : String) (extensive : Bool) (s : W.State)
      → (W.cleanup_mount_point p extensive s).0 ≡ ok tt
      → mounted (W.cleanup_mount_point p extensive s).1 p ≡ false
  pub cleanup_other :
      (p : String) (extensive : Bool) (s : W.State) (m : String)
      → p ≢ m
      → mounted (W.cleanup_mount_point p extensive s).1 m ≡ mounted s m

-- The other calls of the node mount and unmount nothing.
pub record IsUnmounted {κ} (W : World) (K : Type 0) (V : Type κ) (view : W.State → K → V)
    : Type κ where
  pub mkdir_all_keeps : (p : String) (mode : ℕ) → Keeps view (W.mkdir_all p mode)
  pub first_object_keeps : (c : W.Client) (n : String) → Keeps view (W.first_object c n)
  pub gcs_keeps : (c : W.Config) → Keeps view (W.new_gcs_clientset c)
  pub uid_keeps : (c : W.CoreClientset) (n : String) → Keeps view (W.get_node_uid c n)
  pub create_record_keeps :
      (c : W.GcsClientset) (v : PublishedVolume) → Keeps view (W.create_published_volume c v)
  pub delete_record_keeps :
      (c : W.GcsClientset) (n : String) → Keeps view (W.delete_published_volume c n)
