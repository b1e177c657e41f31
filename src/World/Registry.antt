-- ===== src/World/Registry.antt =====
-- What the driver relies on of the Kubernetes API: the records of mounts, and the pods.
use mathlib.Core.List.{Memᴰ}
use csi_gcs.Base.{String, ◌≡◌, Bool, true, false, Option, none, some, List, [], ◌∷◌, Dict, lookup}
use csi_gcs.Api.{PublishedVolume}
use csi_gcs.Go.{ok}
use csi_gcs.World.{World}
use csi_gcs.World.Laws.{Keeps}

-- A label selector selects what carries all its labels.
abbrev pub Carries : Dict String → PublishedVolume → Type 0
Carries [] v = Unit
Carries ((key, value) ∷ labels) v = (lookup key v.labels ≡ some value) × Carries labels v

-- `live` gives the record of a name, unless its deletion has been asked for. A name has one record.
pub record IsRegistry (W : World) (live : W.State → String → Option PublishedVolume) : Type 0 where
  pub create_ok :
      (c : W.GcsClientset) (v : PublishedVolume) (s : W.State) {w : PublishedVolume}
      → (W.create_published_volume c v s).0 ≡ ok w
      → live (W.create_published_volume c v s).1 v.name ≡ some v
  pub delete_ok :
      (c : W.GcsClientset) (n : String) (s : W.State)
      → (W.delete_published_volume c n s).0 ≡ ok tt
      → live (W.delete_published_volume c n s).1 n ≡ none
  pub list_keeps :
      (c : W.GcsClientset) (labels : Dict String) → Keeps live (W.list_published_volumes c labels)
  pub list_live :
      (c : W.GcsClientset) (labels : Dict String) (s : W.State) (vs : List PublishedVolume)
      (v : PublishedVolume)
      → (W.list_published_volumes c labels s).0 ≡ ok vs
      → live s v.name ≡ some v
      → Carries labels v
      → Memᴰ v vs
  pub config_keeps : Keeps live W.in_cluster_config
  pub gcs_keeps : (c : W.Config) → Keeps live (W.new_gcs_clientset c)

-- Cloud Storage and the questions to the mounter have nothing to do with the records.
pub record IsOutside (W : World) (live : W.State → String → Option PublishedVolume) : Type 0 where
  pub first_object_keeps : (c : W.Client) (n : String) → Keeps live (W.first_object c n)
  pub answer_keeps : (p : String) → Keeps live (W.is_likely_not_mount_point p)

-- `running` says which pods there are, by namespace and name, whose deletion has not been asked for.
-- The API answers, and a pod that runs can be deleted.
pub record IsPods (W : World) (running : W.State → String × String → Bool) : Type 0 where
  pub config_up : (s : W.State) → (c : W.Config) × ((W.in_cluster_config s).0 ≡ ok c)
  pub core_up :
      (c : W.Config) (s : W.State) → (d : W.CoreClientset) × ((W.new_core_clientset c s).0 ≡ ok d)
  pub config_keeps : Keeps running W.in_cluster_config
  pub core_keeps : (c : W.Config) → Keeps running (W.new_core_clientset c)
  pub delete_up :
      (c : W.CoreClientset) (namespace name : String) (s : W.State)
      → running s (namespace, name) ≡ true
      → (W.delete_pod c namespace name s).0 ≡ ok tt
  pub delete_ok :
      (c : W.CoreClientset) (namespace name : String) (s : W.State)
      → (W.delete_pod c namespace name s).0 ≡ ok tt
      → running (W.delete_pod c namespace name s).1 (namespace, name) ≡ false
  pub delete_stays :
      (c : W.CoreClientset) (namespace name : String) (s : W.State) (pod : String × String)
      → running s pod ≡ false
      → running (W.delete_pod c namespace name s).1 pod ≡ false
