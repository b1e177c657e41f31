-- ===== src/World/Up.antt =====
-- A day on which the outside world answers: the calls of the controller succeed where their subject
-- is there.
use csi_gcs.Base.{String, ◌≡◌, ◌⊎◌, Bool, true, Option, none, some, List, ℕ, Dict}
use csi_gcs.Api.{PublishedVolume}
use csi_gcs.World.Laws.{Keeps}
use csi_gcs.Go.{Error, is_not_exist, ok, err}
use csi_gcs.World.{World, Attrs, NewBucket, ClientOption, Next}

pub record IsUp (W : World) (bucket : W.State → String → Option Attrs) : Type 0 where
  pub credentials_up :
      (s : W.State) → (creds : W.Creds) × ((W.find_default_credentials s).0 ≡ ok creds)
  pub client_up :
      (o : ClientOption W.Creds) (s : W.State) → (c : W.Client) × ((W.new_client o s).0 ≡ ok c)
  pub temp_file_up : (d : String) (s : W.State) → (p : String) × ((W.temp_file d s).0 ≡ ok p)
  pub write_up : (p : String) (b : List ℕ) (s : W.State) → (W.write p b s).0 ≡ ok tt
  pub close_up : (p : String) (s : W.State) → (W.close p s).0 ≡ ok tt
  pub attrs_up :
      (c : W.Client) (n : String) (s : W.State) (a : Attrs)
      → bucket s n ≡ some a
      → (W.bucket_attrs c n s).0 ≡ ok a
  pub create_up :
      (c : W.Client) (n p : String) (b : NewBucket) (s : W.State)
      → bucket s n ≡ none
      → (W.bucket_create c n p b s).0 ≡ ok tt
  pub delete_up :
      (c : W.Client) (n : String) (s : W.State) (a : Attrs)
      → bucket s n ≡ some a
      → (W.bucket_delete c n s).0 ≡ ok tt
  pub set_label_up :
      (c : W.Client) (n k v : String) (s : W.State) (a : Attrs)
      → bucket s n ≡ some a
      → (b : Attrs) × ((W.bucket_set_label c n k v s).0 ≡ ok b)

-- The same for the node. A target is no mount point yet, or it is missing and can be made.
pub record IsNodeUp (W : World) : Type 0 where
  pub first_object_up :
      (c : W.Client) (n : String) (s : W.State) → (x : Next) × ((W.first_object c n s).0 ≡ ok x)
  pub mkdir_all_up : (p : String) (mode : ℕ) (s : W.State) → (W.mkdir_all p mode s).0 ≡ ok tt
  pub answer_up :
      (p : String) (s : W.State)
      → ((b : Bool) × ((W.is_likely_not_mount_point p s).0 ≡ ok b))
        ⊎ ((e : Error) × (is_not_exist e ≡ true) × ((W.is_likely_not_mount_point p s).0 ≡ err e))
  pub mount_up :
      (source target kind : String) (options : List String) (s : W.State)
      → (W.mount source target kind options s).0 ≡ ok tt
  pub cleanup_up :
      (p : String) (extensive : Bool) (s : W.State)
      → (W.cleanup_mount_point p extensive s).0 ≡ ok tt

-- The same for the Kubernetes API: it answers from inside the cluster, with the annotations of each
-- claim that is there, by its namespace and its name.
pub record IsClusterUp (W : World) (claim : W.State → String × String → Option (Dict String))
    : Type 0 where
  pub config_up : (s : W.State) → (c : W.Config) × ((W.in_cluster_config s).0 ≡ ok c)
  pub config_keeps : Keeps claim W.in_cluster_config
  pub core_up :
      (c : W.Config) (s : W.State)
      → (clientset : W.CoreClientset) × ((W.new_core_clientset c s).0 ≡ ok clientset)
  pub core_keeps : (c : W.Config) → Keeps claim (W.new_core_clientset c)
  pub annotations_up :
      (clientset : W.CoreClientset) (namespace name : String) (s : W.State)
      (annotations : Dict String)
      → claim s (namespace, name) ≡ some annotations
      → (W.get_pvc_annotations clientset namespace name s).0 ≡ ok annotations

-- The same for the records of mounts: a name that has no record yet can be given
-- one, and the calls before that leave the records as they are.
pub record IsRecordsUp (W : World) (live : W.State → String → Option PublishedVolume) : Type 0 where
  pub config_up : (s : W.State) → (c : W.Config) × ((W.in_cluster_config s).0 ≡ ok c)
  pub gcs_up :
      (c : W.Config) (s : W.State)
      → (clientset : W.GcsClientset) × ((W.new_gcs_clientset c s).0 ≡ ok clientset)
  pub core_up :
      (c : W.Config) (s : W.State)
      → (clientset : W.CoreClientset) × ((W.new_core_clientset c s).0 ≡ ok clientset)
  pub uid_up :
      (clientset : W.CoreClientset) (node : String) (s : W.State)
      → (uid : String) × ((W.get_node_uid clientset node s).0 ≡ ok uid)
  pub record_up :
      (clientset : W.GcsClientset) (v : PublishedVolume) (s : W.State)
      → live s v.name ≡ none
      → (w : PublishedVolume) × ((W.create_published_volume clientset v s).0 ≡ ok w)
  pub config_keeps : Keeps live W.in_cluster_config
  pub gcs_keeps : (c : W.Config) → Keeps live (W.new_gcs_clientset c)
  pub core_keeps : (c : W.Config) → Keeps live (W.new_core_clientset c)
  pub uid_keeps :
      (clientset : W.CoreClientset) (node : String) → Keeps live (W.get_node_uid clientset node)
  pub first_object_keeps : (c : W.Client) (n : String) → Keeps live (W.first_object c n)
  pub answer_keeps : (p : String) → Keeps live (W.is_likely_not_mount_point p)
  pub mkdir_all_keeps : (p : String) (mode : ℕ) → Keeps live (W.mkdir_all p mode)
  pub mount_keeps :
      (source target kind : String) (options : List String)
      → Keeps live (W.mount source target kind options)
