-- ===== src/World/Laws.antt =====
-- What the driver relies on of the outside world, as hypotheses about a view of its state.
pub mod Model
pub mod Answering
use csi_gcs.Base.{
  ℕ, String, ◌==◌, ◌≡◌, ◌≢◌, Bool, true, false, Option, none, some, List, [], Dict, insert,
  if◌then◌else◌,
}
use csi_gcs.Go.{Outcome, ok, M}
use csi_gcs.Go.Path.{clean, dir}
use csi_gcs.World.{World, Attrs, NewBucket, ClientOption}

-- A call that leaves a view of the state as it was, whether it fails or not.
abbrev pub Keeps {κ} : {S K A : Type 0} {V : Type κ} → (S → K → V) → M S A → Type κ
Keeps view m = (s : _) (k : _) → view (m s).1 k ≡ view s k

-- The buckets of the project, with their labels, as Google Cloud Storage documents its calls. A call
-- that fails may or may not have been carried out, but it touches no other bucket.
pub record IsStorage (W : World) (bucket : W.State → String → Option Attrs) : Type 0 where
  pub attrs_ok :
      (c : W.Client) (n : String) (s : W.State) (a : Attrs)
      → (W.bucket_attrs c n s).0 ≡ ok a
      → bucket s n ≡ some a
  pub attrs_keeps : (c : W.Client) (n : String) → Keeps bucket (W.bucket_attrs c n)
  pub create_ok :
      (c : W.Client) (n p : String) (b : NewBucket) (s : W.State)
      → (W.bucket_create c n p b s).0 ≡ ok tt
      → bucket (W.bucket_create c n p b s).1 n ≡ some (record { labels = [] })
  pub create_other :
      (c : W.Client) (n p : String) (b : NewBucket) (s : W.State) (m : String)
      → n ≢ m
      → bucket (W.bucket_create c n p b s).1 m ≡ bucket s m
  pub delete_ok :
      (c : W.Client) (n : String) (s : W.State)
      → (W.bucket_delete c n s).0 ≡ ok tt
      → bucket (W.bucket_delete c n s).1 n ≡ none
  pub delete_other :
      (c : W.Client) (n : String) (s : W.State) (m : String)
      → n ≢ m
      → bucket (W.bucket_delete c n s).1 m ≡ bucket s m
  pub set_label_ok :
      (c : W.Client) (n k v : String) (s : W.State) (old new : Attrs)
      → (W.bucket_set_label c n k v s).0 ≡ ok new
      → bucket s n ≡ some old
      → bucket (W.bucket_set_label c n k v s).1 n ≡ some (record { labels = insert k v old.labels })
  pub set_label_other :
      (c : W.Client) (n k v : String) (s : W.State) (m : String)
      → n ≢ m
      → bucket (W.bucket_set_label c n k v s).1 m ≡ bucket s m

-- The calls before a handler comes to its bucket leave a view as it is.
pub record IsApart {κ} (W : World) (K : Type 0) (V : Type κ) (view : W.State → K → V) : Type κ where
  pub credentials_keeps : Keeps view W.find_default_credentials
  pub client_keeps : (o : ClientOption W.Creds) → Keeps view (W.new_client o)
  pub mkdir_keeps :
      (d : String) (mode : ℕ) (s : W.State) (k : K) → view (W.mkdir d mode s) k ≡ view s k
  pub temp_file_keeps : (d : String) → Keeps view (W.temp_file d)
  pub write_keeps : (p : String) (b : List ℕ) → Keeps view (W.write p b)
  pub close_keeps : (p : String) → Keeps view (W.close p)
  pub remove_keeps : (p : String) → Keeps view (W.remove p)
  pub config_keeps : Keeps view W.in_cluster_config
  pub core_keeps : (c : W.Config) → Keeps view (W.new_core_clientset c)
  pub annotations_keeps :
      (c : W.CoreClientset) (ns name : String) → Keeps view (W.get_pvc_annotations c ns name)
