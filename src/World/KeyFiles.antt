-- ===== src/World/KeyFiles.antt =====
-- What the driver relies on of the files of keys, as hypotheses about a view of which files exist.
use csi_gcs.Base.{String, ◌==◌, ◌≡◌, Bool, true, false, List, ℕ, if◌then◌else◌}
use csi_gcs.Go.{Error, ok, err}
use csi_gcs.Go.Path.{dir}
use csi_gcs.World.{World, ClientOption, NewBucket}
use csi_gcs.World.Laws.{Keeps}

-- `ioutil.TempFile(d, "")` makes a new file in `d`. `os.Remove` removes its
-- file if it returns no error, and touches no other file.
pub record IsKeyStore (W : World) (d : String) (exists : W.State → String → Bool) : Type 0 where
  pub mkdir_keeps :
      (p : String) (mode : ℕ) (s : W.State) (m : String) → exists (W.mkdir p mode s) m ≡ exists s m
  pub temp_dir : (s : W.State) (p : String) → (W.temp_file d s).0 ≡ ok p → (dir p == d) ≡ true
  pub temp_new : (s : W.State) (p : String) → (W.temp_file d s).0 ≡ ok p → exists s p ≡ false
  pub temp_ok :
      (s : W.State) (p m : String)
      → (W.temp_file d s).0 ≡ ok p
      → exists (W.temp_file d s).1 m ≡ (if p == m then true else exists s m)
  pub temp_failed :
      (s : W.State) (e : Error) (m : String)
      → (W.temp_file d s).0 ≡ err e
      → exists (W.temp_file d s).1 m ≡ exists s m
  pub write_keeps : (p : String) (b : List ℕ) → Keeps exists (W.write p b)
  pub close_keeps : (p : String) → Keeps exists (W.close p)
  pub remove_ok :
      (p : String) (s : W.State) (m : String)
      → (W.remove p s).0 ≡ ok tt
      → exists (W.remove p s).1 m ≡ (if p == m then false else exists s m)
  pub remove_other :
      (p : String) (s : W.State) (m : String)
      → (p == m) ≡ false
      → exists (W.remove p s).1 m ≡ exists s m

-- `spoiled` says of which files a write, a close or a removal has failed by now.
pub record IsSpoiled (W : World) (spoiled : W.State → String → Bool) : Type 0 where
  pub mkdir_keeps :
      (p : String) (mode : ℕ) (s : W.State) (m : String)
      → spoiled (W.mkdir p mode s) m ≡ spoiled s m
  pub temp_file_keeps : (d : String) → Keeps spoiled (W.temp_file d)
  pub write_failed :
      (p : String) (b : List ℕ) (s : W.State) (e : Error)
      → (W.write p b s).0 ≡ err e
      → spoiled (W.write p b s).1 p ≡ true
  pub write_stays :
      (p : String) (b : List ℕ) (s : W.State) (m : String)
      → spoiled s m ≡ true
      → spoiled (W.write p b s).1 m ≡ true
  pub close_failed :
      (p : String) (s : W.State) (e : Error)
      → (W.close p s).0 ≡ err e
      → spoiled (W.close p s).1 p ≡ true
  pub close_stays :
      (p : String) (s : W.State) (m : String)
      → spoiled s m ≡ true
      → spoiled (W.close p s).1 m ≡ true
  pub remove_failed :
      (p : String) (s : W.State) (e : Error)
      → (W.remove p s).0 ≡ err e
      → spoiled (W.remove p s).1 p ≡ true
  pub remove_stays :
      (p : String) (s : W.State) (m : String)
      → spoiled s m ≡ true
      → spoiled (W.remove p s).1 m ≡ true

-- The calls of the controller over the network leave a view of the files as it is.
pub record IsRemote {κ} (W : World) (K : Type 0) (V : Type κ) (view : W.State → K → V)
    : Type κ where
  pub credentials_keeps : Keeps view W.find_default_credentials
  pub client_keeps : (o : ClientOption W.Creds) → Keeps view (W.new_client o)
  pub attrs_keeps : (c : W.Client) (n : String) → Keeps view (W.bucket_attrs c n)
  pub create_keeps :
      (c : W.Client) (n p : String) (b : NewBucket) → Keeps view (W.bucket_create c n p b)
  pub delete_keeps : (c : W.Client) (n : String) → Keeps view (W.bucket_delete c n)
  pub set_label_keeps : (c : W.Client) (n k v : String) → Keeps view (W.bucket_set_label c n k v)
  pub config_keeps : Keeps view W.in_cluster_config
  pub core_keeps : (c : W.Config) → Keeps view (W.new_core_clientset c)
  pub annotations_keeps :
      (c : W.CoreClientset) (ns name : String) → Keeps view (W.get_pvc_annotations c ns name)
