-- ===== src/World/Laws/Model.antt =====
-- A small outside world in which the hypotheses about the calls hold: buckets, the files of keys, and
-- the records of mounts. The examples of the driver run in it.
pub mod Registry
pub mod Storage
pub mod Mounting
pub mod Files
use csi_gcs.Base.{
  String, join, ◌==◌, eq_iff, ◌≡◌, ◌≢◌, ◌⊎◌, inl, inr, refl, ◌&&◌, sym, ap, ◌∙◌, arith, Bool, true,
  false, not, Option, none, some, List, [], ◌∷◌, insert, if◌then◌else◌,
}
use csi_gcs.Api.{PublishedVolume}
use csi_gcs.Go.{Error, errorf, Outcome, ok, err, pure}
use csi_gcs.World.{World, Attrs, item}
use csi_gcs.World.Laws.{IsStorage, IsApart}
use csi_gcs.World.Mounts.{IsMounter, IsUnmounted}
use csi_gcs.World.Atomic.{IsAtomic}
use csi_gcs.World.KeyFiles.{IsKeyStore, IsRemote}
use csi_gcs.Go.Path.{dir}

pub record Site : Type 0 where
  pub bucket : String → Option Attrs
  pub exists : String → Bool
  pub is_mounted : String → Bool
  pub records : List PublishedVolume
  pub running : String × String → Bool

abbrev pub put {ℓ} : {V : Type ℓ} → String → V → (String → V) → String → V
put n v f m = if n == m then v else f m

abbrev pub found_or_missing : Option Attrs → Site → Outcome Attrs × Site
found_or_missing none s = (err (errorf "storage: bucket doesn't exist"), s)
found_or_missing (some a) s = (ok a, s)

abbrev pub labelled : Option Attrs → String → String → String → Site → Outcome Attrs × Site
labelled none n k v s = (err (errorf "storage: bucket doesn't exist"), s)
labelled (some a) n k v s =
    let new : Attrs = record { labels = insert k v a.labels } in
    (ok new, record s { bucket = put n (some new) s.bucket })

-- A bucket that is there is not created again.
abbrev pub created : Option Attrs → String → Site → Outcome (Unit {0}) × Site
created none n s = (ok tt, record s { bucket = put n (some (record { labels = [] })) s.bucket })
created (some a) n s = (err (errorf "the bucket exists"), s)

-- A pod whose deletion was asked for does not count as running.
abbrev pub stopped : String × String → (String × String → Bool) → String × String → Bool
stopped (namespace, name) running (n, m) =
    if (namespace == n) && (name == m) then false else running (n, m)

abbrev pub found : String → List PublishedVolume → Option PublishedVolume
found n [] = none
found n (v ∷ vs) = if v.name == n then some v else found n vs

abbrev pub without : String → List PublishedVolume → List PublishedVolume
without n [] = []
without n (v ∷ vs) = if v.name == n then without n vs else v ∷ without n vs

-- A name has one record.
abbrev pub recorded :
    Option PublishedVolume → PublishedVolume → Site → Outcome PublishedVolume × Site
recorded none v s = (ok v, record s { records = v ∷ s.records })
recorded (some w) v s = (err (errorf "the record exists"), s)

abbrev pub key_file : String
key_file = "/tmp/keys/key"

-- A new file for a key, if there is none.
abbrev pub saved : Bool → Site → Outcome String × Site
saved true s = (err (errorf "file exists"), s)
saved false s = (ok key_file, record s { exists = put key_file true s.exists })

-- A site where `os.Remove` works, and one key at a time has a file.
abbrev pub site : World
site = record {
  State = Site;
  Creds = Unit {0};
  Client = Unit {0};
  Config = Unit {0};
  CoreClientset = Unit {0};
  GcsClientset = Unit {0};
  unicode_to_lower = λ _. "";
  status_text = λ code text. text;
  lstat_is_dir = λ d. pure true;
  is_missing = λ d s. false;
  mkdir = λ d mode s. s;
  mkdir_all = λ d mode. pure tt;
  temp_file = λ d s. saved (s.exists key_file) s;
  write = λ p b. pure tt;
  close = λ p. pure tt;
  remove = λ p s. (ok tt, record s { exists = put p false s.exists });
  find_default_credentials = pure tt;
  new_client = λ o. pure tt;
  bucket_attrs = λ c n s. found_or_missing (s.bucket n) s;
  bucket_create = λ c n p b s. created (s.bucket n) n s;
  bucket_delete = λ c n s. (ok tt, record s { bucket = put n none s.bucket });
  bucket_set_label = λ c n k v s. labelled (s.bucket n) n k v s;
  first_object = λ c n. pure item;
  is_likely_not_mount_point = λ p s. (ok (not (s.is_mounted p)), s);
  mount = λ source target kind options s.
      (ok tt, record s { is_mounted = put target true s.is_mounted });
  cleanup_mount_point =
      λ p extensive s. (ok tt, record s { is_mounted = put p false s.is_mounted });
  in_cluster_config = pure tt;
  new_core_clientset = λ c. pure tt;
  new_gcs_clientset = λ c. pure tt;
  get_pvc_annotations = λ c namespace name. pure [];
  delete_pod =
      λ c namespace name s. (ok tt, record s { running = stopped (namespace, name) s.running });
  get_node_uid = λ c name. pure "uid";
  list_published_volumes = λ c labels s. (ok s.records, s);
  create_published_volume = λ c v s. recorded (found v.name s.records) v s;
  delete_published_volume = λ c name s. (ok tt, record s { records = without name s.records });
}
