-- ===== src/World/Laws/Answering.antt =====
-- The site of `Model` with a temporary file for every key, and claims that name their bucket: all its calls are answered.
use csi_gcs.Base.{String, ◌≡◌, refl, ap, not, inl, Option, none, some, [], ◌∷◌, Dict}
use csi_gcs.Api.{PublishedVolume}
use csi_gcs.Go.{ok, pure}
use csi_gcs.World.{World, Attrs, item}
use csi_gcs.World.Laws.{IsStorage, IsApart}
use csi_gcs.World.Atomic.{IsAtomic}
use csi_gcs.World.Up.{IsUp, IsNodeUp, IsClusterUp, IsRecordsUp}
use csi_gcs.World.Laws.Model.{Site, site, found, recorded}
use csi_gcs.World.Laws.Model.Registry.{live}
use csi_gcs.World.Laws.Model.Storage.{bucket_of, site-IsStorage, site-IsApart, site-IsAtomic}

-- The annotations of each claim.
abbrev pub claim_bucket : Dict String
claim_bucket = ("gcs.csi.ofek.dev/bucket", "pv") ∷ []

abbrev pub answering : World
answering = record site {
  temp_file = λ d. pure "/tmp/keys/key";
  get_pvc_annotations = λ c namespace name. pure claim_bucket;
}

abbrev pub claim_at : Site → String × String → Option (Dict String)
claim_at s claim = some claim_bucket

pub answering-IsStorage : IsStorage answering bucket_of
answering-IsStorage = record {
  attrs_ok = site-IsStorage.attrs_ok;
  attrs_keeps = site-IsStorage.attrs_keeps;
  create_ok = site-IsStorage.create_ok;
  create_other = site-IsStorage.create_other;
  delete_ok = site-IsStorage.delete_ok;
  delete_other = site-IsStorage.delete_other;
  set_label_ok = site-IsStorage.set_label_ok;
  set_label_other = site-IsStorage.set_label_other;
}

pub answering-IsAtomic : IsAtomic answering bucket_of
answering-IsAtomic = record {
  create_either = site-IsAtomic.create_either;
  delete_either = site-IsAtomic.delete_either;
  set_label_either = site-IsAtomic.set_label_either;
}

pub answering-IsApart : IsApart answering String (Option Attrs) bucket_of
answering-IsApart = record {
  credentials_keeps = site-IsApart.credentials_keeps;
  client_keeps = site-IsApart.client_keeps;
  mkdir_keeps = site-IsApart.mkdir_keeps;
  temp_file_keeps = λ d s k. refl;
  write_keeps = site-IsApart.write_keeps;
  close_keeps = site-IsApart.close_keeps;
  remove_keeps = site-IsApart.remove_keeps;
  config_keeps = site-IsApart.config_keeps;
  core_keeps = site-IsApart.core_keeps;
  annotations_keeps = λ c ns name s k. refl;
}

pub answering-IsUp : IsUp answering bucket_of
answering-IsUp = record {
  credentials_up = λ s. (tt, refl);
  client_up = λ o s. (tt, refl);
  temp_file_up = λ d s. ("/tmp/keys/key", refl);
  write_up = λ p b s. refl;
  close_up = λ p s. refl;
  attrs_up = λ c n s a there. rw there refl;
  create_up = λ c n p b s missing. rw missing refl;
  delete_up = λ c n s a there. refl;
  set_label_up = λ c n k v s a there. rw there (_, refl);
}

pub answering-IsNodeUp : IsNodeUp answering
answering-IsNodeUp = record {
  first_object_up = λ c n s. (item, refl);
  mkdir_all_up = λ p mode s. refl;
  answer_up = λ p s. inl (not (s.is_mounted p), refl);
  mount_up = λ source target kind options s. refl;
  cleanup_up = λ p extensive s. refl;
}

pub answering-IsClusterUp : IsClusterUp answering claim_at
answering-IsClusterUp = record {
  config_up = λ s. (tt, refl);
  config_keeps = λ s k. refl;
  core_up = λ c s. (tt, refl);
  core_keeps = λ c s k. refl;
  annotations_up = λ clientset namespace name s annotations there.
      let e : claim_bucket ≡ annotations = cc in ap ok e;
}

recorded_up :
    (x : Option PublishedVolume) (v : PublishedVolume) (s : Site)
    → x ≡ none
    → (w : PublishedVolume) × ((recorded x v s).0 ≡ ok w)
recorded_up none v s fresh = (v, refl)
recorded_up (some w) v s fresh = cc

pub answering-IsRecordsUp : IsRecordsUp answering live
answering-IsRecordsUp = record {
  config_up = λ s. (tt, refl);
  gcs_up = λ c s. (tt, refl);
  core_up = λ c s. (tt, refl);
  uid_up = λ clientset node s. ("uid", refl);
  record_up = λ clientset v s fresh. recorded_up (found v.name s.records) v s fresh;
  config_keeps = λ s n. refl;
  gcs_keeps = λ c s n. refl;
  core_keeps = λ c s n. refl;
  uid_keeps = λ clientset node s n. refl;
  first_object_keeps = λ c n s m. refl;
  answer_keeps = λ p s n. refl;
  mkdir_all_keeps = λ p mode s n. refl;
  mount_keeps = λ source target kind options s n. refl;
}

pub answering-IsApart_records : IsApart answering String (Option PublishedVolume) live
answering-IsApart_records = record {
  credentials_keeps = λ s k. refl;
  client_keeps = λ o s k. refl;
  mkdir_keeps = λ d mode s k. refl;
  temp_file_keeps = λ d s k. refl;
  write_keeps = λ p b s k. refl;
  close_keeps = λ p s k. refl;
  remove_keeps = λ p s k. refl;
  config_keeps = λ s k. refl;
  core_keeps = λ c s k. refl;
  annotations_keeps = λ c ns name s k. refl;
}
