-- ===== src/World/Laws/Model/Mounting.antt =====
-- The mount points of the site of `Model`.
use csi_gcs.Base.{
  String, eq_iff, ◌≡◌, refl, ap, ◌∙◌, arith, Bool, true, false, not, Option, none, some,
}
use csi_gcs.Api.{PublishedVolume}
use csi_gcs.World.Laws.{IsApart}
use csi_gcs.World.Mounts.{IsMounter, IsUnmounted}
use csi_gcs.World.Laws.Model.{Site, found, recorded, key_file, saved, site}

abbrev pub mounted_at : Site → String → Bool
mounted_at s = s.is_mounted

not-not : (b : Bool) → b ≡ not (not b)
not-not true = refl
not-not false = refl

saved_mounts :
    (there : Bool) (s : Site) (k : String) → mounted_at (saved there s).1 k ≡ mounted_at s k
saved_mounts true s k = refl
saved_mounts false s k = refl

pub site-IsMounter : IsMounter site mounted_at
site-IsMounter = record {
  answer_keeps = λ p s k. refl;
  answer_ok =
      λ p s b e. let h : not (s.is_mounted p) ≡ b = cc in not-not (s.is_mounted p) ∙ ap not h;
  answer_missing = λ p s e failed. cc;
  mount_ok = λ source target kind options s e. ground (arith, eq_iff target target);
  mount_other = λ source target kind options s m ne. ground (arith, eq_iff target m);
  cleanup_ok = λ p extensive s e. ground (arith, eq_iff p p);
  cleanup_other = λ p extensive s m ne. ground (arith, eq_iff p m);
}

recorded_mounts :
    (x : Option PublishedVolume) (v : PublishedVolume) (s : Site) (k : String)
    → mounted_at (recorded x v s).1 k ≡ mounted_at s k
recorded_mounts none v s k = refl
recorded_mounts (some w) v s k = refl

pub site-IsUnmounted : IsUnmounted site String Bool mounted_at
site-IsUnmounted = record {
  mkdir_all_keeps = λ p mode s k. refl;
  first_object_keeps = λ c n s k. refl;
  gcs_keeps = λ c s k. refl;
  uid_keeps = λ c n s k. refl;
  create_record_keeps = λ c v s k. recorded_mounts (found v.name s.records) v s k;
  delete_record_keeps = λ c n s k. refl;
}

-- The calls before the mounter do not mount.
pub site-IsApart_mounts : IsApart site String Bool mounted_at
site-IsApart_mounts = record {
  credentials_keeps = λ s k. refl;
  client_keeps = λ o s k. refl;
  mkdir_keeps = λ d mode s k. refl;
  temp_file_keeps = λ d s k. saved_mounts (s.exists key_file) s k;
  write_keeps = λ p b s k. refl;
  close_keeps = λ p s k. refl;
  remove_keeps = λ p s k. refl;
  config_keeps = λ s k. refl;
  core_keeps = λ c s k. refl;
  annotations_keeps = λ c namespace name s k. refl;
}
