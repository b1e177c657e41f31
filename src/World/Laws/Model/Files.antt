-- ===== src/World/Laws/Model/Files.antt =====
-- The files of the site of `Model`.
use csi_gcs.Base.{
  String, join, ◌==◌, ◌≡◌, refl, sym, Bool, true, false, Option, none, some, if◌then◌else◌,
}
use csi_gcs.Go.{Error, ok, err}
use csi_gcs.World.{Attrs}
use csi_gcs.World.KeyFiles.{IsKeyStore, IsSpoiled, IsRemote}
use csi_gcs.Go.Path.{dir}
use csi_gcs.World.Laws.Model.{Site, found_or_missing, labelled, created, key_file, saved, site}

abbrev pub exists_at : Site → String → Bool
exists_at s = s.exists

saved-dir :
    (there : Bool) (s : Site) (p : String)
    → (saved there s).0 ≡ ok p
    → (dir p == "/tmp/keys") ≡ true
unfolding dir join
saved-dir true s p e = cc
saved-dir false s p e = let h : key_file ≡ p = cc in rw (sym h) refl

saved_new :
    (there : Bool) (s : Site) (p : String)
    → s.exists key_file ≡ there
    → (saved there s).0 ≡ ok p
    → s.exists p ≡ false
saved_new true s p absent e = cc
saved_new false s p absent e = let h : key_file ≡ p = cc in rw (sym h) absent

saved_exists :
    (there : Bool) (s : Site) (p m : String)
    → (saved there s).0 ≡ ok p
    → exists_at (saved there s).1 m ≡ (if p == m then true else s.exists m)
saved_exists true s p m e = cc
saved_exists false s p m e = let h : key_file ≡ p = cc in rw (sym h) refl

saved_failed :
    (there : Bool) (s : Site) (e : Error) (m : String)
    → (saved there s).0 ≡ err e
    → exists_at (saved there s).1 m ≡ s.exists m
saved_failed true s e m failed = refl
saved_failed false s e m failed = cc

found_or_missing_exists :
    (x : Option Attrs) (s : Site) (k : String)
    → exists_at (found_or_missing x s).1 k ≡ exists_at s k
found_or_missing_exists none s k = refl
found_or_missing_exists (some a) s k = refl

labelled_exists :
    (x : Option Attrs) (n k v : String) (s : Site) (m : String)
    → exists_at (labelled x n k v s).1 m ≡ exists_at s m
labelled_exists none n k v s m = refl
labelled_exists (some a) n k v s m = refl

created_exists :
    (x : Option Attrs) (n : String) (s : Site) (m : String)
    → exists_at (created x n s).1 m ≡ exists_at s m
created_exists none n s m = refl
created_exists (some a) n s m = refl

pub site-IsKeyStore : IsKeyStore site "/tmp/keys" exists_at
site-IsKeyStore = record {
  mkdir_keeps = λ p mode s m. refl;
  temp_dir = λ s p e. saved-dir (s.exists key_file) s p e;
  temp_new = λ s p e. saved_new (s.exists key_file) s p refl e;
  temp_ok = λ s p m e. saved_exists (s.exists key_file) s p m e;
  temp_failed = λ s e m failed. saved_failed (s.exists key_file) s e m failed;
  write_keeps = λ p b s m. refl;
  close_keeps = λ p s m. refl;
  remove_ok = λ p s m done. refl;
  remove_other = λ p s m apart. rw apart refl;
}

-- No call about a file fails, but that for a new one.
abbrev pub spoiled_at : Site → String → Bool
spoiled_at s m = false

pub site-IsSpoiled : IsSpoiled site spoiled_at
site-IsSpoiled = record {
  mkdir_keeps = λ p mode s m. refl;
  temp_file_keeps = λ d s m. refl;
  write_failed = λ p b s e failed. cc;
  write_stays = λ p b s m h. h;
  close_failed = λ p s e failed. cc;
  close_stays = λ p s m h. h;
  remove_failed = λ p s e failed. cc;
  remove_stays = λ p s m h. h;
}

pub site-IsRemote : IsRemote site String Bool exists_at
site-IsRemote = record {
  credentials_keeps = λ s k. refl;
  client_keeps = λ o s k. refl;
  attrs_keeps = λ c n s k. found_or_missing_exists (s.bucket n) s k;
  create_keeps = λ c n p b s k. created_exists (s.bucket n) n s k;
  delete_keeps = λ c n s k. refl;
  set_label_keeps = λ c n k v s m. labelled_exists (s.bucket n) n k v s m;
  config_keeps = λ s k. refl;
  core_keeps = λ c s k. refl;
  annotations_keeps = λ c namespace name s k. refl;
}

pub site-IsRemote_spoiled : IsRemote site String Bool spoiled_at
site-IsRemote_spoiled = record {
  credentials_keeps = λ s k. refl;
  client_keeps = λ o s k. refl;
  attrs_keeps = λ c n s k. refl;
  create_keeps = λ c n p b s k. refl;
  delete_keeps = λ c n s k. refl;
  set_label_keeps = λ c n k v s m. refl;
  config_keeps = λ s k. refl;
  core_keeps = λ c s k. refl;
  annotations_keeps = λ c namespace name s k. refl;
}
