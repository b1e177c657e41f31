-- ===== src/World/Laws/Model/Registry.antt =====
-- The records and the pods of the site of `Model`.
use mathlib.Core.List.{Memᴰ}
use csi_gcs.Base.{
  String, ◌==◌, eq_iff, ◌≡◌, refl, sym, ap, ◌⊎◌, arith, Bool, true, false, Bool-cases, inl, inr,
  Option, none, some, List, [], ◌∷◌, if◌then◌else◌,
}
use csi_gcs.Api.{PublishedVolume}
use csi_gcs.Go.{ok}
use csi_gcs.World.Registry.{IsRegistry, IsPods, IsOutside}
use csi_gcs.World.Laws.{IsApart}
use csi_gcs.World.Laws.Model.{Site, site, found, without, recorded, saved, key_file}

abbrev pub live : Site → String → Option PublishedVolume
live s n = found n s.records

if_some :
    (b : Bool) (w v : PublishedVolume) (x : Option PublishedVolume)
    → (if b then some w else x) ≡ some v
    → (v ≡ w) ⊎ (x ≡ some v)
if_some true w v x e = inl cc
if_some false w v x e = inr e

pub found-Mem :
    (vs : List PublishedVolume) (n : String) (v : PublishedVolume) → found n vs ≡ some v → Memᴰ v vs
found-Mem [] n v e = cc
found-Mem (w ∷ vs) n v e = elim (if_some (w.name == n) w v (found n vs) e) [
  | inl here ↦ Memᴰ.head here
  | inr there ↦ Memᴰ.tail (found-Mem vs n v there)
]

pub found-without : (vs : List PublishedVolume) (n : String) → found n (without n vs) ≡ none
found-without [] n = refl
found-without (w ∷ vs) n = elim (Bool-cases (w.name == n)) [
  | inl same ↦ rw same (found-without vs n)
  | inr other ↦ rw (other, other) (found-without vs n)
]

pub live-recorded :
    (x : Option PublishedVolume) (v : PublishedVolume) (s : Site) {w : PublishedVolume}
    → (recorded x v s).0 ≡ ok w
    → live (recorded x v s).1 v.name ≡ some v
live-recorded none v s e = rw ((eq_iff v.name v.name).1 refl) refl
live-recorded (some w) v s e = cc

pub site-IsRegistry : IsRegistry site live
site-IsRegistry = record {
  create_ok = λ c v s done. live-recorded (found v.name s.records) v s done;
  delete_ok = λ c n s done. found-without s.records n;
  list_keeps = λ c labels s n. refl;
  list_live = λ c labels s vs v done there carries.
      let same : s.records ≡ vs = cc in
      found-Mem vs v.name v (rw (ap (found v.name) (sym same)) there);
  config_keeps = λ s n. refl;
  gcs_keeps = λ c s n. refl;
}

abbrev pub running_at : Site → String × String → Bool
running_at s = s.running

pub site-IsPods : IsPods site running_at
site-IsPods = record {
  config_up = λ s. (tt, refl);
  core_up = λ c s. (tt, refl);
  config_keeps = λ s pod. refl;
  core_keeps = λ c s pod. refl;
  delete_up = λ c namespace name s there. refl;
  delete_ok = λ c namespace name s done.
      rw ((eq_iff namespace namespace).1 refl, (eq_iff name name).1 refl) refl;
  delete_stays = λ c namespace name s (n, m) gone. ground arith;
}

pub site-IsOutside : IsOutside site live
site-IsOutside = record { first_object_keeps = λ c n s k. refl; answer_keeps = λ p s k. refl }

saved-live : (there : Bool) (s : Site) (n : String) → live (saved there s).1 n ≡ live s n
saved-live true s n = refl
saved-live false s n = refl

pub site-IsApart_records : IsApart site String (Option PublishedVolume) live
site-IsApart_records = record {
  credentials_keeps = λ s k. refl;
  client_keeps = λ o s k. refl;
  mkdir_keeps = λ d mode s k. refl;
  temp_file_keeps = λ d s k. saved-live (s.exists key_file) s k;
  write_keeps = λ p b s k. refl;
  close_keeps = λ p s k. refl;
  remove_keeps = λ p s k. refl;
  config_keeps = λ s k. refl;
  core_keeps = λ c s k. refl;
  annotations_keeps = λ c namespace name s k. refl;
}
