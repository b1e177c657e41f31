-- ===== src/Api/DeepCopy/Tests.antt =====
-- Deep copies at a concrete store, with metadata of a name and a map of labels.
use csi_gcs.Base.{ℕ, ◌≡◌, refl, arith, String, Option, none, some, [], ◌∷◌, Dict, lookup}
use csi_gcs.Api.DeepCopy.{
  Store, Metadata, Volume, VolumeList, Heap, new_map, volume_deep_copy, list_deep_copy,
}
use csi_gcs.Api.DeepCopy.Stores.{
  Extends, Extends-self, new_map-Extends, update_self, Within, Within-mono,
}
use csi_gcs.Api.DeepCopy.Volumes.{IsCopier, IsCopy, SameVolume}
use csi_gcs.Api.DeepCopy.Lists.{IsListCopy, list_deep_copy-IsListCopy}
use csi_gcs.Api.DeepCopy.Written.{write, volume_deep_copy-IsCopy}

-- A name and labels
abbrev Meta : Type 0
Meta = String × Option ℕ

abbrev labels_copy : Option ℕ → Store Meta → Option ℕ × Store Meta
labels_copy none h = (none, h)
labels_copy (some a) h = (some h.next, new_map (h.maps a) h)

abbrev small : Metadata
small = record {
  ObjectMeta = Meta;
  ListMeta = String;
  object_meta_deep_copy_into =
      λ (m : Meta) h. let (labels, h') = labels_copy m.1 h in ((m.0, labels), h');
  list_meta_deep_copy_into = λ m h. (m, h);
}

abbrev labels_of : Option ℕ → Store Meta → Option (Dict String)
labels_of none h = none
labels_of (some a) h = some (h.maps a)

abbrev content : Meta → Store Meta → String × Option (Dict String)
content (name, labels) h = (name, labels_of labels h)

abbrev IsBetween : ℕ → ℕ → Meta → Type 0
IsBetween lo hi (name, labels) = Within lo hi labels

labels_extends : (o : Option ℕ) (h : Store Meta) → Extends (labels_copy o h).1 h
labels_extends none h = Extends-self h
labels_extends (some a) h = new_map-Extends (h.maps a) h

labels_copied :
    (o : Option ℕ) (h : Store Meta)
    → labels_of (labels_copy o h).0 (labels_copy o h).1 ≡ labels_of o h
labels_copied none h = refl
labels_copied (some a) h = rw (update_self h.maps h.next (h.maps a)) refl

labels_fresh :
    (o : Option ℕ) (h : Store Meta) → Within h.next (labels_copy o h).1.next (labels_copy o h).0
labels_fresh none h = tt
labels_fresh (some a) h = omega arith

labels_local :
    (o : Option ℕ) (lo : ℕ) (g h : Store Meta)
    → Within lo h.next o
    → Extends g h
    → labels_of o g ≡ labels_of o h
labels_local none lo g h within later = refl
labels_local (some a) lo g h within later = rw (later.1 a within.1).0 refl

meta-IsCopier : IsCopier small small.object_meta_deep_copy_into content IsBetween
meta-IsCopier = record {
  extends = λ m h. labels_extends m.1 h;
  copied = λ m h between. rw (labels_copied m.1 h) refl;
  fresh = λ m h between. labels_fresh m.1 h;
  local = λ m lo g h between later. rw (labels_local m.1 lo g h between later) refl;
  between_mono = λ m lo hi low high between l h. Within-mono lo hi low high m.1 l h between;
}

list_meta-IsCopier : IsCopier small small.list_meta_deep_copy_into (λ m h. m) (λ lo hi m. Unit {0})
list_meta-IsCopier = record {
  extends = λ m h. Extends-self h;
  copied = λ m h between. refl;
  fresh = λ m h between. tt;
  local = λ m lo g h between later. refl;
  between_mono = λ m lo hi low high between l h. tt;
}

abbrev volume : Volume small
volume = record {
  type_meta = record { kind = "PublishedVolume"; api_version = "gcs.csi.ofek.dev/v1beta1" };
  object_meta = ("3c6d35", some 0);
  spec = record {
    node = "node-1";
    target_path = "/var/lib/kubelet/pods/1/mount";
    volume_handle = "bucket";
    options = some 1;
    pod = record { name = "app"; namespace = "default" };
  };
}

abbrev entries : ℕ → Dict String
entries a = ("gcs.csi.ofek.dev/node", "node-1") ∷ []

abbrev heap : Heap small
heap = record { next = 3; maps = entries; arrays = λ a. volume ∷ [] }

abbrev volumes : VolumeList small
volumes = record {
  type_meta = record { kind = "PublishedVolumeList"; api_version = "gcs.csi.ofek.dev/v1beta1" };
  list_meta = "7";
  items = some 2;
}

volume_deep_copy-IsCopy_example :
    (c : Volume small) × ((volume_deep_copy small (some volume) heap).0 ≡ some c)
    × IsCopy small content IsBetween heap volume (volume_deep_copy small (some volume) heap).1 c
    × SameVolume small content IsBetween heap volume
        (write c.spec.options "limit" "1" (volume_deep_copy small (some volume) heap).1)
        volume
unfolding lookup
volume_deep_copy-IsCopy_example =
    volume_deep_copy-IsCopy small content IsBetween meta-IsCopier volume heap "limit" "1"
      (omega arith, (omega arith, (refl, tt)))

list_deep_copy-IsListCopy_example :
    (c : VolumeList small) × ((list_deep_copy small (some volumes) heap).0 ≡ some c)
    × IsListCopy small content IsBetween meta-IsCopier
        (λ m h. m)
        (λ lo hi m. Unit {0})
        list_meta-IsCopier
        heap
        volumes
        (list_deep_copy small (some volumes) heap).1
        c
unfolding lookup
list_deep_copy-IsListCopy_example =
    list_deep_copy-IsListCopy small content IsBetween meta-IsCopier (λ m h. m) (λ lo hi m. Unit {0})
      list_meta-IsCopier volumes heap tt
      (omega arith, ((omega arith, (omega arith, (refl, tt))), tt))
