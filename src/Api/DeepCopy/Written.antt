-- ===== src/Api/DeepCopy/Written.antt =====
-- zz_generated.deepcopy.go: writes through a deep copy.
use csi_gcs.Base.{ℕ, ◌≡◌, refl, arith, String, Option, none, some, insert}
use csi_gcs.Api.DeepCopy.{Store, Metadata, Volume, Heap, update, volume_deep_copy}
use csi_gcs.Api.DeepCopy.Stores.{Extends, Within}
use csi_gcs.Api.DeepCopy.Specs.{IsMap, SameMap}
use csi_gcs.Api.DeepCopy.Volumes.{
  IsCopier, IsAllocated, IsCopy, SameVolume, SameVolume-later, volume_copied,
}

module _ {ObjectMeta : Type 0} where
  -- `m[key] = val`; a write to a nil map panics, and writes nothing.
  abbrev pub write : Option ℕ → String → String → Store ObjectMeta → Store ObjectMeta
  write none key val h = h
  write (some a) key val h = record h { maps = update h.maps a (insert key val (h.maps a)) }

  write-Extends :
      (p : Option ℕ) (key val : String) (g h : Store ObjectMeta)
      → Within h.next g.next p
      → Extends g h
      → Extends (write p key val g) h
  write-Extends none key val g h new later = later
  write-Extends (some a) key val g h new later =
      (later.0, λ b below. (ground (arith, later.1 b below), (later.1 b below).1))

  SameMap-self : (h : Store ObjectMeta) (o : Option ℕ) → SameMap h o h o
  SameMap-self h none = tt
  SameMap-self h (some a) = λ k. refl

  Within-of_IsMap : (h : Store ObjectMeta) (o : Option ℕ) → IsMap h o → Within 0 h.next o
  Within-of_IsMap h none there = tt
  Within-of_IsMap h (some a) there = omega arith

module _ (K : Metadata) {Content : Type 0} (content : K.ObjectMeta → Heap K → Content)
    (IsBetween : ℕ → ℕ → K.ObjectMeta → Type 0)
    (copier : IsCopier K K.object_meta_deep_copy_into content IsBetween) where
  SameVolume-self : (h : Heap K) (v : Volume K) → SameVolume K content IsBetween h v h v
  SameVolume-self h v = record {
    same_type = refl;
    same_meta = refl;
    same_spec = record {
      same_node = refl;
      same_target_path = refl;
      same_volume_handle = refl;
      same_options = SameMap-self h v.spec.options;
      same_pod = refl;
    };
  }

  -- The deep copy of a record of a mount that is not nil is a copy: it reads the same and shares
  -- nothing with what was there. Whatever is then written into the options of the copy, the
  -- original reads as before. This holds if all that the record refers to is allocated, with
  -- distinct keys in its map of options, and if the deep copy of the metadata is as `IsCopier`
  -- describes it.
  pub volume_deep_copy-IsCopy :
      (v : Volume K) (h : Heap K) (key val : String)
      → IsAllocated K content IsBetween h v
      → (c : Volume K) × ((volume_deep_copy K (some v) h).0 ≡ some c)
        × IsCopy K content IsBetween h v (volume_deep_copy K (some v) h).1 c
        × SameVolume K content IsBetween h v
            (write c.spec.options key val (volume_deep_copy K (some v) h).1)
            v
  unfolding volume_deep_copy
  volume_deep_copy-IsCopy v h key val there =
      let copy = volume_copied K content IsBetween copier v h there in
      (
        _,
        refl,
        copy,
        SameVolume-later K content IsBetween copier h h _ v v 0 (SameVolume-self h v)
            (there.0, Within-of_IsMap h v.spec.options there.1)
            (write-Extends _ key val _ h copy.1.1 copy.0),
      )
