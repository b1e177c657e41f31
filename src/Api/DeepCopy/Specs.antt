-- ===== src/Api/DeepCopy/Specs.antt =====
-- The deep copy of a spec.
use csi_gcs.Base.{ℕ, ◌<◌, ◌≡◌, refl, arith, Option, none, some, [], NodupKeys, SameEntries}
use csi_gcs.Api.DeepCopy.{Store, StoredSpec, copy_entries, options_deep_copy, spec_deep_copy_into}
use csi_gcs.Api.DeepCopy.Stores.{
  update_self, Extends, Extends-self, new_map-Extends, Within, copy_entries-SameEntries,
}

module _ {ObjectMeta : Type 0} where
  -- A map that is there: its keys are distinct. Nil is one too.
  abbrev pub IsMap : Store ObjectMeta → Option ℕ → Type 0
  IsMap h none = Unit
  IsMap h (some a) = (a < h.next) × NodupKeys (h.maps a)

  -- Both are nil, or they have the same entries.
  abbrev pub SameMap : Store ObjectMeta → Option ℕ → Store ObjectMeta → Option ℕ → Type 0
  SameMap h none g none = Unit
  SameMap h none g (some b) = ⊥
  SameMap h (some a) g none = ⊥
  SameMap h (some a) g (some b) = SameEntries (h.maps a) (g.maps b)

  pub record SameSpec (h : Store ObjectMeta) (s : StoredSpec) (g : Store ObjectMeta)
      (t : StoredSpec) : Type 0 where
    pub same_node : s.node ≡ t.node
    pub same_target_path : s.target_path ≡ t.target_path
    pub same_volume_handle : s.volume_handle ≡ t.volume_handle
    pub same_options : SameMap h s.options g t.options
    pub same_pod : s.pod ≡ t.pod

  options_copied :
      (o : Option ℕ) (h : Store ObjectMeta)
      → IsMap h o
      → Extends (options_deep_copy o h).1 h
        × Within h.next (options_deep_copy o h).1.next (options_deep_copy o h).0
        × SameMap h o (options_deep_copy o h).1 (options_deep_copy o h).0
  unfolding options_deep_copy
  options_copied none h is_map = (Extends-self h, tt, tt)
  options_copied (some a) h (below, u) = (
    new_map-Extends (copy_entries (h.maps a) []) h,
    omega arith,
    rw (update_self h.maps h.next (copy_entries (h.maps a) []))
        (copy_entries-SameEntries (h.maps a) u),
  )

  pub spec_copied :
      (s : StoredSpec) (h : Store ObjectMeta)
      → IsMap h s.options
      → Extends (spec_deep_copy_into s h).1 h
        × Within h.next (spec_deep_copy_into s h).1.next (spec_deep_copy_into s h).0.options
        × SameSpec h s (spec_deep_copy_into s h).1 (spec_deep_copy_into s h).0
  unfolding spec_deep_copy_into
  spec_copied s h is_map =
      let copied = options_copied s.options h is_map in
      (
        copied.0,
        copied.1,
        record {
          same_node = refl;
          same_target_path = refl;
          same_volume_handle = refl;
          same_options = copied.2;
          same_pod = refl;
        },
      )

  -- What is read of a map that is there does not change in a later store.
  pub SameMap-later :
      (h g f : Store ObjectMeta) (o p : Option ℕ) (lo : ℕ)
      → SameMap h o g p
      → Within lo g.next p
      → Extends f g
      → SameMap h o f p
  SameMap-later h g f none none lo same w later = tt
  SameMap-later h g f none (some b) lo same w later = same
  SameMap-later h g f (some a) none lo same w later = same
  SameMap-later h g f (some a) (some b) lo same w later = rw (later.1 b w.1).0 same

  -- A map that was there before is read the same.
  pub SameMap-before :
      (h g f : Store ObjectMeta) (o p : Option ℕ)
      → IsMap h o
      → Extends g h
      → SameMap g o f p
      → SameMap h o f p
  SameMap-before h g f none none is_map later same = tt
  SameMap-before h g f none (some b) is_map later same = same
  SameMap-before h g f (some a) none is_map later same = same
  SameMap-before h g f (some a) (some b) is_map later same = rw (← (later.1 a is_map.0).0) same

  pub IsMap-later : (h g : Store ObjectMeta) (o : Option ℕ) → IsMap h o → Extends g h → IsMap g o
  IsMap-later h g none is_map later = tt
  IsMap-later h g (some a) is_map later = (omega arith, rw (later.1 a is_map.0).0 is_map.1)

  -- Two specs that read the same up to their options.
  pub SameSpec-on :
      (h g h' g' : Store ObjectMeta) (s t : StoredSpec)
      → SameSpec h s g t
      → SameMap h' s.options g' t.options
      → SameSpec h' s g' t
  SameSpec-on h g h' g' s t same options = record {
    same_node = same.same_node;
    same_target_path = same.same_target_path;
    same_volume_handle = same.same_volume_handle;
    same_options = options;
    same_pod = same.same_pod;
  }
