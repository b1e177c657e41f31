-- ===== src/Api/DeepCopy/Volumes.antt =====
-- The deep copy of a record of a mount.
use csi_gcs.Base.{ℕ, ◌≤◌, ◌≡◌, refl, sym, ◌∙◌, arith}
use csi_gcs.Api.DeepCopy.{Metadata, Volume, Heap, spec_deep_copy_into, volume_deep_copy_into}
use csi_gcs.Api.DeepCopy.Stores.{Extends, Extends-trans, Within, Within-mono}
use csi_gcs.Api.DeepCopy.Specs.{
  IsMap, SameSpec, spec_copied, SameMap-later, SameMap-before, IsMap-later, SameSpec-on,
}

-- What the copies rely on of the metadata of k8s.io/apimachinery: `content` is what is read of it in a
-- store, and `IsBetween` says that all its addresses stand between two bounds. A deep copy changes
-- nothing that was there, and what it reads is the same and is newly allocated.
pub record IsCopier (K : Metadata) {Meta Content : Type 0} (copy : Meta → Heap K → Meta × Heap K)
    (content : Meta → Heap K → Content) (IsBetween : ℕ → ℕ → Meta → Type 0) : Type 0 where
  pub extends : (m : Meta) (h : Heap K) → Extends (copy m h).1 h
  pub copied :
      (m : Meta) (h : Heap K)
      → IsBetween 0 h.next m
      → content (copy m h).0 (copy m h).1 ≡ content m h
  pub fresh :
      (m : Meta) (h : Heap K)
      → IsBetween 0 h.next m
      → IsBetween h.next (copy m h).1.next (copy m h).0
  pub local :
      (m : Meta) (lo : ℕ) (g h : Heap K)
      → IsBetween lo h.next m
      → Extends g h
      → content m g ≡ content m h
  pub between_mono :
      (m : Meta) (lo hi low high : ℕ)
      → IsBetween lo hi m
      → low ≤ lo
      → hi ≤ high
      → IsBetween low high m

module _ (K : Metadata) {Content : Type 0} (content : K.ObjectMeta → Heap K → Content)
    (IsBetween : ℕ → ℕ → K.ObjectMeta → Type 0) where
  -- A record of a mount whose addresses stand between the bounds.
  abbrev pub Inside : ℕ → ℕ → Volume K → Type 0
  Inside lo hi v = IsBetween lo hi v.object_meta × Within lo hi v.spec.options

  -- It is allocated, and its options are a map.
  abbrev pub IsAllocated : Heap K → Volume K → Type 0
  IsAllocated h v = IsBetween 0 h.next v.object_meta × IsMap h v.spec.options

  -- Two records, each in a store, read the same.
  pub record SameVolume (h : Heap K) (v : Volume K) (g : Heap K) (w : Volume K) : Type 0 where
    pub same_type : v.type_meta ≡ w.type_meta
    pub same_meta : content v.object_meta h ≡ content w.object_meta g
    pub same_spec : SameSpec h v.spec g w.spec

  -- A copy in a later store: it reads the same, it shares nothing with what was there, and nothing that
  -- was there has changed.
  abbrev pub IsCopy : Heap K → Volume K → Heap K → Volume K → Type 0
  IsCopy h v g w = Extends g h × Inside h.next g.next w × SameVolume h v g w

  module _ (copier : IsCopier K K.object_meta_deep_copy_into content IsBetween) where
    open copier use {extends, copied, fresh, local, between_mono}

    pub SameVolume-later :
        (h g f : Heap K) (v w : Volume K) (lo : ℕ)
        → SameVolume h v g w
        → Inside lo g.next w
        → Extends f g
        → SameVolume h v f w
    SameVolume-later h g f v w lo same inside later = record {
      same_type = same.same_type;
      same_meta = same.same_meta ∙ sym (local w.object_meta lo f g inside.0 later);
      same_spec = SameSpec-on h g h f v.spec w.spec same.same_spec (
          SameMap-later h g f v.spec.options w.spec.options lo same.same_spec.same_options inside.1
            later);
    }

    pub SameVolume-before :
        (h g f : Heap K) (v w : Volume K)
        → IsAllocated h v
        → Extends g h
        → SameVolume g v f w
        → SameVolume h v f w
    SameVolume-before h g f v w there later same = record {
      same_type = same.same_type;
      same_meta = sym (local v.object_meta 0 g h there.0 later) ∙ same.same_meta;
      same_spec = SameSpec-on g f h f v.spec w.spec same.same_spec (
          SameMap-before h g f v.spec.options w.spec.options there.1 later
            same.same_spec.same_options);
    }

    pub IsAllocated-later :
        (h g : Heap K) (v : Volume K) → IsAllocated h v → Extends g h → IsAllocated g v
    IsAllocated-later h g v there later = (
      between_mono v.object_meta 0 h.next 0 g.next there.0 (omega arith) later.0,
      IsMap-later h g v.spec.options there.1 later,
    )

    pub Inside-mono :
        (v : Volume K) (lo hi low high : ℕ)
        → Inside lo hi v
        → low ≤ lo
        → hi ≤ high
        → Inside low high v
    Inside-mono v lo hi low high inside l h = (
      between_mono v.object_meta lo hi low high inside.0 l h,
      Within-mono lo hi low high v.spec.options l h inside.1,
    )

    pub volume_copied :
        (v : Volume K) (h : Heap K)
        → IsAllocated h v
        → IsCopy h v (volume_deep_copy_into K v h).1 (volume_deep_copy_into K v h).0
    unfolding volume_deep_copy_into
    volume_copied v h there =
        let (meta, h1) = K.object_meta_deep_copy_into v.object_meta h in
        let (spec, h2) = spec_deep_copy_into v.spec h1 in
        let first : Extends h1 h = extends v.object_meta h in
        let new : IsBetween h.next h1.next meta = fresh v.object_meta h there.0 in
        let rest = spec_copied v.spec h1 (IsMap-later h h1 v.spec.options there.1 first) in
        (
          Extends-trans h2 h1 h rest.0 first,
          (
            between_mono meta h.next h1.next h.next h2.next new (omega arith) rest.0.0,
            Within-mono h1.next h2.next h.next h2.next spec.options first.0 (omega arith) rest.1,
          ),
          record {
            same_type = refl;
            same_meta = sym (local meta h.next h2 h1 new rest.0 ∙ copied v.object_meta h there.0);
            same_spec = SameSpec-on h1 h2 h h2 v.spec spec rest.2 (
                SameMap-before h h1 h2 v.spec.options spec.options there.1 first
                  rest.2.same_options);
          },
        )
