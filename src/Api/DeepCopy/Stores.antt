-- ===== src/Api/DeepCopy/Stores.antt =====
-- Stores that agree on what was allocated, for the deep copies.
use csi_gcs.Base.{
  ℕ, ◌≤◌, ◌<◌, String, eq_iff, ◌≡◌, refl, ◌∙◌, arith, Option, none, some, List, [], ◌∷◌, Dict,
  lookup, insert, lookup-insert, NodupKeys, SameEntries,
}
use csi_gcs.Api.DeepCopy.{Store, copy_entries, update, new_map, new_array, StoredVolume}

pub update_self {ℓ} : {A : Type ℓ} (f : ℕ → A) (a : ℕ) (x : A) → update f a x a ≡ x
update_self f a x = ground arith

module _ {ObjectMeta : Type 0} where
  -- Two stores have the same at the addresses below `n`.
  abbrev pub Agree : ℕ → Store ObjectMeta → Store ObjectMeta → Type 0
  Agree n g h = (a : ℕ) → a < n → (g.maps a ≡ h.maps a) × (g.arrays a ≡ h.arrays a)

  -- A later store, in which nothing that was allocated has changed.
  abbrev pub Extends : Store ObjectMeta → Store ObjectMeta → Type 0
  Extends g h = (h.next ≤ g.next) × Agree h.next g h

  pub Extends-self : (h : Store ObjectMeta) → Extends h h
  Extends-self h = (omega arith, λ a below. (refl, refl))

  pub Extends-trans : (f g h : Store ObjectMeta) → Extends f g → Extends g h → Extends f h
  Extends-trans f g h (later, same) (late, old) = (
    omega arith,
    λ a below.
        ((same a (omega arith)).0 ∙ (old a below).0, (same a (omega arith)).1 ∙ (old a below).1),
  )

  pub new_map-Extends :
      (entries : Dict String) (h : Store ObjectMeta) → Extends (new_map entries h) h
  new_map-Extends entries h = (omega arith, λ a below. (ground arith, refl))

  pub new_array-Extends :
      (items : List (StoredVolume ObjectMeta)) (h : Store ObjectMeta)
      → Extends (new_array items h) h
  new_array-Extends items h = (omega arith, λ a below. (refl, ground arith))

-- An address between the bounds, or nil.
abbrev pub Within : ℕ → ℕ → Option ℕ → Type 0
Within lo hi none = Unit
Within lo hi (some a) = (lo ≤ a) × (a < hi)

pub Within-mono :
    (lo hi low high : ℕ) (o : Option ℕ) → low ≤ lo → hi ≤ high → Within lo hi o → Within low high o
Within-mono lo hi low high none l h w = tt
Within-mono lo hi low high (some a) l h w = omega arith

pub lookup-copy_entries :
    (k : String) (m out : Dict String)
    → NodupKeys m
    → lookup k (copy_entries m out) ≡ elim (lookup k m) [ some v ↦ some v | none ↦ lookup k out ]
unfolding copy_entries lookup
lookup-copy_entries k [] out u = refl
lookup-copy_entries k ((key, val) ∷ m) out (new, u) = ground (
  arith,
  lookup-copy_entries k m (insert key val out) u,
  lookup-insert key k val out,
  eq_iff key k,
)

pub copy_entries-SameEntries : (m : Dict String) → NodupKeys m → SameEntries m (copy_entries m [])
unfolding lookup
copy_entries-SameEntries m u k = ground (arith, lookup-copy_entries k m [] u)
