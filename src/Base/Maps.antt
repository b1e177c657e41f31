-- ===== src/Base/Maps.antt =====
-- Go's `map[string]V`: an association list in the order in which a `range` loop meets the entries.
-- Go leaves that order open, so what holds of a map is stated of its lookups.
use Prim.Native.String.{String}
use mathlib.Core.List.{List, [], ◌∷◌}
use mathlib.Core.Option.{Option, none, some}
use mathlib.Core.Path.{◌≡◌, refl}
use native.Mathlib.Omega.{arith}
use text.Mathlib.Text.{◌==◌}
use text.Mathlib.TextEquality.{eq_iff}
use csi_gcs.Base.Tests.{if◌then◌else◌}

abbrev pub Dict {ℓ} : Type ℓ → Type ℓ
Dict V = List (String × V)

module _ {ℓ} {V : Type ℓ} where
  -- `v, found := m[k]`
  unfoldable pub lookup : String → Dict V → Option V
  lookup k [] = none
  lookup k ((key, value) ∷ rest) = if key == k then some value else lookup k rest

  -- `m[k] = v`
  unfoldable pub insert : String → V → Dict V → Dict V
  insert k v [] = (k, v) ∷ []
  insert k v ((key, old) ∷ rest) =
      if key == k then (key, v) ∷ rest else (key, old) ∷ insert k v rest

  -- The keys of a map are distinct.
  abbrev pub NodupKeys : Dict V → Type ℓ
  NodupKeys [] = Unit
  NodupKeys ((k, _) ∷ m) = (lookup k m ≡ none) × NodupKeys m

  -- Two maps with the same entries, whatever their order.
  abbrev pub SameEntries : Dict V → Dict V → Type ℓ
  SameEntries m n = (k : String) → lookup k m ≡ lookup k n

  pub lookup-insert :
      (set asked : String) (new : V) (before : Dict V)
      → lookup asked (insert set new before)
        ≡ (if set == asked then some new else lookup asked before)
  unfolding lookup insert
  lookup-insert set asked new [] = refl
  lookup-insert set asked new ((key, old) ∷ rest) =
      ground (
        arith,
        eq_iff key set,
        eq_iff key asked,
        eq_iff set asked,
        lookup-insert set asked new rest,
      )

  pub insert-NodupKeys : (k : String) (v : V) (m : Dict V) → NodupKeys m → NodupKeys (insert k v m)
  unfolding lookup insert
  insert-NodupKeys k v [] _ = (refl, tt)
  insert-NodupKeys k v ((j, _) ∷ m) (fresh, u) =
      ground (arith, insert-NodupKeys k v m u, lookup-insert k j v m, eq_iff j k, eq_iff k j)
