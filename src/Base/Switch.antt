-- ===== src/Base/Switch.antt =====
-- A Go `switch` over texts as a table of cases: what holds of every row holds of the result.
use mathlib.Core.Bool.{Bool, true, ◌&&◌}
use mathlib.Core.List.{List, [], ◌∷◌}
use mathlib.Core.Logic.{◌⊎◌, inl, inr}
use mathlib.Core.Path.{◌≡◌, refl}
use native.Mathlib.Omega.{arith}
use Prim.Native.String.{String}
use text.Mathlib.Text.{◌==◌}
use text.Mathlib.TextEquality.{eq_iff}
use csi_gcs.Base.Tests.{if◌then◌else◌, Bool-cases}

module _ {ℓ} {V : Type ℓ} where
  abbrev pub switch : List (String × V) → V → String → V
  switch [] d k = d
  switch ((j, v) ∷ rows) d k = if k == j then v else switch rows d k

  abbrev pub all_rows : (String → V → Bool) → List (String × V) → Bool
  all_rows p [] = true
  all_rows p ((j, v) ∷ rows) = p j v && all_rows p rows

  pub switch_sound :
      (p : String → V → Bool) (rows : List (String × V)) (d : V) (k : String)
      → all_rows p rows ≡ true
      → (p k (switch rows d k) ≡ true) ⊎ (switch rows d k ≡ d)
  switch_sound p [] d k h = inr refl
  switch_sound p ((j, v) ∷ rows) d k h = elim (Bool-cases (k == j)) [
    | inl same ↦ let e = (eq_iff k j).0 same in rw same (inl (rw e (ground arith)))
    | inr other ↦ rw other (switch_sound p rows d k (ground arith))
  ]
