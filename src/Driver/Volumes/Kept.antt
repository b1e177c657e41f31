-- ===== src/Driver/Volumes/Kept.antt =====
-- A capacity that a handler has promised is kept, whatever requests follow.
use csi_gcs.Base.{
  String, ◌==◌, eq_iff, ◌∙◌, ◌≡◌, ◌≢◌, refl, sym, ap, subst, arith, true, false, Option, List, [],
  ◌∷◌, Bool-cases, inl, inr, ℤ, pos, negsuc, IsInt64, ltb_ℤ,
}
use csi_gcs.Go.{ok}
use csi_gcs.World.{World, Attrs}
use csi_gcs.World.Laws.{IsStorage, IsApart}
use csi_gcs.World.Atomic.{IsAtomic}
use csi_gcs.Driver.Types.{required_or_zero}
use csi_gcs.Driver.Controller.{CreateVolumeRequest, Volume, create_volume}
use csi_gcs.Driver.Controller.Capacity.{Holds}
use csi_gcs.Driver.Controller.Create.{create_volume-CreatePost}
use csi_gcs.Driver.Volumes.{
  VolumeState, volume_of, of_capacity, Command, create, expand, delete, inspect, ◌⊢◌⟶◌, keep, make,
  make_sized, size, grow, remove, AtLeast,
}
use csi_gcs.Driver.Volumes.Buckets.{volumes}
use csi_gcs.Driver.Volumes.Requests.{
  Request, create_volume_request, delete_volume_request, expand_volume_request, validate_request,
  command, IsRequest, handle, target, handle-Moves, run,
}

-- A request that asks for no negative capacity and does not delete the volume `n`.
abbrev pub Spares : String → Request → Type 0
Spares n (create_volume_request req) =
    IsInt64 (required_or_zero req.required_bytes)
    × (ltb_ℤ (required_or_zero req.required_bytes) (pos 0) ≡ false)
Spares n (delete_volume_request volume_id secrets) = volume_id ≢ n
Spares n (expand_volume_request req) = IsInt64 (required_or_zero req.required_bytes)
Spares n (validate_request req) = Unit

abbrev pub AllSpare : String → List Request → Type 0
AllSpare n [] = Unit
AllSpare n (r ∷ rs) = Spares n r × AllSpare n rs

ltb_ℤ_trans : (i j c : ℤ) → ltb_ℤ i j ≡ true → ltb_ℤ i c ≡ false → ltb_ℤ j c ≡ false
ltb_ℤ_trans (pos i) (pos j) (pos c) h g = ground arith
ltb_ℤ_trans (pos i) (pos j) (negsuc c) h g = refl
ltb_ℤ_trans (pos i) (negsuc j) c h g = cc
ltb_ℤ_trans (negsuc i) j (pos c) h g = cc
ltb_ℤ_trans (negsuc i) (pos j) (negsuc c) h g = refl
ltb_ℤ_trans (negsuc i) (negsuc j) (negsuc c) h g = ground arith

below_zero : (new c : ℤ) → ltb_ℤ new (pos 0) ≡ false → ltb_ℤ (pos 0) c ≡ false → ltb_ℤ new c ≡ false
below_zero (pos i) (pos c) h g = ground arith
below_zero (pos i) (negsuc c) h g = refl
below_zero (negsuc i) c h g = cc

-- The commands that keep a promise.
abbrev Keeping : Command → Type 0
Keeping (create new) = ltb_ℤ new (pos 0) ≡ false
Keeping (expand new) = Unit
Keeping delete = ⊥
Keeping inspect = Unit

AtLeast-⟶ :
    {cmd : Command} {v w : VolumeState} (c : ℤ)
    → cmd ⊢ v ⟶ w
    → Keeping cmd
    → AtLeast c v
    → AtLeast c w
AtLeast-⟶ c keep h kept = kept
AtLeast-⟶ c make h (i, e, large) = cc
AtLeast-⟶ c make_sized h (i, e, large) = cc
AtLeast-⟶ c (size {new}) h (i, e, large) =
    let z : i ≡ pos 0 = cc in (new, refl, below_zero new c h (rw (sym z) large))
AtLeast-⟶ c (grow {i} {new} small) h (j, e, large) =
    let z : j ≡ i = cc in (new, refl, ltb_ℤ_trans i new c small (rw (sym z) large))
AtLeast-⟶ c remove h kept = absurd h

IsRequest-of_Spares : (n : String) (r : Request) → Spares n r → IsRequest r
IsRequest-of_Spares n (create_volume_request req) h = h.0
IsRequest-of_Spares n (delete_volume_request volume_id secrets) h = tt
IsRequest-of_Spares n (expand_volume_request req) h = h
IsRequest-of_Spares n (validate_request req) h = tt

module _ (W : World) (bucket : W.State → String → Option Attrs) (storage : IsStorage W bucket)
    (atomic : IsAtomic W bucket) (apart : IsApart W String (Option Attrs) bucket) where
  Keeping-of_Spares :
      (n : String) (r : Request) (s : W.State)
      → Spares n r
      → target W bucket storage atomic apart r s ≡ n
      → Keeping (command r)
  Keeping-of_Spares n (create_volume_request req) s h e = h.1
  Keeping-of_Spares n (delete_volume_request volume_id secrets) s h e = h e
  Keeping-of_Spares n (expand_volume_request req) s h e = tt
  Keeping-of_Spares n (validate_request req) s h e = tt

  handle-AtLeast :
      (n : String) (c : ℤ) (r : Request) (s : W.State)
      → Spares n r
      → AtLeast c (volumes W bucket s n)
      → AtLeast c (volumes W bucket (handle W r s) n)
  handle-AtLeast n c r s h kept =
      let (others, step) =
        handle-Moves W bucket storage atomic apart r s (IsRequest-of_Spares n r h) in
      let k = target W bucket storage atomic apart r s in
      elim (Bool-cases (k == n)) [
        | inl same ↦
            let e : k ≡ n = (eq_iff k n).0 same in
            subst (λ m. AtLeast c (volumes W bucket (handle W r s) m)) e
              (AtLeast-⟶ c step (Keeping-of_Spares n r s h e)
                (subst (λ m. AtLeast c (volumes W bucket s m)) (sym e) kept))
        | inr other ↦ let ne : k ≢ n = λ e. cc ((eq_iff k n).1 e) in rw (others n ne) kept
      ]

  -- A volume that is there with a capacity keeps at least that capacity, whatever requests follow
  -- and however they end, if none of them deletes it or asks for a negative capacity and each asks
  -- for an `int64`. The storage is as `IsStorage` and `IsAtomic` describe it, and the other calls
  -- leave the buckets alone (`IsApart`).
  pub run-AtLeast :
      (n : String) (c : ℤ) (rs : List Request) (s : W.State)
      → AllSpare n rs
      → AtLeast c (volumes W bucket s n)
      → AtLeast c (volumes W bucket (run W rs s) n)
  unfolding run
  run-AtLeast n c [] s h kept = kept
  run-AtLeast n c (r ∷ rs) s (h, hs) kept =
      run-AtLeast n c rs (handle W r s) hs (handle-AtLeast n c r s h kept)

  AtLeast-of_Holds : (x : Option Attrs) (c : ℤ) → Holds x c → AtLeast c (volume_of x)
  AtLeast-of_Holds x c h = (h.capacity, ap volume_of h.found ∙ ap of_capacity h.stated, h.enough)

  -- What `CreateVolume` has promised: behind any later requests the volume that it returned is there
  -- with at least the capacity that was asked for. None of the later requests deletes it or asks for
  -- a negative capacity, each capacity is an `int64`, the storage is as `IsStorage` and `IsAtomic`
  -- describe it, and the other calls leave the buckets alone (`IsApart`).
  pub run-create_volume :
      (req : CreateVolumeRequest) (s : W.State) (v : Volume) (rs : List Request)
      → IsInt64 (required_or_zero req.required_bytes)
      → (create_volume W req s).0 ≡ ok v
      → AllSpare v.volume_id rs
      → AtLeast
          (required_or_zero req.required_bytes)
          (volumes W bucket (run W rs (create_volume W req s).1) v.volume_id)
  run-create_volume req s v rs h made hs =
      let (_, created) = create_volume-CreatePost W bucket storage apart req s h in
      let (_, _, _, holds) = rw made at created in
      run-AtLeast v.volume_id _ rs _ hs (AtLeast-of_Holds _ _ holds)
