-- ===== src/Driver/Controller/Succeeds/Existing.antt =====
-- When `DeleteVolume` and `ControllerExpandVolume` succeed.
use csi_gcs.Base.{
  String, ◌==◌, ◌∙◌, ◌≡◌, refl, ap, false, Option, some, Dict, inl, inr, Bool-cases, ℤ, ltb_ℤ,
  if◌then◌else◌,
}
use csi_gcs.Go.{ok, bind, reject, relabel, pure}
use csi_gcs.Go.Laws.{Outcome-cases, bind_ok, relabel_ok_of, relabel_state}
use csi_gcs.World.{World, Attrs}
use csi_gcs.World.Laws.{IsStorage, IsApart}
use csi_gcs.World.Up.{IsUp}
use csi_gcs.Util.Capacity.{bucket_capacity, set_bucket_capacity}
use csi_gcs.Driver.Types.{required_or_zero}
use csi_gcs.Driver.Controller.{
  ExpandVolumeRequest, write_capacity, delete_found, delete_in, delete_volume, expand_in,
  controller_expand_volume,
}
use csi_gcs.Driver.Controller.Succeeds.{
  HasCredentials, with_client_ok, existing_capacity_ok, existing_capacity-BucketsSame,
}

module _ (W : World) (bucket : W.State → String → Option Attrs) (storage : IsStorage W bucket)
    (apart : IsApart W String (Option Attrs) bucket) (up : IsUp W bucket) where
  open storage use {attrs_ok, attrs_keeps}
  open up use {attrs_up, delete_up, set_label_up}

  delete_in_ok : (n : String) (c : W.Client) (s : W.State) → (delete_in W n c s).0 ≡ ok tt
  unfolding delete_in delete_found bind
  delete_in_ok n c s = elim (Outcome-cases (W.bucket_attrs c n s).0) [
    | inl (a, read) ↦
        rw read
          (relabel_ok_of _ _ (delete_up c n _ a (attrs_keeps c n s n ∙ attrs_ok c n s a read)))
    | inr (e, failed) ↦ rw failed refl
  ]

  -- On a day on which all calls are answered, `DeleteVolume` succeeds for a request with a volume
  -- id and with no secrets or a key among them, whether the bucket is there or not. The hypotheses
  -- are `IsStorage`, `IsApart` and `IsUp`.
  pub delete_volume_of_HasCredentials :
      (volume_id : String) (secrets : Dict String) (s : W.State)
      → (volume_id == "") ≡ false
      → HasCredentials secrets
      → (delete_volume W volume_id secrets s).0 ≡ ok tt
  unfolding delete_volume bind reject
  delete_volume_of_HasCredentials volume_id secrets s named credentials = rw named (
      with_client_ok W bucket storage apart up secrets _ s credentials
        (λ c u _. delete_in_ok volume_id c u))

  grow_ok :
      (c : W.Client) (n : String) (i new : ℤ) (t : W.State) (a : Attrs)
      → bucket t n ≡ some a
      → ((if ltb_ℤ i new then write_capacity W c n new else pure tt) t).0 ≡ ok tt
  unfolding write_capacity set_bucket_capacity
  grow_ok c n i new t a there = elim (Bool-cases (ltb_ℤ i new)) [
    | inl small ↦
        let (b, done) = set_label_up c n _ _ t a there in
        rw small (bind_ok _ _ (relabel_ok_of _ _ done) refl)
    | inr large ↦ rw large refl
  ]

  expand_in_ok :
      (n : String) (new : ℤ) (c : W.Client) (s : W.State) (a : Attrs) (i : ℤ)
      → bucket s n ≡ some a
      → bucket_capacity a ≡ ok i
      → (expand_in W n new c s).0
        ≡ ok (record { capacity_bytes = new; node_expansion_required = false })
  unfolding expand_in
  expand_in_ok n new c s a i there stated =
      let read = attrs_up c n s a there in
      let here : bucket (relabel _ (W.bucket_attrs c n s)).1 n ≡ some a =
        ap (λ u. bucket u n) (relabel_state _ (W.bucket_attrs c n s))
        ∙ attrs_keeps c n s n
        ∙ there in
      bind_ok _ _ (relabel_ok_of _ _ read) (
        bind_ok _ _ (existing_capacity_ok W bucket storage apart up c n _ a i here stated) (
          bind_ok _ _
            (grow_ok c n i new _ a
              (existing_capacity-BucketsSame W bucket storage apart up c n _ n ∙ here))
            refl))

  -- On a day on which all calls are answered, `ControllerExpandVolume` succeeds for a request with
  -- a volume id and with no secrets or a key among them, if the bucket is there and its labels
  -- state a capacity or none. The hypotheses are `IsStorage`, `IsApart` and `IsUp`.
  pub controller_expand_volume_of_HasCredentials :
      (req : ExpandVolumeRequest) (s : W.State) (a : Attrs) (i : ℤ)
      → (req.volume_id == "") ≡ false
      → HasCredentials req.secrets
      → bucket s req.volume_id ≡ some a
      → bucket_capacity a ≡ ok i
      → (controller_expand_volume W req s).0
        ≡ ok (record {
          capacity_bytes = required_or_zero req.required_bytes;
          node_expansion_required = false;
        })
  unfolding controller_expand_volume bind reject
  controller_expand_volume_of_HasCredentials req s a i named credentials there stated = rw named (
      with_client_ok W bucket storage apart up req.secrets _ s credentials
        (λ c u same. expand_in_ok _ _ c u a i (same _ ∙ there) stated))
