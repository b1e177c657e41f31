-- ===== src/Driver/Controller/Expand.antt =====
-- What `ControllerExpandVolume` and `DeleteVolume` promise of the bucket, and of the others.
use csi_gcs.Base.{
  String, ◌∙◌, ◌≡◌, sym, ap, subst, refl, true, false, Option, none, some, Dict, Bool-cases, ◌⊎◌,
  inl, inr, ℤ, IsInt64, ltb_ℤ, if◌then◌else◌,
}
use csi_gcs.Go.{pure, Error, Outcome, ok, err, bind}
use csi_gcs.Go.Laws.{Outcome-cases, call_post, relabel_post, reject_post}
use csi_gcs.World.{World, Attrs}
use csi_gcs.World.Laws.{IsStorage, IsApart}
use csi_gcs.Util.Capacity.{bucket_capacity}
use csi_gcs.Driver.Types.{required_or_zero}
use csi_gcs.Driver.Client.Laws.{with_client_post}
use csi_gcs.Driver.Controller.{
  existing_capacity, write_capacity, ExpandVolumeRequest, ExpandVolumeResponse, expand_in,
  controller_expand_volume, delete_in, delete_volume,
}
use csi_gcs.Driver.Controller.Capacity.{
  Holds, BucketsSame, OthersSame, existing_capacity_post, write_capacity_post, ltb_ℤ_irrefl,
}

module _ (W : World) (bucket : W.State → String → Option Attrs) (storage : IsStorage W bucket) where
  open storage use {attrs_keeps, delete_ok, delete_other}

  -- What a caller of `ControllerExpandVolume` may rely on. A capacity that is large enough stays.
  abbrev pub Expanded : W.State → String → ℤ → W.State → Outcome ExpandVolumeResponse → Type 0
  Expanded s n new t (ok v) =
      (v.capacity_bytes ≡ new)
      × (v.node_expansion_required ≡ false)
      × Holds (bucket t n) new
      × ((a : Attrs) (i : ℤ)
          → bucket s n ≡ some a
          → bucket_capacity a ≡ ok i
          → ltb_ℤ i new ≡ false
          → bucket t n ≡ some a)
  Expanded s n new t (err e) = Unit

  abbrev pub ExpandPost : W.State → String → ℤ → Outcome ExpandVolumeResponse × W.State → Type 0
  ExpandPost s n new r = OthersSame bucket n s r.1 × Expanded s n new r.1 r.0

  -- With a capacity that was read, the one that is written is larger.
  grown :
      (s : W.State) (n : String) (b a : Attrs) (i j new : ℤ) (t : W.State)
      → bucket s n ≡ some b
      → bucket_capacity b ≡ ok j
      → ltb_ℤ j new ≡ true
      → bucket s n ≡ some a
      → bucket_capacity a ≡ ok i
      → ltb_ℤ i new ≡ false
      → bucket t n ≡ some a
  grown s n b a i j new t p q small p' q' large =
      let e : some a ≡ some b = sym p' ∙ p in
      let f : a ≡ b = cc in
      let g : ok i ≡ ok j = sym q' ∙ ap bucket_capacity f ∙ q in
      let g' : i ≡ j = cc in
      let bad : false ≡ true = sym large ∙ ap (λ k. ltb_ℤ k new) g' ∙ small in cc

  expand_in_post :
      (n : String) (new : ℤ) (c : W.Client) (s : W.State)
      → IsInt64 new
      → ExpandPost s n new (expand_in W n new c s)
  unfolding expand_in bind
  expand_in_post n new c s h =
      let P = λ (r : Outcome ExpandVolumeResponse × W.State). ExpandPost s n new r in
      let v : ExpandVolumeResponse = record {
        capacity_bytes = new;
        node_expansion_required = false;
      } in
      let last = λ (_ : Unit {0}) (t : W.State). pure v t in
      let middle = λ (i : ℤ) (t : W.State).
        bind ((if ltb_ℤ i new then write_capacity W c n new else pure tt) t) last in
      call_post P _ (W.bucket_attrs c n s) (λ _ t. bind (existing_capacity W c n t) middle)
        (λ a0 read.
          existing_capacity_post W bucket storage (λ r. P (bind r middle)) c n _
            (λ i b u same found stated.
              let now : bucket s n ≡ some b = sym (same n ∙ attrs_keeps c n s n) ∙ found in
              elim (Bool-cases (ltb_ℤ i new)) [
                | inl small ↦ rw small (
                    write_capacity_post W bucket storage (λ r. P (bind r last)) c n new u b h found
                      (λ a t others there written. (
                        λ m ne. others m ne ∙ same m ∙ attrs_keeps c n s m,
                        (
                          refl,
                          refl,
                          record {
                            attrs = a;
                            found = there;
                            capacity = new;
                            stated = written;
                            enough = ltb_ℤ_irrefl new;
                          },
                          λ a' i' p' q' large.
                              grown s n b a' i' i new t now stated small p' q' large,
                        ),
                      ))
                      (λ e t others. (λ m ne. others m ne ∙ same m ∙ attrs_keeps c n s m, tt)))
                | inr large ↦ rw large (
                  λ m ne. same m ∙ attrs_keeps c n s m,
                  (
                    refl,
                    refl,
                    record {
                      attrs = b;
                      found = found;
                      capacity = i;
                      stated = stated;
                      enough = large;
                    },
                    λ a' i' p' q' large'. same n ∙ attrs_keeps c n s n ∙ p',
                  ),
                )
              ])
            (λ e u same. (λ m ne. same m ∙ attrs_keeps c n s m, tt)))
        (λ e _. (λ m ne. attrs_keeps c n s m, tt))

  ExpandPost-from :
      (s t : W.State) (n : String) (new : ℤ) (r : Outcome ExpandVolumeResponse × W.State)
      → BucketsSame bucket s t
      → ExpandPost t n new r
      → ExpandPost s n new r
  ExpandPost-from s t n new (ok v, u) same (others, (size, node, holds, kept)) = (
    λ m ne. others m ne ∙ same m,
    (size, node, holds, λ a i p q large. kept a i (same n ∙ p) q large),
  )
  ExpandPost-from s t n new (err e, u) same (others, _) = (λ m ne. others m ne ∙ same m, tt)

  ExpandPost-respects :
      (s : W.State) (n : String) (new : ℤ) (r : Outcome ExpandVolumeResponse) (t u : W.State)
      → BucketsSame bucket t u
      → ExpandPost s n new (r, t)
      → ExpandPost s n new (r, u)
  ExpandPost-respects s n new (ok v) t u same (others, (size, node, holds, kept)) = (
    λ m ne. same m ∙ others m ne,
    (
      size,
      node,
      subst (λ a. Holds a new) (sym (same n)) holds,
      λ a i p q large. same n ∙ kept a i p q large,
    ),
  )
  ExpandPost-respects s n new (err e) t u same (others, _) = (λ m ne. same m ∙ others m ne, tt)

  module _ (apart : IsApart W String (Option Attrs) bucket) where
    -- For storage that `IsStorage` describes and other calls that leave the buckets alone
    -- (`IsApart`): a volume that `ControllerExpandVolume` reports as expanded is there, and its
    -- labels state at least the capacity that was asked for, if that is an `int64`. The answer
    -- gives the capacity that was asked for, and a bucket with enough capacity is left as it is.
    -- Whatever it returns, no other bucket has changed.
    pub controller_expand_volume-ExpandPost :
        (req : ExpandVolumeRequest) (s : W.State)
        → IsInt64 (required_or_zero req.required_bytes)
        → ExpandPost s req.volume_id
            (required_or_zero req.required_bytes)
            (controller_expand_volume W req s)
    unfolding controller_expand_volume
    controller_expand_volume-ExpandPost req s h =
        let new = required_or_zero req.required_bytes in
        reject_post (ExpandPost s req.volume_id new) _ _ s _ (λ _. (λ m _. refl, tt))
          λ _.
            with_client_post W apart (ExpandPost s req.volume_id new) _ req.secrets s
              (λ c u same. ExpandPost-from s u _ new _ same (expand_in_post _ new c u h))
              (λ e u same. (λ m _. same m, tt)) (ExpandPost-respects s _ new)

  -- What a caller of `DeleteVolume` may rely on: behind a success the bucket is gone, or Google Cloud
  -- Storage has answered the question for it with an error, in a state with the same buckets.
  abbrev pub Deleted : W.State → String → W.State → Outcome (Unit {0}) → Type 0
  Deleted s n t (ok _) =
      (bucket t n ≡ none)
      ⊎ ((c : W.Client) × (u : W.State) × (e : Error) × BucketsSame bucket s u
          × ((W.bucket_attrs c n u).0 ≡ err e)
          × BucketsSame bucket s t)
  Deleted s n t (err e) = Unit

  abbrev pub DeletePost : W.State → String → Outcome (Unit {0}) × W.State → Type 0
  DeletePost s n r = OthersSame bucket n s r.1 × Deleted s n r.1 r.0

  delete_in_post :
      (n : String) (c : W.Client) (s u : W.State)
      → BucketsSame bucket s u
      → DeletePost s n (delete_in W n c u)
  unfolding delete_in bind
  delete_in_post n c s u same = elim (Outcome-cases (W.bucket_attrs c n u).0) [
    | inl (a, found) ↦ rw found (
        relabel_post (DeletePost s n) _ (W.bucket_delete c n (W.bucket_attrs c n u).1)
          (λ _ gone. (
            λ m ne. delete_other c n _ m ne ∙ attrs_keeps c n u m ∙ same m,
            inl (delete_ok c n _ gone),
          ))
          (λ _ _. (λ m ne. delete_other c n _ m ne ∙ attrs_keeps c n u m ∙ same m, tt)))
    | inr (e, failed) ↦ rw failed (
      λ m ne. attrs_keeps c n u m ∙ same m,
      inr (c, u, e, same, failed, λ m. attrs_keeps c n u m ∙ same m),
    )
  ]

  DeletePost-respects :
      (s : W.State) (n : String) (r : Outcome (Unit {0})) (t u : W.State)
      → BucketsSame bucket t u
      → DeletePost s n (r, t)
      → DeletePost s n (r, u)
  DeletePost-respects s n (ok _) t u same (others, inl gone) =
      (λ m ne. same m ∙ others m ne, inl (same n ∙ gone))
  DeletePost-respects s n (ok _) t u same (others, inr (c, v, e, before, failed, after)) =
      (λ m ne. same m ∙ others m ne, inr (c, v, e, before, failed, λ m. same m ∙ after m))
  DeletePost-respects s n (err e) t u same (others, _) = (λ m ne. same m ∙ others m ne, tt)

  module _ (apart : IsApart W String (Option Attrs) bucket) where
    -- For storage that `IsStorage` describes and other calls that leave the buckets alone
    -- (`IsApart`): behind a success of `DeleteVolume` the bucket is gone, unless the question
    -- whether it exists was answered by an error: any such error counts as a bucket that does not
    -- exist, and then all buckets are as they were. Whatever it returns, no other bucket has
    -- changed.
    pub delete_volume-DeletePost :
        (volume_id : String) (secrets : Dict String) (s : W.State)
        → DeletePost s volume_id (delete_volume W volume_id secrets s)
    unfolding delete_volume
    delete_volume-DeletePost volume_id secrets s =
        reject_post (DeletePost s volume_id) _ _ s _ (λ _. (λ m _. refl, tt))
          λ _.
            with_client_post W apart (DeletePost s volume_id) _ secrets s
              (λ c u same. delete_in_post volume_id c s u same) (λ e u same. (λ m _. same m, tt))
              (DeletePost-respects s volume_id)
