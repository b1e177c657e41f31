-- ===== src/Driver/Volumes/Steps.antt =====
-- Every handler of the controller is one step of the volumes, whatever the calls of Cloud Storage
-- answer.
use csi_gcs.Base.{
  String, ◌∙◌, ◌≡◌, sym, ap, refl, false, Option, Dict, lookup, Bool-cases, inl, inr, ◌⊎◌, ℤ, pos,
  IsInt64, ltb_ℤ, if◌then◌else◌,
}
use csi_gcs.Go.{Outcome, bind, pure}
use csi_gcs.Go.Laws.{Outcome-cases, call_post, bind_post, relabel_state}
use csi_gcs.Flags.Names.{flag_bucket}
use csi_gcs.World.{World, Attrs}
use csi_gcs.World.Laws.{IsStorage}
use csi_gcs.World.Atomic.{IsAtomic}
use csi_gcs.Driver.Types.{text_or_empty}
use csi_gcs.Driver.Controller.{
  ensure_bucket, existing_capacity, write_capacity, check_capacity, create_in, Volume,
  ExpandVolumeResponse, expand_in, delete_in, delete_found,
}
use csi_gcs.Driver.Controller.Capacity.{OthersSame, existing_capacity_post}
use csi_gcs.Driver.Volumes.{
  stated, of_capacity, volume_of, create, expand, delete, keep, make, make_sized, size, grow,
  remove,
}
use csi_gcs.Driver.Volumes.Buckets.{
  volumes, Moves, stay, between, Ensured, fresh_volume, ensure_bucket_either, write_capacity_either,
  check_capacity_either,
}

module _ (W : World) (bucket : W.State → String → Option Attrs) (storage : IsStorage W bucket)
    (atomic : IsAtomic W bucket) where
  open storage use {attrs_keeps, delete_other}
  open atomic use {delete_either}

  -- The bucket as `ensure_bucket` left it is a step already.
  Ensured-Moves :
      (n : String) (new : ℤ) (s t : W.State)
      → Ensured W bucket n s t
      → Moves W bucket (create new) n s t
  Ensured-Moves n new s t (others, inl unchanged) =
      (λ m ne. ap volume_of (others m ne), rw unchanged keep)
  Ensured-Moves n new s t (others, inr (absent, fresh)) =
      (λ m ne. ap volume_of (others m ne), rw (absent, fresh, fresh_volume) make)

  -- Behind the capacity that was read, `Check / Set Capacity` completes the step.
  sized-Moves :
      (n : String) (i new : ℤ) (s t u : W.State)
      → Ensured W bucket n s t
      → volumes W bucket t n ≡ stated i
      → OthersSame bucket n t u
      → (bucket u n ≡ bucket t n) ⊎ ((i ≡ pos 0) × (volumes W bucket u n ≡ stated new))
      → Moves W bucket (create new) n s u
  sized-Moves n i new s t u ensured read others (inl unchanged) =
      let (before, step) = Ensured-Moves n new s t ensured in
      (λ m ne. ap volume_of (others m ne) ∙ before m ne, rw unchanged step)
  sized-Moves n i new s t u (before, inl unchanged) read others (inr (zero_read, done)) =
      let was : volumes W bucket s n ≡ stated (pos 0) =
        ap volume_of (sym unchanged) ∙ read ∙ ap stated zero_read in
      (λ m ne. ap volume_of (others m ne ∙ before m ne), rw (was, done) size)
  sized-Moves n i new s t u (before, inr (absent, fresh)) read others (inr (_, done)) =
      (λ m ne. ap volume_of (others m ne ∙ before m ne), rw (absent, done) make_sized)

  pub create_in-Moves :
      (options : Dict String) (new : ℤ) (c : W.Client) (s : W.State)
      → IsInt64 new
      → Moves W bucket
          (create new)
          (text_or_empty (lookup flag_bucket options))
          s
          (create_in W options new c s).1
  unfolding create_in bind
  create_in-Moves options new c s h =
      let n = text_or_empty (lookup flag_bucket options) in
      let P = λ (r : Outcome Volume × W.State). Moves W bucket (create new) n s r.1 in
      let v : Volume = record { volume_id = n; volume_context = options; capacity_bytes = new } in
      let last = λ (_ : Unit {0}) (t : W.State). pure v t in
      let middle = λ (i : ℤ) (t : W.State). bind (check_capacity W c n i new t) last in
      let first = λ (_ : Unit {0}) (t : W.State). bind (existing_capacity W c n t) middle in
      let ensured = ensure_bucket_either W bucket storage atomic c n options s in
      bind_post P (ensure_bucket W c n options s) first
        (λ _ _.
          existing_capacity_post W bucket storage (λ r. P (bind r middle)) c n _
            (λ i a u same found read.
              let was = ap volume_of (sym (same n) ∙ found) ∙ ap of_capacity read in
              let (others, either) = check_capacity_either W bucket storage atomic c n i new u h in
              let done =
                sized-Moves n i new s _ (check_capacity W c n i new u).1 ensured was
                  (λ m ne. others m ne ∙ same m)
                  (elim either [
                    | inl unchanged ↦ inl (unchanged ∙ same n)
                    | inr written ↦ inr written
                  ]) in
              bind_post P (check_capacity W c n i new u) last (λ _ _. done) (λ e _. done))
            (λ e u same.
              between W bucket (create new) n s s _ u (λ m. refl) same
                (Ensured-Moves n new s _ ensured)))
        (λ e _. Ensured-Moves n new s _ ensured)

  -- `ControllerExpandVolume` from the bucket on.
  pub expand_in-Moves :
      (n : String) (new : ℤ) (c : W.Client) (s : W.State)
      → IsInt64 new
      → Moves W bucket (expand new) n s (expand_in W n new c s).1
  unfolding expand_in bind
  expand_in-Moves n new c s h =
      let P = λ (r : Outcome ExpandVolumeResponse × W.State). Moves W bucket (expand new) n s r.1 in
      let v : ExpandVolumeResponse = record {
        capacity_bytes = new;
        node_expansion_required = false;
      } in
      let last = λ (_ : Unit {0}) (t : W.State). pure v t in
      let middle = λ (i : ℤ) (t : W.State).
        bind ((if ltb_ℤ i new then write_capacity W c n new else pure tt) t) last in
      let same0 = attrs_keeps c n s in
      call_post P _ (W.bucket_attrs c n s) (λ _ t. bind (existing_capacity W c n t) middle)
        (λ a0 _.
          existing_capacity_post W bucket storage (λ r. P (bind r middle)) c n _
            (λ i a u same found read.
              let was : volumes W bucket s n ≡ stated i =
                ap volume_of (sym (same n ∙ same0 n) ∙ found) ∙ ap of_capacity read in
              elim (Bool-cases (ltb_ℤ i new)) [
                | inl small ↦ rw small (
                    let (others, either) =
                      write_capacity_either W bucket storage atomic c n new u h in
                    let done : Moves W bucket (expand new) n s (write_capacity W c n new u).1 = (
                      λ m ne. ap volume_of (others m ne ∙ same m ∙ same0 m),
                      elim either [
                        | inl unchanged ↦ rw (unchanged, same n, same0 n) keep
                        | inr written ↦ rw (was, written) (grow small)
                      ],
                    ) in
                    bind_post P (write_capacity W c n new u) last (λ _ _. done) (λ e _. done))
                | inr large ↦ rw large (stay W bucket (expand new) n s u (λ m. same m ∙ same0 m))
              ])
            (λ e u same. stay W bucket (expand new) n s u (λ m. same m ∙ same0 m)))
        (λ e _. stay W bucket (expand new) n s _ same0)

  pub delete_in-Moves :
      (n : String) (c : W.Client) (s : W.State) → Moves W bucket delete n s (delete_in W n c s).1
  unfolding delete_in delete_found bind
  delete_in-Moves n c s = elim (Outcome-cases (W.bucket_attrs c n s).0) [
    | inl (a, found) ↦
        rw (found, relabel_state)
          (
            λ m ne. ap volume_of (delete_other c n _ m ne ∙ attrs_keeps c n s m),
            elim (delete_either c n (W.bucket_attrs c n s).1) [
              | inl unchanged ↦ rw (unchanged, attrs_keeps c n s n) keep
              | inr gone ↦ rw gone remove
            ],
          )
    | inr (e, failed) ↦ rw failed (stay W bucket delete n s _ (attrs_keeps c n s))
  ]
