-- ===== src/Driver/Volumes/Buckets.antt =====
-- What the controller's calls have done to a bucket, with or without an error.
use csi_gcs.Base.{
  String, ◌∙◌, ◌≡◌, sym, ap, refl, arith, true, Option, none, some, [], Dict, lookup, Bool-cases,
  inl, inr, ◌⊎◌, ℤ, pos, negsuc, IsInt64, ltb_ℤ, ◌=ℤ◌,
}
use csi_gcs.Go.{Error, Outcome, bind, relabel, reject}
use csi_gcs.Go.Laws.{Outcome-cases, call_post, relabel_state}
use csi_gcs.Flags.Names.{flag_project_id}
use csi_gcs.Strconv.{format_int}
use csi_gcs.World.{World, Attrs, NewBucket}
use csi_gcs.World.Laws.{IsStorage}
use csi_gcs.World.Atomic.{IsAtomic}
use csi_gcs.Util.Capacity.{bucket_capacity, capacity_loop, set_bucket_capacity}
use csi_gcs.Util.Capacity.Laws.{bucket_capacity-insert}
use csi_gcs.Driver.Controller.{create_bucket, ensure_bucket, write_capacity, check_capacity}
use csi_gcs.Driver.Controller.Capacity.{BucketsSame, OthersSame}
use csi_gcs.Driver.Volumes.{stated, of_capacity, volume_of, Volumes, Command, keep, Step}

eq_of_eqb : (i : ℤ) → (i =ℤ pos 0) ≡ true → i ≡ pos 0
eq_of_eqb (pos n) h = let e : n ≡ 0 = ground arith in ap pos e
eq_of_eqb (negsuc n) h = cc

pub fresh_volume : volume_of (some (record { labels = [] })) ≡ stated (pos 0)
unfolding bucket_capacity capacity_loop
fresh_volume = refl

module _ (W : World) (bucket : W.State → String → Option Attrs) where
  abbrev pub volumes : W.State → Volumes
  volumes s n = volume_of (bucket s n)

  abbrev pub Moves : Command → String → W.State → W.State → Type 0
  Moves c n s t = Step c n (volumes s) (volumes t)

  pub stay : (c : Command) (n : String) (s t : W.State) → BucketsSame bucket s t → Moves c n s t
  stay c n s t same = (λ m _. ap volume_of (same m), rw (same n) keep)

  -- Steps respect states with the same buckets.
  pub between :
      (c : Command) (n : String) (s s' t t' : W.State)
      → BucketsSame bucket s s'
      → BucketsSame bucket t t'
      → Moves c n s' t
      → Moves c n s t'
  between c n s s' t t' before after (others, step) = (
    λ m ne. ap volume_of (after m) ∙ others m ne ∙ ap volume_of (before m),
    rw (after n, ← before n) step,
  )

  -- What `ensure_bucket` has done, with or without an error.
  abbrev pub Ensured : String → W.State → W.State → Type 0
  Ensured n s t =
      OthersSame bucket n s t
      × ((bucket t n ≡ bucket s n)
          ⊎ ((bucket s n ≡ none) × (bucket t n ≡ some (record { labels = [] }))))

  -- What a written label has done, with or without an error.
  abbrev pub Written : String → ℤ → W.State → W.State → Type 0
  Written n new s t =
      OthersSame bucket n s t × ((bucket t n ≡ bucket s n) ⊎ (volumes t n ≡ stated new))

module _ (W : World) (bucket : W.State → String → Option Attrs) (storage : IsStorage W bucket)
    (atomic : IsAtomic W bucket) where
  open storage use {attrs_ok, attrs_keeps, create_other, set_label_other, delete_other}
  open atomic use {create_either, delete_either, set_label_either}

  created_either :
      (c : W.Client) (n p : String) (b : NewBucket) (f : Error → Error) (s t : W.State)
      → BucketsSame bucket s t
      → Ensured W bucket n s (relabel f (W.bucket_create c n p b t)).1
  created_either c n p b f s t same = rw relabel_state (
    λ m ne. create_other c n p b t m ne ∙ same m,
    elim (create_either c n p b t) [
      | inl unchanged ↦ inl (unchanged ∙ same n)
      | inr (absent, fresh) ↦ inr (sym (same n) ∙ absent, fresh)
    ],
  )

  create_bucket_either :
      (c : W.Client) (n : String) (options : Dict String) (project : Option String) (s t : W.State)
      → BucketsSame bucket s t
      → Ensured W bucket n s (create_bucket W c n options project t).1
  unfolding create_bucket
  create_bucket_either c n options none s t same = (λ m _. same m, inl (same n))
  create_bucket_either c n options (some p) s t same = created_either c n p _ _ s t same

  pub ensure_bucket_either :
      (c : W.Client) (n : String) (options : Dict String) (s : W.State)
      → Ensured W bucket n s (ensure_bucket W c n options s).1
  unfolding ensure_bucket bind
  ensure_bucket_either c n options s = elim (Outcome-cases (W.bucket_attrs c n s).0) [
    | inl (a, found) ↦ rw found (λ m _. attrs_keeps c n s m, inl (attrs_keeps c n s n))
    | inr (e, failed) ↦
        rw failed (
          create_bucket_either c n options (lookup flag_project_id options) s _ (attrs_keeps c n s))
  ]

  pub write_capacity_either :
      (c : W.Client) (n : String) (new : ℤ) (s : W.State)
      → IsInt64 new
      → Written W bucket n new s (write_capacity W c n new s).1
  unfolding write_capacity set_bucket_capacity
  write_capacity_either c n new s h =
      let written : Written W bucket n new s
          (W.bucket_set_label c n "capacity" (format_int new 10) s).1 =
        (
          set_label_other c n _ _ s,
          elim (set_label_either c n "capacity" (format_int new 10) s) [
            | inl unchanged ↦ inl unchanged
            | inr (old, there, after) ↦
                inr (ap volume_of after ∙ ap of_capacity (bucket_capacity-insert old.labels new h))
          ],
        ) in
      call_post (λ (r : Outcome (Unit {0}) × W.State). Written W bucket n new s r.1) _ _ _
        (λ _ _. written) (λ _ _. written)

  -- `Check / Set Capacity` writes where no capacity is stated.
  pub check_capacity_either :
      (c : W.Client) (n : String) (i new : ℤ) (s : W.State)
      → IsInt64 new
      → OthersSame bucket n s (check_capacity W c n i new s).1
        × ((bucket (check_capacity W c n i new s).1 n ≡ bucket s n)
            ⊎ ((i ≡ pos 0) × (volumes W bucket (check_capacity W c n i new s).1 n ≡ stated new)))
  unfolding check_capacity reject
  check_capacity_either c n i new s h = elim (Bool-cases (i =ℤ pos 0)) [
    | inl unset ↦ rw unset (
        let (others, either) = write_capacity_either c n new s h in
        (
          others,
          elim either [ inl unchanged ↦ inl unchanged | inr done ↦ inr (eq_of_eqb i unset, done) ],
        ))
    | inr set ↦ rw set (elim (Bool-cases (ltb_ℤ i new)) [
      | inl small ↦ rw small (λ m _. refl, inl refl)
      | inr large ↦ rw large (λ m _. refl, inl refl)
    ])
  ]
