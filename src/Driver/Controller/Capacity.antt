-- ===== src/Driver/Controller/Capacity.antt =====
-- What the steps of `CreateVolume` and `ControllerExpandVolume` do to the bucket and its capacity.
use csi_gcs.Base.{
  String, ◌∙◌, ◌≡◌, ◌≢◌, refl, arith, false, Option, none, some, Dict, lookup, Bool-cases, inl, inr,
  ℤ, pos, negsuc, IsInt64, ltb_ℤ, ◌=ℤ◌,
}
use csi_gcs.Go.{Error, Outcome, ok, err, bind, reject}
use csi_gcs.Go.Laws.{Outcome-cases, call_post, relabel_post}
use csi_gcs.Flags.Names.{flag_project_id}
use csi_gcs.Strconv.{format_int}
use csi_gcs.World.{World, Attrs}
use csi_gcs.World.Laws.{IsStorage}
use csi_gcs.Util.Capacity.{bucket_capacity, set_bucket_capacity}
use csi_gcs.Util.Capacity.Laws.{bucket_capacity-insert}
use csi_gcs.Driver.Controller.{
  existing_capacity, write_capacity, check_capacity, create_bucket, ensure_bucket,
}

-- The bucket is there, and the capacity that its labels state is at least the one that was asked for.
pub record Holds (a : Option Attrs) (required : ℤ) : Type 0 where
  pub attrs : Attrs
  pub found : a ≡ some attrs
  pub capacity : ℤ
  pub stated : bucket_capacity attrs ≡ ok capacity
  pub enough : ltb_ℤ capacity required ≡ false

pub ltb_ℤ_irrefl : (i : ℤ) → ltb_ℤ i i ≡ false
ltb_ℤ_irrefl (pos n) = ground arith
ltb_ℤ_irrefl (negsuc n) = ground arith

module _ {S : Type 0} (bucket : S → String → Option Attrs) where
  -- The buckets are as in `s`.
  abbrev pub BucketsSame : S → S → Type 0
  BucketsSame s t = (m : String) → bucket t m ≡ bucket s m

  -- The buckets other than `n` are as in `s`.
  abbrev pub OthersSame : String → S → S → Type 0
  OthersSame n s t = (m : String) → n ≢ m → bucket t m ≡ bucket s m

module _ (W : World) (bucket : W.State → String → Option Attrs) (storage : IsStorage W bucket) where
  open storage use {attrs_ok, attrs_keeps, create_ok, create_other, set_label_ok, set_label_other}

  -- The capacity that is read is stated by the labels of the bucket, and no bucket changes.
  pub existing_capacity_post :
      (P : Outcome ℤ × W.State → Type 0) (c : W.Client) (n : String) (s : W.State)
      → ((i : ℤ) (a : Attrs) (t : W.State)
          → BucketsSame bucket s t
          → bucket t n ≡ some a
          → bucket_capacity a ≡ ok i
          → P (ok i, t))
      → ((e : Error) (t : W.State) → BucketsSame bucket s t → P (err e, t))
      → P (existing_capacity W c n s)
  unfolding existing_capacity
  existing_capacity_post P c n s good bad =
      call_post P _ (W.bucket_attrs c n s) _
        (λ a read.
          relabel_post P _ _
            (λ i stated.
              good i a _ (attrs_keeps c n s) (attrs_keeps c n s n ∙ attrs_ok c n s a read) stated)
            (λ e _. bad _ _ (attrs_keeps c n s)))
        (λ e _. bad _ _ (attrs_keeps c n s))

  -- The capacity that is written is stated by the labels, and no other bucket changes.
  pub write_capacity_post :
      (P : Outcome (Unit {0}) × W.State → Type 0) (c : W.Client) (n : String) (i : ℤ) (s : W.State)
      (old : Attrs)
      → IsInt64 i
      → bucket s n ≡ some old
      → ((a : Attrs) (t : W.State)
          → OthersSame bucket n s t
          → bucket t n ≡ some a
          → bucket_capacity a ≡ ok i
          → P (ok tt, t))
      → ((e : Error) (t : W.State) → OthersSame bucket n s t → P (err e, t))
      → P (write_capacity W c n i s)
  unfolding write_capacity set_bucket_capacity
  write_capacity_post P c n i s old h there good bad =
      call_post P _ (W.bucket_set_label c n "capacity" (format_int i 10) s) _
        (λ new written.
          good _ _ (set_label_other c n _ _ s) (set_label_ok c n _ _ s old new written there)
            (bucket_capacity-insert old.labels i h))
        (λ e _. bad _ _ (set_label_other c n _ _ s))

  -- The bucket is there afterwards; if it was there before, it is as it was.
  pub ensure_bucket_post :
      (P : Outcome (Unit {0}) × W.State → Type 0) (c : W.Client) (n : String)
      (options : Dict String) (s : W.State)
      → ((a : Attrs) (t : W.State) → OthersSame bucket n s t → bucket t n ≡ some a → P (ok tt, t))
      → ((e : Error) (t : W.State) → OthersSame bucket n s t → P (err e, t))
      → P (ensure_bucket W c n options s)
  unfolding ensure_bucket bind
  ensure_bucket_post P c n options s good bad = elim (Outcome-cases (W.bucket_attrs c n s).0) [
    | inl (a, found) ↦
        rw found
          (good a _ (λ m _. attrs_keeps c n s m) (attrs_keeps c n s n ∙ attrs_ok c n s a found))
    | inr (e, missing) ↦ rw missing (created (lookup flag_project_id options))
  ]
    where
      created : (p : Option String) → P (create_bucket W c n options p (W.bucket_attrs c n s).1)
      created none = bad _ _ (λ m _. attrs_keeps c n s m)
      created (some p) =
          relabel_post P _ _
            (λ _ made.
              good _ _ (λ m ne. create_other c n p _ _ m ne ∙ attrs_keeps c n s m)
                (create_ok c n p _ _ made))
            (λ _ _. bad _ _ (λ m ne. create_other c n p _ _ m ne ∙ attrs_keeps c n s m))

  -- Behind the check the bucket states enough capacity.
  pub check_capacity_post :
      (P : Outcome (Unit {0}) × W.State → Type 0) (c : W.Client) (n : String) (existing new : ℤ)
      (s : W.State) (a : Attrs)
      → IsInt64 new
      → bucket s n ≡ some a
      → bucket_capacity a ≡ ok existing
      → ((t : W.State) → OthersSame bucket n s t → Holds (bucket t n) new → P (ok tt, t))
      → ((e : Error) (t : W.State) → OthersSame bucket n s t → P (err e, t))
      → P (check_capacity W c n existing new s)
  unfolding check_capacity reject
  check_capacity_post P c n existing new s a h there stated good bad =
      elim (Bool-cases (existing =ℤ pos 0)) [
        | inl unset ↦ rw unset (
            write_capacity_post P c n new s a h there
              (λ b t others found written. good t others (record {
                attrs = b;
                found = found;
                capacity = new;
                stated = written;
                enough = ltb_ℤ_irrefl new;
              }))
              bad)
        | inr set ↦ elim (Bool-cases (ltb_ℤ existing new)) [
          | inl small ↦ rw (set, small) (bad _ s (λ _ _. refl))
          | inr large ↦
              rw (set, large)
                (good s (λ _ _. refl)
                  (record {
                    attrs = a;
                    found = there;
                    capacity = existing;
                    stated = stated;
                    enough = large;
                  }))
        ]
      ]
