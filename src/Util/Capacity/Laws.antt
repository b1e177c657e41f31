-- ===== src/Util/Capacity/Laws.antt =====
-- The capacity that is written is the capacity that is read.
use csi_gcs.Base.{
  String, ◌≡◌, refl, arith, Option, none, some, [], ◌∷◌, ℤ, pos, IsInt64, Dict, lookup, insert,
  lookup-insert, SameEntries, ◌∙◌, sym, ap,
}
use csi_gcs.Go.{Outcome, ok}
use csi_gcs.Strconv.{format_int, parse_int}
use csi_gcs.Strconv.RoundTrip.{parse_int-format_int}
use csi_gcs.World.{World, Attrs}
use csi_gcs.World.Laws.{IsStorage}
use csi_gcs.Util.Capacity.{parsed_capacity, capacity_loop, bucket_capacity, set_bucket_capacity}

-- The capacity that a label states.
pub labelled_capacity : Option String → Outcome ℤ
labelled_capacity none = ok (pos 0)
labelled_capacity (some value) = parsed_capacity value (parse_int value 10)

capacity_loop_lem :
    (labels : Dict String) → capacity_loop labels ≡ labelled_capacity (lookup "capacity" labels)
unfolding capacity_loop labelled_capacity lookup
capacity_loop_lem [] = refl
capacity_loop_lem ((name, value) ∷ labels) = ground (arith, capacity_loop_lem labels)

-- The loop over the labels finds the one label "capacity", in whatever order Go's `range` meets the
-- labels: two buckets with the same labels have the same capacity.
pub bucket_capacity-SameEntries :
    (a b : Attrs) → SameEntries a.labels b.labels → bucket_capacity a ≡ bucket_capacity b
unfolding bucket_capacity
bucket_capacity-SameEntries a b h =
    capacity_loop_lem a.labels
    ∙ ap labelled_capacity (h "capacity")
    ∙ sym (capacity_loop_lem b.labels)

-- A capacity that was written as the label is read back, for every `int64` and whatever the labels
-- were before.
pub bucket_capacity-insert :
    (labels : Dict String) (c : ℤ)
    → IsInt64 c
    → bucket_capacity (record { labels = insert "capacity" (format_int c 10) labels }) ≡ ok c
unfolding bucket_capacity
bucket_capacity-insert labels c h =
    rw (capacity_loop_lem, lookup-insert)
      (unfold labelled_capacity parsed_capacity in
        rw (parse_int-format_int c 10 h (omega arith) (omega arith)))

module _ (W : World) (bucket : W.State → String → Option Attrs) (storage : IsStorage W bucket) where
  open storage use {set_label_ok}

  -- If `SetBucketCapacity` succeeds on a bucket that is there, then the bucket is still there and
  -- `BucketCapacity` reads of it the capacity that was set, for every `int64` and whatever the labels
  -- were before. The hypothesis on the storage is `IsStorage`.
  pub bucket_capacity-set_bucket_capacity :
      (c : W.Client) (n : String) (capacity : ℤ) (s : W.State) (old new : Attrs)
      → IsInt64 capacity
      → bucket s n ≡ some old
      → (set_bucket_capacity W c n capacity s).0 ≡ ok new
      → (a : Attrs) × (bucket (set_bucket_capacity W c n capacity s).1 n ≡ some a)
        × (bucket_capacity a ≡ ok capacity)
  unfolding set_bucket_capacity
  bucket_capacity-set_bucket_capacity c n capacity s old new h there written = (
    record { labels = insert "capacity" (format_int capacity 10) old.labels },
    set_label_ok c n _ _ s old new written there,
    bucket_capacity-insert old.labels capacity h,
  )
