-- ===== src/Util/Capacity.antt =====
-- pkg/util/common.go: `BucketCapacity`, `SetBucketCapacity` and `BucketExists`. The capacity of a
-- volume is a label of its bucket.
pub mod Laws
use csi_gcs.Base.{
  String, ◌<>◌, Bool, true, false, ◌==◌, Option, none, some, [], ◌∷◌, ℤ, pos, Dict, if◌then◌else◌,
}
use csi_gcs.Go.{
  Code, internal, Error, status, fault, Outcome, ok, err, M, ◌>>=◌, attempt, pure, throw,
}
use csi_gcs.Strconv.{NumError, format_int, parse_int}
use csi_gcs.World.{World, Attrs, Next, done, item}

-- What `ParseInt` returns, as the capacity or as the driver's error.
unfoldable pub parsed_capacity : String → ℤ × Option NumError → Outcome ℤ
parsed_capacity value (n, none) = ok n
parsed_capacity value (n, some e) =
    err (status internal ("Failed to parse bucket capacity: " <> value))

-- The loop over the labels.
unfoldable pub capacity_loop : Dict String → Outcome ℤ
capacity_loop [] = ok (pos 0)
capacity_loop ((name, value) ∷ labels) =
    if name == "capacity" then parsed_capacity value (parse_int value 10) else capacity_loop labels

unfoldable pub bucket_capacity : Attrs → Outcome ℤ
unfolding capacity_loop parsed_capacity
bucket_capacity attrs = capacity_loop attrs.labels

module _ (W : World) where
  -- `err.Error()`
  unfoldable pub error_text : Error → String
  error_text (status code text) = W.status_text code text
  error_text (fault f) = f.text

  unfoldable pub set_bucket_capacity : W.Client → String → ℤ → M W.State Attrs
  set_bucket_capacity client bucket capacity =
      W.bucket_set_label client bucket "capacity" (format_int capacity 10)

  -- What the error of the first `Next` says; `iterator.Done` is no error of the model.
  unfoldable pub exists_by : Outcome Next → M W.State Bool
  exists_by (ok next) = pure true
  exists_by (err e) =
      if error_text e == "storage: bucket doesn't exist" then pure false else throw e

  unfoldable pub bucket_exists : W.Client → String → M W.State Bool
  unfolding exists_by
  bucket_exists client bucket = do first ← attempt (W.first_object client bucket); exists_by first
