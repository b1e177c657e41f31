-- ===== src/Driver/Tests/Volumes.antt =====
-- Requests one after the other, at a site with one bucket.
use csi_gcs.Base.{refl, eq_iff, [], ◌∷◌, pos, List, arith}
use csi_gcs.World.Laws.Model.{site}
use csi_gcs.World.Laws.Model.Storage.{bucket_of, site-IsStorage, site-IsApart, site-IsAtomic}
use csi_gcs.Util.Capacity.{bucket_capacity, capacity_loop, parsed_capacity}
use csi_gcs.Strconv.{parse_int, parse_uint, scan, digit_value, underscore_ok}
use csi_gcs.Driver.Volumes.{AtLeast, expand}
use csi_gcs.Driver.Volumes.Buckets.{volumes, Moves}
use csi_gcs.Driver.Volumes.Requests.{
  Request, create_volume_request, delete_volume_request, expand_volume_request, handle, run,
  handle-Moves,
}
use csi_gcs.Driver.Volumes.Kept.{AllSpare, run-AtLeast}
use csi_gcs.Driver.Tests.{start, request, expand_request}

handle-Moves_example :
    Moves site bucket_of
      (expand (pos 4096))
      "pv"
      start
      (handle site (expand_volume_request expand_request) start)
handle-Moves_example =
    handle-Moves site bucket_of site-IsStorage site-IsAtomic site-IsApart
      (expand_volume_request expand_request) start (omega arith)

abbrev requests : List Request
requests =
    create_volume_request request
    ∷ expand_volume_request expand_request
    ∷ delete_volume_request "other" []
    ∷ []

requests-AllSpare : AllSpare "pv" requests
requests-AllSpare = ((omega arith, refl), (omega arith, (λ e. cc ((eq_iff "other" "pv").1 e), tt)))

start-AtLeast : AtLeast (pos 1024) (volumes site bucket_of start "pv")
unfolding bucket_capacity capacity_loop parsed_capacity parse_int parse_uint scan digit_value
    underscore_ok
start-AtLeast = (pos 1024, refl, refl)

run-AtLeast_example : AtLeast (pos 1024) (volumes site bucket_of (run site requests start) "pv")
run-AtLeast_example =
    run-AtLeast site bucket_of site-IsStorage site-IsAtomic site-IsApart "pv" (pos 1024) requests
      start requests-AllSpare start-AtLeast
