-- ===== src/Util/Tests.antt =====
-- The capacity of a bucket at concrete labels, and the names for a volume.
use csi_gcs.Base.{
  ◌≡◌, refl, arith, String, [], ◌∷◌, Dict, insert, some, true, false, pos, ◌≤◌, length, codes,
  bytes,
}
use csi_gcs.Strconv.{format_int}
use csi_gcs.Go.{ok}
use csi_gcs.World.Laws.Model.{Site, site}
use csi_gcs.World.{Attrs}
use csi_gcs.World.Laws.Model.Storage.{bucket_of, site-IsStorage}
use csi_gcs.Util.BucketName.{bucket_name}
use csi_gcs.Util.Cluster.{mount_name}
use csi_gcs.Util.Limits.{IsHexName, mount_name-IsHexName, length-bucket_name}
use csi_gcs.Util.Capacity.{bucket_capacity, set_bucket_capacity}
use csi_gcs.Util.Capacity.Laws.{bucket_capacity-set_bucket_capacity}

abbrev labels : Dict String
labels = ("team", "storage") ∷ ("capacity", "1024") ∷ []

abbrev stored : Site
stored = record {
  bucket = λ n. some (record { labels = labels });
  exists = λ _. false;
  is_mounted = λ _. false;
  records = [];
  running = λ pod. true;
}

bucket_capacity-set_bucket_capacity_example :
    (a : Attrs) × (bucket_of (set_bucket_capacity site tt "pv" (pos 4096) stored).1 "pv" ≡ some a)
    × (bucket_capacity a ≡ ok (pos 4096))
unfolding set_bucket_capacity
bucket_capacity-set_bucket_capacity_example =
    bucket_capacity-set_bucket_capacity site bucket_of site-IsStorage tt "pv" (pos 4096) stored
      (record { labels = labels })
      (record { labels = insert "capacity" (format_int (pos 4096) 10) labels }) (omega arith) refl
      refl

mount_name-IsHexName_example : IsHexName (mount_name "pv" "/pods/one" "node")
mount_name-IsHexName_example = mount_name-IsHexName "pv" "/pods/one" "node"

length-bucket_name_example :
    (3 ≤ length (codes (bucket_name site "pvc-One")))
    × (length (codes (bucket_name site "pvc-One")) ≤ 57)
unfolding bytes
length-bucket_name_example = length-bucket_name site "pvc-One" refl refl
