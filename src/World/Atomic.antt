-- ===== src/World/Atomic.antt =====
-- Google Cloud Storage changes a bucket as a whole: a call that changes one, whatever it answers, has
-- either been carried out or not.
use csi_gcs.Base.{String, ◌≡◌, ◌⊎◌, Option, none, some, [], insert}
use csi_gcs.World.{World, Attrs, NewBucket}

-- A bucket that is there already is not created again.
pub record IsAtomic (W : World) (bucket : W.State → String → Option Attrs) : Type 0 where
  pub create_either :
      (c : W.Client) (n p : String) (b : NewBucket) (s : W.State)
      → (bucket (W.bucket_create c n p b s).1 n ≡ bucket s n)
        ⊎ ((bucket s n ≡ none)
            × (bucket (W.bucket_create c n p b s).1 n ≡ some (record { labels = [] })))
  pub delete_either :
      (c : W.Client) (n : String) (s : W.State)
      → (bucket (W.bucket_delete c n s).1 n ≡ bucket s n)
        ⊎ (bucket (W.bucket_delete c n s).1 n ≡ none)
  pub set_label_either :
      (c : W.Client) (n k v : String) (s : W.State)
      → (bucket (W.bucket_set_label c n k v s).1 n ≡ bucket s n)
        ⊎ ((old : Attrs) × (bucket s n ≡ some old)
            × (bucket (W.bucket_set_label c n k v s).1 n
                ≡ some (record { labels = insert k v old.labels })))
