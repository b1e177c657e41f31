-- ===== src/World/Laws/Model/Storage.antt =====
-- The buckets of the site of `Model`.
use csi_gcs.Base.{
  String, eq_iff, ◌≡◌, ◌≢◌, ◌⊎◌, inl, inr, refl, ap, arith, Bool, true, false, Option, none, some,
  [], insert,
}
use csi_gcs.Go.{ok}
use csi_gcs.World.{Attrs}
use csi_gcs.World.Laws.{IsStorage, IsApart}
use csi_gcs.World.Atomic.{IsAtomic}
use csi_gcs.World.Laws.Model.{Site, found_or_missing, labelled, created, key_file, saved, site}

abbrev pub bucket_of : Site → String → Option Attrs
bucket_of s = s.bucket

found_or_missing_ok :
    (x : Option Attrs) (s : Site) {a : Attrs} → (found_or_missing x s).0 ≡ ok a → x ≡ some a
found_or_missing_ok none s e = cc
found_or_missing_ok (some a) s e = cc

found_or_missing_state : (x : Option Attrs) (s : Site) → (found_or_missing x s).1 ≡ s
found_or_missing_state none s = refl
found_or_missing_state (some a) s = refl

saved_bucket :
    (there : Bool) (s : Site) (k : String) → bucket_of (saved there s).1 k ≡ bucket_of s k
saved_bucket true s k = refl
saved_bucket false s k = refl

labelled_here :
    (x : Option Attrs) (n k v : String) (s : Site) (old : Attrs)
    → x ≡ some old
    → bucket_of (labelled x n k v s).1 n ≡ some (record { labels = insert k v old.labels })
labelled_here none n k v s old e = cc
labelled_here (some a) n k v s old e = let h : a ≡ old = cc in rw ((eq_iff n n).1 refl, h) refl

labelled_elsewhere :
    (x : Option Attrs) (n k v : String) (s : Site) (m : String)
    → n ≢ m
    → bucket_of (labelled x n k v s).1 m ≡ bucket_of s m
labelled_elsewhere none n k v s m ne = refl
labelled_elsewhere (some a) n k v s m ne = ground (arith, eq_iff n m)

created_here :
    (x : Option Attrs) (n : String) (s : Site)
    → (created x n s).0 ≡ ok tt
    → bucket_of (created x n s).1 n ≡ some (record { labels = [] })
created_here none n s e = rw ((eq_iff n n).1 refl) refl
created_here (some a) n s e = cc

created_elsewhere :
    (x : Option Attrs) (n : String) (s : Site) (m : String)
    → n ≢ m
    → bucket_of (created x n s).1 m ≡ bucket_of s m
created_elsewhere none n s m ne = ground (arith, eq_iff n m)
created_elsewhere (some a) n s m ne = refl

pub site-IsStorage : IsStorage site bucket_of
site-IsStorage = record {
  attrs_ok = λ c n s a e. found_or_missing_ok (s.bucket n) s e;
  attrs_keeps = λ c n s k. ap (λ t. bucket_of t k) (found_or_missing_state (s.bucket n) s);
  create_ok = λ c n p b s e. created_here (s.bucket n) n s e;
  create_other = λ c n p b s m ne. created_elsewhere (s.bucket n) n s m ne;
  delete_ok = λ c n s e. ground (arith, eq_iff n n);
  delete_other = λ c n s m ne. ground (arith, eq_iff n m);
  set_label_ok = λ c n k v s old new e found. labelled_here (s.bucket n) n k v s old found;
  set_label_other = λ c n k v s m ne. labelled_elsewhere (s.bucket n) n k v s m ne;
}

pub site-IsApart : IsApart site String (Option Attrs) bucket_of
site-IsApart = record {
  credentials_keeps = λ s k. refl;
  client_keeps = λ o s k. refl;
  mkdir_keeps = λ d mode s k. refl;
  temp_file_keeps = λ d s k. saved_bucket (s.exists key_file) s k;
  write_keeps = λ p b s k. refl;
  close_keeps = λ p s k. refl;
  remove_keeps = λ p s k. refl;
  config_keeps = λ s k. refl;
  core_keeps = λ c s k. refl;
  annotations_keeps = λ c namespace name s k. refl;
}

created_either :
    (x : Option Attrs) (n : String) (s : Site)
    → s.bucket n ≡ x
    → (bucket_of (created x n s).1 n ≡ bucket_of s n)
      ⊎ ((bucket_of s n ≡ none) × (bucket_of (created x n s).1 n ≡ some (record { labels = [] })))
created_either none n s e = inr (e, rw ((eq_iff n n).1 refl) refl)
created_either (some a) n s e = inl refl

labelled_either :
    (x : Option Attrs) (n k v : String) (s : Site)
    → s.bucket n ≡ x
    → (bucket_of (labelled x n k v s).1 n ≡ bucket_of s n)
      ⊎ ((old : Attrs) × (bucket_of s n ≡ some old)
          × (bucket_of (labelled x n k v s).1 n ≡ some (record { labels = insert k v old.labels })))
labelled_either none n k v s e = inl refl
labelled_either (some a) n k v s e = inr (a, e, rw ((eq_iff n n).1 refl) refl)

pub site-IsAtomic : IsAtomic site bucket_of
site-IsAtomic = record {
  create_either = λ c n p b s. created_either (s.bucket n) n s refl;
  delete_either = λ c n s. inr (rw ((eq_iff n n).1 refl) refl);
  set_label_either = λ c n k v s. labelled_either (s.bucket n) n k v s refl;
}
