-- ===== src/Flags/Merge/Laws.antt =====
-- What a lookup finds after a merge: the order of the entries of a Go map does not matter.
use csi_gcs.Base.{
  String, ◌==◌, eq_iff, ◌≡◌, refl, false, ◌&&◌, none, some, or_else, [], ◌∷◌, arith, Dict, lookup,
  insert, lookup-insert, insert-NodupKeys, NodupKeys, SameEntries, if◌then◌else◌,
}
use csi_gcs.Flags.Switches.{is_flag, flag_name_from_annotation}
use csi_gcs.Flags.Switches.Laws.{annotation_of_flag, is_annotation_lem, is_flag_lem}
use csi_gcs.Flags.Merge.{merge_flags, merge_secret, merge_annotation, merge_annotations}

-- A flag has its value from the merged map if it is there, and every other key keeps its value. The
-- keys of the merged map are distinct.
pub lookup-merge_flags :
    (a b : Dict String) (k : String)
    → NodupKeys b
    → lookup k (merge_flags a b)
      ≡ (if is_flag k then or_else (lookup k b) (lookup k a) else lookup k a)
unfolding merge_flags lookup or_else
lookup-merge_flags a [] k _ = ground arith
lookup-merge_flags a ((j, v) ∷ b) k (fresh, u) = ground (
  arith,
  eq_iff j k,
  lookup-merge_flags a b k u,
  lookup-merge_flags (insert j v a) b k u,
  lookup-insert j k v a,
)

pub merge_secret-eq-merge_flags : (b a : Dict String) → merge_secret a b ≡ merge_flags a b
unfolding merge_secret merge_flags
merge_secret-eq-merge_flags [] a = refl
merge_secret-eq-merge_flags ((k, v) ∷ b) a = merge_secret-eq-merge_flags b _

lookup-merge_annotation :
    (a : Dict String) (j v f : String)
    → lookup f (merge_annotation a j v)
      ≡ (if is_flag f && (annotation_of_flag f == j) then some v else lookup f a)
unfolding merge_annotation
lookup-merge_annotation a j v f = ground (
  arith,
  is_annotation_lem j,
  is_flag_lem f,
  eq_iff (flag_name_from_annotation j) f,
  eq_iff (annotation_of_flag f) j,
  lookup-insert (flag_name_from_annotation j) f v a,
)

-- A flag has its value from its annotation in the merged map if that is there, and every other key
-- keeps its value: an annotation that is not the driver's, or that names no flag, changes nothing.
-- The keys of the merged map are distinct.
pub lookup-merge_annotations :
    (a b : Dict String) (f : String)
    → NodupKeys b
    → lookup f (merge_annotations a b)
      ≡ (if is_flag f then or_else (lookup (annotation_of_flag f) b) (lookup f a) else lookup f a)
unfolding merge_annotations lookup or_else
lookup-merge_annotations a [] f _ = ground arith
lookup-merge_annotations a ((j, v) ∷ b) f (fresh, u) = ground (
  arith,
  eq_iff j (annotation_of_flag f),
  eq_iff (annotation_of_flag f) j,
  lookup-merge_annotations (merge_annotation a j v) b f u,
  lookup-merge_annotation a j v f,
)

-- The options after a merge depend on the entries of the two maps alone, and not on the order in
-- which Go's `range` meets them. The keys of the merged maps are distinct.
pub merge-SameEntries :
    (a a' b b' : Dict String)
    → NodupKeys b
    → NodupKeys b'
    → SameEntries a a'
    → SameEntries b b'
    → SameEntries (merge_flags a b) (merge_flags a' b')
      × SameEntries (merge_secret a b) (merge_secret a' b')
      × SameEntries (merge_annotations a b) (merge_annotations a' b')
merge-SameEntries a a' b b' u u' p q =
    let same_flags : SameEntries (merge_flags a b) (merge_flags a' b') =
      λ k. cc (lookup-merge_flags a b k u, lookup-merge_flags a' b' k u', p k, q k) in
    (
      same_flags,
      λ k. rw (merge_secret-eq-merge_flags, merge_secret-eq-merge_flags) (same_flags k),
      λ k. cc (
        lookup-merge_annotations a b k u,
        lookup-merge_annotations a' b' k u',
        p k,
        q (annotation_of_flag k),
      ),
    )

-- All keys of a map are names of flags.
abbrev pub HasOnlyFlags : Dict String → Type 0
HasOnlyFlags m = (k : String) → is_flag k ≡ false → lookup k m ≡ none

-- No merge brings a key into the options that is not the name of a flag. The keys of the merged map
-- are distinct.
pub merge-HasOnlyFlags :
    (a b : Dict String)
    → NodupKeys b
    → HasOnlyFlags a
    → HasOnlyFlags (merge_flags a b)
      × HasOnlyFlags (merge_secret a b)
      × HasOnlyFlags (merge_annotations a b)
merge-HasOnlyFlags a b u h = (
  λ k e. rw (lookup-merge_flags a b k u, e) (h k e),
  λ k e. rw (merge_secret-eq-merge_flags, lookup-merge_flags a b k u, e) (h k e),
  λ k e. rw (lookup-merge_annotations a b k u, e) (h k e),
)

merge_annotation-NodupKeys :
    (a : Dict String) (k v : String) → NodupKeys a → NodupKeys (merge_annotation a k v)
unfolding merge_annotation
merge_annotation-NodupKeys a k v u =
    ground (arith, insert-NodupKeys (flag_name_from_annotation k) v a u)

pub merge_flags-NodupKeys : (b a : Dict String) → NodupKeys a → NodupKeys (merge_flags a b)
unfolding merge_flags
merge_flags-NodupKeys [] a u = u
merge_flags-NodupKeys ((k, v) ∷ b) a u =
    merge_flags-NodupKeys b (if is_flag k then insert k v a else a)
      (ground (arith, insert-NodupKeys k v a u))

pub merge_annotations-NodupKeys :
    (b a : Dict String) → NodupKeys a → NodupKeys (merge_annotations a b)
unfolding merge_annotations
merge_annotations-NodupKeys [] a u = u
merge_annotations-NodupKeys ((k, v) ∷ b) a u =
    merge_annotations-NodupKeys b (merge_annotation a k v) (merge_annotation-NodupKeys a k v u)
