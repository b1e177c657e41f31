-- ===== src/Api/DeepCopy/Lists.antt =====
-- The deep copy of a list of records of mounts.
use csi_gcs.Base.{ℕ, ◌<◌, ◌≡◌, refl, sym, ◌∙◌, arith, Option, none, some, List, [], ◌∷◌}
use csi_gcs.Api.DeepCopy.{
  Metadata, Volume, VolumeList, Heap, volume_deep_copy_into, copy_items, items_deep_copy,
  list_deep_copy_into, list_deep_copy, new_array,
}
use csi_gcs.Api.DeepCopy.Stores.{
  Extends, Extends-self, Extends-trans, Within, Within-mono, new_array-Extends, update_self,
}
use csi_gcs.Api.DeepCopy.Volumes.{
  IsCopier, Inside, IsAllocated, SameVolume, SameVolume-later, SameVolume-before, IsAllocated-later,
  volume_copied, Inside-mono,
}

module _ (K : Metadata) {Content : Type 0} (content : K.ObjectMeta → Heap K → Content)
    (IsBetween : ℕ → ℕ → K.ObjectMeta → Type 0) where
  abbrev pub AllAllocated : Heap K → List (Volume K) → Type 0
  AllAllocated h [] = Unit
  AllAllocated h (v ∷ vs) = IsAllocated K content IsBetween h v × AllAllocated h vs

  -- Copies of the items, in their order, with addresses from `lo` on.
  abbrev pub AllCopies : ℕ → Heap K → List (Volume K) → Heap K → List (Volume K) → Type 0
  AllCopies lo h [] g [] = Unit
  AllCopies lo h [] g (w ∷ ws) = ⊥
  AllCopies lo h (v ∷ vs) g [] = ⊥
  AllCopies lo h (v ∷ vs) g (w ∷ ws) =
      Inside K content IsBetween lo g.next w
      × SameVolume K content IsBetween h v g w
      × AllCopies lo h vs g ws

  -- A slice that is there, with its items, or nil.
  abbrev pub IsSlice : Heap K → Option ℕ → Type 0
  IsSlice h none = Unit
  IsSlice h (some a) = (a < h.next) × AllAllocated h (h.arrays a)

  -- Both are nil, or the second has copies of the items of the first.
  abbrev pub SameSlice : ℕ → Heap K → Option ℕ → Heap K → Option ℕ → Type 0
  SameSlice lo h none g none = Unit
  SameSlice lo h none g (some b) = ⊥
  SameSlice lo h (some a) g none = ⊥
  SameSlice lo h (some a) g (some b) = AllCopies lo h (h.arrays a) g (g.arrays b)

  module _ (copier : IsCopier K K.object_meta_deep_copy_into content IsBetween) where
    AllAllocated-later :
        (h g : Heap K) (vs : List (Volume K)) → AllAllocated h vs → Extends g h → AllAllocated g vs
    AllAllocated-later h g [] there later = tt
    AllAllocated-later h g (v ∷ vs) (first, rest) later = (
      IsAllocated-later K content IsBetween copier h g v first later,
      AllAllocated-later h g vs rest later,
    )

    AllCopies-later :
        (lo : ℕ) (h g f : Heap K) (vs ws : List (Volume K))
        → AllCopies lo h vs g ws
        → Extends f g
        → AllCopies lo h vs f ws
    AllCopies-later lo h g f [] [] same later = tt
    AllCopies-later lo h g f [] (w ∷ ws) same later = same
    AllCopies-later lo h g f (v ∷ vs) [] same later = same
    AllCopies-later lo h g f (v ∷ vs) (w ∷ ws) (inside, same, rest) later = (
      Inside-mono K content IsBetween copier w lo g.next lo f.next inside (omega arith) later.0,
      SameVolume-later K content IsBetween copier h g f v w lo same inside later,
      AllCopies-later lo h g f vs ws rest later,
    )

    AllCopies-before :
        (h g f : Heap K) (vs ws : List (Volume K))
        → AllAllocated h vs
        → Extends g h
        → AllCopies g.next g vs f ws
        → AllCopies h.next h vs f ws
    AllCopies-before h g f [] [] there later same = tt
    AllCopies-before h g f [] (w ∷ ws) there later same = same
    AllCopies-before h g f (v ∷ vs) [] there later same = same
    AllCopies-before h g f (v ∷ vs) (w ∷ ws) (first, rest) later (inside, same, others) = (
      Inside-mono K content IsBetween copier w g.next f.next h.next f.next inside later.0
          (omega arith),
      SameVolume-before K content IsBetween copier h g f v w first later same,
      AllCopies-before h g f vs ws rest later others,
    )

    items_copied :
        (vs : List (Volume K)) (h : Heap K)
        → AllAllocated h vs
        → Extends (copy_items K vs h).1 h
          × AllCopies h.next h vs (copy_items K vs h).1 (copy_items K vs h).0
    unfolding copy_items
    items_copied [] h there = (Extends-self h, tt)
    items_copied (v ∷ vs) h (first, rest) =
        let (w, g) = volume_deep_copy_into K v h in
        let copy = volume_copied K content IsBetween copier v h first in
        let others = items_copied vs g (AllAllocated-later h g vs rest copy.0) in
        let (ws, f) = copy_items K vs g in
        (
          Extends-trans f g h others.0 copy.0,
          (
            Inside-mono K content IsBetween copier w h.next g.next h.next f.next copy.1
                (omega arith) others.0.0,
            SameVolume-later K content IsBetween copier h g f v w h.next copy.2 copy.1 others.0,
            AllCopies-before h g f vs ws rest copy.0 others.1,
          ),
        )

    slice_copied :
        (o : Option ℕ) (h : Heap K)
        → IsSlice h o
        → Extends (items_deep_copy K o h).1 h
          × Within h.next (items_deep_copy K o h).1.next (items_deep_copy K o h).0
          × SameSlice h.next h o (items_deep_copy K o h).1 (items_deep_copy K o h).0
    unfolding items_deep_copy
    slice_copied none h there = (Extends-self h, tt, tt)
    slice_copied (some a) h (below, there) =
        let (ws, g) = copy_items K (h.arrays a) h in
        let copied = items_copied (h.arrays a) h there in
        let last : Extends (new_array ws g) g = new_array-Extends ws g in
        (
          Extends-trans (new_array ws g) g h last copied.0,
          omega arith,
          rw (update_self g.arrays g.next ws)
              (AllCopies-later h.next h g (new_array ws g) (h.arrays a) ws copied.1 last),
        )

    SameSlice-before :
        (h g f : Heap K) (o p : Option ℕ)
        → IsSlice h o
        → Extends g h
        → SameSlice g.next g o f p
        → SameSlice h.next h o f p
    SameSlice-before h g f none none there later same = tt
    SameSlice-before h g f none (some b) there later same = same
    SameSlice-before h g f (some a) none there later same = same
    SameSlice-before h g f (some a) (some b) there later same =
        AllCopies-before h g f (h.arrays a) (f.arrays b) there.1 later
          (rw (← (later.1 a there.0).1) same)

    IsSlice-later : (h g : Heap K) (o : Option ℕ) → IsSlice h o → Extends g h → IsSlice g o
    IsSlice-later h g none there later = tt
    IsSlice-later h g (some a) there later =
        (omega arith, rw (later.1 a there.0).1 (AllAllocated-later h g (h.arrays a) there.1 later))

    module _ {ListContent : Type 0} (list_content : K.ListMeta → Heap K → ListContent)
        (IsListBetween : ℕ → ℕ → K.ListMeta → Type 0)
        (list_copier : IsCopier K K.list_meta_deep_copy_into list_content IsListBetween) where
      open list_copier use {extends, copied, fresh, local, between_mono}

      -- A copy of a list in a later store: nothing that was there has changed, the copy's own
      -- addresses are new, and it reads the same, with a copy of each item in its place.
      pub record IsListCopy (h : Heap K) (l : VolumeList K) (g : Heap K) (c : VolumeList K)
          : Type 0 where
        pub later : Extends g h
        pub new_meta : IsListBetween h.next g.next c.list_meta
        pub new_items : Within h.next g.next c.items
        pub same_type : l.type_meta ≡ c.type_meta
        pub same_meta : list_content l.list_meta h ≡ list_content c.list_meta g
        pub same_items : SameSlice h.next h l.items g c.items

      list_copied :
          (l : VolumeList K) (h : Heap K)
          → IsListBetween 0 h.next l.list_meta
          → IsSlice h l.items
          → IsListCopy h l (list_deep_copy_into K l h).1 (list_deep_copy_into K l h).0
      unfolding list_deep_copy_into
      list_copied l h meta_there items_there =
          let (meta, h1) = K.list_meta_deep_copy_into l.list_meta h in
          let (items, h2) = items_deep_copy K l.items h1 in
          let first : Extends h1 h = extends l.list_meta h in
          let new : IsListBetween h.next h1.next meta = fresh l.list_meta h meta_there in
          let rest = slice_copied l.items h1 (IsSlice-later h h1 l.items items_there first) in
          record {
            later = Extends-trans h2 h1 h rest.0 first;
            new_meta = between_mono meta h.next h1.next h.next h2.next new (omega arith) rest.0.0;
            new_items =
                Within-mono h1.next h2.next h.next h2.next items first.0 (omega arith) rest.1;
            same_type = refl;
            same_meta = sym (local meta h.next h2 h1 new rest.0 ∙ copied l.list_meta h meta_there);
            same_items = SameSlice-before h h1 h2 l.items items items_there first rest.2;
          }

      -- The deep copy of a list of records of mounts that is not nil is a list that reads the
      -- same, item by item, in which every address is newly allocated, and nothing that was
      -- allocated before has changed. This holds if all that the list refers to is allocated, with
      -- distinct keys in each map of options, and if the deep copies of the metadata are as
      -- `IsCopier` describes them.
      pub list_deep_copy-IsListCopy :
          (l : VolumeList K) (h : Heap K)
          → IsListBetween 0 h.next l.list_meta
          → IsSlice h l.items
          → (c : VolumeList K) × ((list_deep_copy K (some l) h).0 ≡ some c)
            × IsListCopy h l (list_deep_copy K (some l) h).1 c
      unfolding list_deep_copy
      list_deep_copy-IsListCopy l h meta_there items_there =
          ((list_deep_copy_into K l h).0, refl, list_copied l h meta_there items_there)
