-- ===== src/Api/DeepCopy.antt =====
-- pkg/apis/published-volume/v1beta1/zz_generated.deepcopy.go: deep copies, over a store of what
-- pointers, maps and slices refer to. A map or a slice is an address, or nil.
pub mod Stores
pub mod Specs
pub mod Volumes
pub mod Lists
pub mod Written
mod Tests
use csi_gcs.Base.{
  ℕ, suc, ◌=ᵇ◌, String, Option, none, some, List, [], ◌∷◌, Dict, insert, if◌then◌else◌,
}
use csi_gcs.Api.{PublishedVolumeSpecPod}

-- `metav1.TypeMeta`
pub record TypeMeta : Type 0 where
  pub kind : String
  pub api_version : String

pub record StoredSpec : Type 0 where
  pub node : String
  pub target_path : String
  pub volume_handle : String
  pub options : Option ℕ
  pub pod : PublishedVolumeSpecPod

pub record StoredVolume (ObjectMeta : Type 0) : Type 0 where
  pub type_meta : TypeMeta
  pub object_meta : ObjectMeta
  pub spec : StoredSpec

pub record StoredList (ListMeta : Type 0) : Type 0 where
  pub type_meta : TypeMeta
  pub list_meta : ListMeta
  pub items : Option ℕ

-- What has been allocated stands below `next`.
pub record Store (ObjectMeta : Type 0) : Type 0 where
  pub next : ℕ
  pub maps : ℕ → Dict String
  pub arrays : ℕ → List (StoredVolume ObjectMeta)

-- The metadata of k8s.io/apimachinery, with its own deep copies.
pub record Metadata : Type 1 where
  pub ObjectMeta : Type 0
  pub ListMeta : Type 0
  pub object_meta_deep_copy_into : ObjectMeta → Store ObjectMeta → ObjectMeta × Store ObjectMeta
  pub list_meta_deep_copy_into : ListMeta → Store ObjectMeta → ListMeta × Store ObjectMeta

-- `for key, val := range *in { (*out)[key] = val }`
unfoldable pub copy_entries : Dict String → Dict String → Dict String
copy_entries [] out = out
copy_entries ((key, val) ∷ rest) out = copy_entries rest (insert key val out)

abbrev pub update {ℓ} : {A : Type ℓ} → (ℕ → A) → ℕ → A → ℕ → A
update f a x b = if a =ᵇ b then x else f b

unfoldable pub pod_deep_copy_into : PublishedVolumeSpecPod → PublishedVolumeSpecPod
pod_deep_copy_into pod = pod

unfoldable pub pod_deep_copy : Option PublishedVolumeSpecPod → Option PublishedVolumeSpecPod
pod_deep_copy none = none
pod_deep_copy (some pod) = some (pod_deep_copy_into pod)

module _ {ObjectMeta : Type 0} where
  -- A new map with these entries.
  abbrev pub new_map : Dict String → Store ObjectMeta → Store ObjectMeta
  new_map entries h = record h { next = suc h.next; maps = update h.maps h.next entries }

  -- A new slice with these items.
  abbrev pub new_array : List (StoredVolume ObjectMeta) → Store ObjectMeta → Store ObjectMeta
  new_array items h = record h { next = suc h.next; arrays = update h.arrays h.next items }

  unfoldable pub options_deep_copy : Option ℕ → Store ObjectMeta → Option ℕ × Store ObjectMeta
  options_deep_copy none h = (none, h)
  options_deep_copy (some a) h = (some h.next, new_map (copy_entries (h.maps a) []) h)

  unfoldable pub spec_deep_copy_into : StoredSpec → Store ObjectMeta → StoredSpec × Store ObjectMeta
  spec_deep_copy_into spec h =
      let (options, h') = options_deep_copy spec.options h in
      (record spec { options = options; pod = spec.pod }, h')

  unfoldable pub spec_deep_copy :
      Option StoredSpec → Store ObjectMeta → Option StoredSpec × Store ObjectMeta
  spec_deep_copy none h = (none, h)
  spec_deep_copy (some spec) h = let (copy, h') = spec_deep_copy_into spec h in (some copy, h')

module _ (K : Metadata) where
  abbrev pub Volume : Type 0
  Volume = StoredVolume K.ObjectMeta

  abbrev pub VolumeList : Type 0
  VolumeList = StoredList K.ListMeta

  abbrev pub Heap : Type 0
  Heap = Store K.ObjectMeta

  -- `runtime.Object`
  pub data Object : Type 0 where
    volume_object : Volume → Object
    list_object : VolumeList → Object

  unfoldable pub volume_deep_copy_into : Volume → Heap → Volume × Heap
  volume_deep_copy_into volume h =
      let (object_meta, h1) = K.object_meta_deep_copy_into volume.object_meta h in
      let (spec, h2) = spec_deep_copy_into volume.spec h1 in
      (record { type_meta = volume.type_meta; object_meta = object_meta; spec = spec }, h2)

  unfoldable pub volume_deep_copy : Option Volume → Heap → Option Volume × Heap
  volume_deep_copy none h = (none, h)
  volume_deep_copy (some volume) h =
      let (copy, h') = volume_deep_copy_into volume h in (some copy, h')

  abbrev pub object_of : {A : Type 0} → (A → Object) → Option A × Heap → Option Object × Heap
  object_of f (none, h) = (none, h)
  object_of f (some copy, h) = (some (f copy), h)

  unfoldable pub volume_deep_copy_object : Option Volume → Heap → Option Object × Heap
  volume_deep_copy_object volume h = object_of volume_object (volume_deep_copy volume h)

  -- The slots of the new slice, filled in order.
  unfoldable pub copy_items : List Volume → Heap → List Volume × Heap
  copy_items [] h = ([], h)
  copy_items (volume ∷ volumes) h =
      let (copy, h1) = volume_deep_copy_into volume h in
      let (copies, h2) = copy_items volumes h1 in (copy ∷ copies, h2)

  -- The new slice, which nothing else sees before its slots are filled.
  unfoldable pub items_deep_copy : Option ℕ → Heap → Option ℕ × Heap
  items_deep_copy none h = (none, h)
  items_deep_copy (some a) h =
      let (copies, h') = copy_items (h.arrays a) h in (some h'.next, new_array copies h')

  unfoldable pub list_deep_copy_into : VolumeList → Heap → VolumeList × Heap
  list_deep_copy_into list h =
      let (list_meta, h1) = K.list_meta_deep_copy_into list.list_meta h in
      let (items, h2) = items_deep_copy list.items h1 in
      (record { type_meta = list.type_meta; list_meta = list_meta; items = items }, h2)

  unfoldable pub list_deep_copy : Option VolumeList → Heap → Option VolumeList × Heap
  list_deep_copy none h = (none, h)
  list_deep_copy (some list) h = let (copy, h') = list_deep_copy_into list h in (some copy, h')

  unfoldable pub list_deep_copy_object : Option VolumeList → Heap → Option Object × Heap
  list_deep_copy_object list h = object_of list_object (list_deep_copy list h)
