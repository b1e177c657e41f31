-- ===== src/Clientset/Fake.antt =====
-- The client set for tests: fake_publishedvolume.go and fake_published-volume_client.go of
-- pkg/client/clientset/clientset/typed/published-volume/v1beta1/fake.
pub mod Simple
pub mod Tracker
pub mod Registry
mod Tests
use csi_gcs.Base.{
  String, Bool, true, false, Option, none, some, List, [], ◌∷◌, Dict, ℕ, if◌then◌else◌,
}
use csi_gcs.Api.{PublishedVolume, PublishedVolumeList}
use csi_gcs.Go.{M, Error, errorf}
use csi_gcs.Clientset.Request.{GetOptions, ListOptions, DeleteOptions}
use csi_gcs.Clientset.ClientGo.{OrDie, returns, panics}
use csi_gcs.Clientset.PublishedVolumes.{empty_volume, empty_list}

-- `schema.GroupVersionResource` and `schema.GroupVersionKind`
pub record GroupVersionResource : Type 0 where
  pub group : String
  pub version : String
  pub resource : String

pub record GroupVersionKind : Type 0 where
  pub group : String
  pub version : String
  pub kind : String

abbrev pub published_volumes_resource : GroupVersionResource
published_volumes_resource = record {
  group = "gcs.csi.ofek.dev";
  version = "v1beta1";
  resource = "publishedvolumes";
}

abbrev pub published_volumes_kind : GroupVersionKind
published_volumes_kind = record {
  group = "gcs.csi.ofek.dev";
  version = "v1beta1";
  kind = "PublishedVolume";
}

-- `runtime.Object`, with the types that the fake asserts.
pub data Object : Type 0 where
  volume_object : PublishedVolume → Object
  list_object : PublishedVolumeList → Object
  other_object : Object

-- The actions of k8s.io/client-go/testing on a resource of no namespace.
pub data Action : Type 0 where
  get_action : GroupVersionResource → String → Action
  list_action : GroupVersionResource → GroupVersionKind → ListOptions → Action
  watch_action : GroupVersionResource → ListOptions → Action
  create_action : GroupVersionResource → PublishedVolume → Action
  update_action : GroupVersionResource → PublishedVolume → Action
  delete_action : GroupVersionResource → String → Action
  delete_collection_action : GroupVersionResource → ListOptions → Action
  patch_action : GroupVersionResource → String → String → List ℕ → List String → Action

-- `testing.Fake`, and the label selectors of k8s.io/apimachinery.
pub record Testing (S : Type 0) : Type 1 where
  pub Fake : Type 0
  pub WatchInterface : Type 0
  pub Selector : Type 0
  pub invokes : Fake → Action → Object → S → (Option Object × Option Error) × S
  pub invokes_watch : Fake → Action → M S WatchInterface
  pub extract_label : ListOptions → Option Selector
  pub everything : Selector
  pub matches : Selector → Dict String → Bool

-- A pointer, which may be nil, and an error.
abbrev pub Answer : Type 0 → Type 0 → Type 0
Answer S A = OrDie (Option A × Option Error) × S

-- `obj.(*v1beta1.PublishedVolume)`, unless `obj` is nil. Another type panics.
unfoldable pub as_volume :
    {S : Type 0} → (Option Object × Option Error) × S → Answer S PublishedVolume
as_volume ((none, e), s) = (returns (none, e), s)
as_volume ((some (volume_object v), e), s) = (returns (some v, e), s)
as_volume ((some (list_object l), e), s) = (panics (errorf "interface conversion"), s)
as_volume ((some other_object, e), s) = (panics (errorf "interface conversion"), s)

module _ {S : Type 0} (T : Testing S) where
  pub record FakeGcsV1beta1 : Type 0 where
    pub fake : T.Fake

  -- `FakePublishedVolumes` holds nothing but the fake.
  unfoldable pub published_volumes : FakeGcsV1beta1 → T.Fake
  published_volumes c = c.fake

  -- An interface that is not nil, with a pointer that is.
  unfoldable pub rest_client : {RestClient : Type 0} → FakeGcsV1beta1 → Option (Option RestClient)
  rest_client c = some none

  unfoldable pub get_volume : T.Fake → String → GetOptions → S → Answer S PublishedVolume
  get_volume c name options s =
      as_volume
        (T.invokes c (get_action published_volumes_resource name) (volume_object empty_volume) s)

  -- The label of the options, or everything.
  abbrev or_everything : Option T.Selector → T.Selector
  or_everything none = T.everything
  or_everything (some label) = label

  abbrev pub label_of : ListOptions → T.Selector
  label_of opts = or_everything (T.extract_label opts)

  -- `for _, item := range … { if label.Matches(labels.Set(item.Labels)) { … } }`
  unfoldable pub matching : T.Selector → List PublishedVolume → List PublishedVolume
  matching label [] = []
  matching label (item ∷ items) =
      let rest = matching label items in if T.matches label item.labels then item ∷ rest else rest

  unfoldable pub as_list :
      T.Selector → (Option Object × Option Error) × S → Answer S PublishedVolumeList
  as_list label ((none, e), s) = (returns (none, e), s)
  as_list label ((some (list_object l), e), s) =
      (returns (some (record { list_meta = l.list_meta; items = matching label l.items }), e), s)
  as_list label ((some (volume_object v), e), s) = (panics (errorf "interface conversion"), s)
  as_list label ((some other_object, e), s) = (panics (errorf "interface conversion"), s)

  unfoldable pub list : T.Fake → ListOptions → S → Answer S PublishedVolumeList
  list c opts s = as_list (label_of opts) (
      T.invokes c (list_action published_volumes_resource published_volumes_kind opts)
        (list_object empty_list) s)

  unfoldable pub watch : T.Fake → ListOptions → M S T.WatchInterface
  watch c opts = T.invokes_watch c (watch_action published_volumes_resource opts)

  unfoldable pub create : T.Fake → PublishedVolume → S → Answer S PublishedVolume
  create c published_volume s = as_volume (
      T.invokes c (create_action published_volumes_resource published_volume)
        (volume_object empty_volume) s)

  unfoldable pub update : T.Fake → PublishedVolume → S → Answer S PublishedVolume
  update c published_volume s = as_volume (
      T.invokes c (update_action published_volumes_resource published_volume)
        (volume_object empty_volume) s)

  -- The options are dropped.
  unfoldable pub delete_volume : T.Fake → String → Option DeleteOptions → S → Option Error × S
  delete_volume c name options s =
      let (answer, s') =
        T.invokes c (delete_action published_volumes_resource name) (volume_object empty_volume)
          s in
      (answer.1, s')

  unfoldable pub delete_collection :
      T.Fake → Option DeleteOptions → ListOptions → S → Option Error × S
  delete_collection c options list_opts s =
      let (answer, s') =
        T.invokes c (delete_collection_action published_volumes_resource list_opts)
          (list_object empty_list) s in
      (answer.1, s')

  unfoldable pub patch_volume :
      T.Fake → String → String → List ℕ → List String → S → Answer S PublishedVolume
  patch_volume c name pt bytes subresources s = as_volume (
      T.invokes c (patch_action published_volumes_resource name pt bytes subresources)
        (volume_object empty_volume) s)
