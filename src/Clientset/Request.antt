-- ===== src/Clientset/Request.antt =====
-- What the typed client builds with k8s.io/client-go/rest: a request, by the calls of its builder, and
-- the options of k8s.io/apimachinery that it passes on.
use csi_gcs.Base.{String, ℤ, Bool, Option, List, ℕ}
use csi_gcs.Api.{PublishedVolume, PublishedVolumeList}
use csi_gcs.Go.{M, Error}

pub data Verb : Type 0 where
  post put get delete patch : Verb

-- `metav1.GetOptions`
pub record GetOptions : Type 0 where
  pub resource_version : String

-- `metav1.ListOptions`
pub record ListOptions : Type 0 where
  pub label_selector : String
  pub field_selector : String
  pub watch : Bool
  pub resource_version : String
  pub timeout_seconds : Option ℤ
  pub limit : ℤ
  pub continue : String

-- `metav1.DeleteOptions`
pub record DeleteOptions : Type 0 where
  pub grace_period_seconds : Option ℤ
  pub propagation_policy : Option String
  pub dry_run : List String

pub data Parameters : Type 0 where
  get_options : GetOptions → Parameters
  list_options : ListOptions → Parameters

pub data Body : Type 0 where
  volume_body : PublishedVolume → Body
  delete_body : Option DeleteOptions → Body
  bytes_body : List ℕ → Body

-- A request of `rest.Interface`, with what its builder was given: the type of a patch, `Resource`,
-- `Name`, `SubResource`, `VersionedParams`, `Timeout` and `Body`.
pub record Request : Type 0 where
  pub verb : Verb
  pub patch_type : Option String
  pub resource : String
  pub name : Option String
  pub subresources : List String
  pub parameters : Option Parameters
  pub timeout : Option ℤ
  pub body : Option Body

-- How a request is sent. `Do().Into(result)` fills in its result and gives an error, if there is any.
pub record Rest (S : Type 0) : Type 1 where
  pub Interface : Type 0
  pub WatchInterface : Type 0
  pub into_volume : Interface → Request → PublishedVolume → S → (PublishedVolume × Option Error) × S
  pub into_list :
      Interface → Request → PublishedVolumeList → S → (PublishedVolumeList × Option Error) × S
  pub do_error : Interface → Request → S → Option Error × S
  pub watch_request : Interface → Request → M S WatchInterface
