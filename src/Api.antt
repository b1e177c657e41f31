-- ===== src/Api.antt =====
-- pkg/apis/published-volume/v1beta1/types.go: the custom resource that records a mount.
pub mod Register
pub mod DeepCopy
use csi_gcs.Base.{String, List, Dict}

pub record PublishedVolumeSpecPod : Type 0 where
  pub name : String
  pub namespace : String

pub record PublishedVolumeSpec : Type 0 where
  pub node : String
  pub target_path : String
  pub volume_handle : String
  pub options : Dict String
  pub pod : PublishedVolumeSpecPod

pub record OwnerReference : Type 0 where
  pub api_version : String
  pub kind : String
  pub name : String
  pub uid : String

-- The metadata is what the driver writes of `metav1.ObjectMeta`.
pub record PublishedVolume : Type 0 where
  pub name : String
  pub labels : Dict String
  pub owner_references : List OwnerReference
  pub spec : PublishedVolumeSpec

pub record ListMeta : Type 0 where
  pub resource_version : String
  pub continue : String

pub record PublishedVolumeList : Type 0 where
  pub list_meta : ListMeta
  pub items : List PublishedVolume
