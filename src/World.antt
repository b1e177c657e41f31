-- ===== src/World.antt =====
-- The code outside the repository that the driver calls: Google's storage client, the clients of the
-- Kubernetes API, the mounter, and the files of the operating system. Each call is a field.
pub mod Laws
pub mod Mounts
pub mod Up
pub mod Atomic
pub mod Registry
pub mod KeyFiles
use csi_gcs.Base.{String, ℤ, Bool, Option, List, Dict, ℕ}
use csi_gcs.Api.{PublishedVolume}
use csi_gcs.Go.{Code, M}

-- `storage.BucketAttrs`: the driver reads the labels alone.
pub record Attrs : Type 0 where
  pub labels : Dict String

-- The attributes with which the driver creates a bucket.
pub record NewBucket : Type 0 where
  pub location : String
  pub kms_key : String

-- `option.WithCredentials` and `option.WithCredentialsFile`
pub data ClientOption (Creds : Type 0) : Type 0 where
  with_credentials : Creds → ClientOption Creds
  with_credentials_file : String → ClientOption Creds

-- What the first `Next` of an iterator returns without an error.
pub data Next : Type 0 where
  done item : Next

pub record World : Type 1 where
  pub State : Type 0
  pub Creds : Type 0
  pub Client : Type 0
  pub Config : Type 0
  pub CoreClientset : Type 0
  pub GcsClientset : Type 0
  -- `strings.ToLower` of bytes that are not all ASCII, which goes by the tables of Unicode
  pub unicode_to_lower : List ℕ → String
  -- `Error()` of a gRPC status
  pub status_text : Code → String → String
  -- package os; a path is missing if `os.Stat` says so, and the error of `os.Mkdir` is not read
  -- `os.Lstat`, and whether it finds a directory
  pub lstat_is_dir : String → M State Bool
  pub is_missing : String → State → Bool
  pub mkdir : String → ℕ → State → State
  pub mkdir_all : String → ℕ → M State (Unit {0})
  pub temp_file : String → M State String
  pub write : String → List ℕ → M State (Unit {0})
  pub close : String → M State (Unit {0})
  pub remove : String → M State (Unit {0})
  -- Google Cloud Storage
  pub find_default_credentials : M State Creds
  pub new_client : ClientOption Creds → M State Client
  pub bucket_attrs : Client → String → M State Attrs
  pub bucket_create : Client → String → String → NewBucket → M State (Unit {0})
  pub bucket_delete : Client → String → M State (Unit {0})
  pub bucket_set_label : Client → String → String → String → M State Attrs
  pub first_object : Client → String → M State Next
  -- k8s.io/utils/mount
  pub is_likely_not_mount_point : String → M State Bool
  pub mount : String → String → String → List String → M State (Unit {0})
  pub cleanup_mount_point : String → Bool → M State (Unit {0})
  -- the Kubernetes API
  pub in_cluster_config : M State Config
  pub new_core_clientset : Config → M State CoreClientset
  pub new_gcs_clientset : Config → M State GcsClientset
  pub get_pvc_annotations : CoreClientset → String → String → M State (Dict String)
  pub delete_pod : CoreClientset → String → String → M State (Unit {0})
  pub get_node_uid : CoreClientset → String → M State String
  pub list_published_volumes : GcsClientset → Dict String → M State (List PublishedVolume)
  pub create_published_volume : GcsClientset → PublishedVolume → M State PublishedVolume
  pub delete_published_volume : GcsClientset → String → M State (Unit {0})
