-- ===== src/Driver/Types.antt =====
-- pkg/driver/driver.go, constants.go: the driver, and the parts of CSI's messages that it reads.
use csi_gcs.Base.{String, ℤ, pos, Bool, true, false, ◌&&◌, Option, none, some, List, [], ◌∷◌, Dict}

abbrev pub csi_driver_name : String
csi_driver_name = "gcs.csi.ofek.dev"

abbrev pub bucket_mount_path : String
bucket_mount_path = "/var/lib/kubelet/pods"

abbrev pub key_storage_path : String
key_storage_path = "/tmp/keys"

abbrev pub default_gid : ℤ
default_gid = pos 63147

abbrev pub default_dir_mode : ℤ
default_dir_mode = pos 0o775

abbrev pub default_file_mode : ℤ
default_file_mode = pos 0o664

-- `GCSDriver`, without its server and its mounter.
pub record GcsDriver : Type 0 where
  pub name : String
  pub node_name : String
  pub endpoint : String
  pub mount_point : String
  pub version : String
  pub delete_orphaned_pods : Bool

unfoldable pub new_gcs_driver : String → String → String → String → Bool → GcsDriver
new_gcs_driver name node endpoint version delete_orphaned_pods = record {
  name = name;
  node_name = node;
  endpoint = endpoint;
  mount_point = bucket_mount_path;
  version = version;
  delete_orphaned_pods = delete_orphaned_pods;
}

-- The access type of a `csi.VolumeCapability`: none, a mount with its flags, or a block device.
pub data Capability : Type 0 where
  unset block : Capability
  mount : List String → Capability

-- `capability.GetMount() != nil && capability.GetBlock() == nil`
abbrev pub is_mount : Capability → Bool
is_mount unset = false
is_mount block = false
is_mount (mount flags) = true

-- `capability.GetMount().GetMountFlags()`
abbrev pub mount_flags : Capability → List String
mount_flags unset = []
mount_flags block = []
mount_flags (mount flags) = flags

-- The loop over the capabilities goes on while they are mounts.
unfoldable pub only_mounts : List Capability → Bool
only_mounts [] = true
only_mounts (c ∷ cs) = is_mount c && only_mounts cs

abbrev pub is_empty {ℓ} : {A : Type ℓ} → List A → Bool
is_empty [] = true
is_empty (x ∷ xs) = false

-- `m[k]`, which is "" where the key is missing.
abbrev pub text_or_empty : Option String → String
text_or_empty none = ""
text_or_empty (some v) = v

-- `req.GetCapacityRange().GetRequiredBytes()`
abbrev pub required_or_zero : Option ℤ → ℤ
required_or_zero none = pos 0
required_or_zero (some bytes) = bytes

-- A map that may be nil, as a map.
abbrev pub map_or_empty : Option (Dict String) → Dict String
map_or_empty none = []
map_or_empty (some m) = m
