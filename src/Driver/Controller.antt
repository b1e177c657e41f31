-- ===== src/Driver/Controller.antt =====
-- pkg/driver/controller.go: the handlers of CSI's controller service.
pub mod Succeeds
pub mod Validate
pub mod KeyFiles
pub mod Capacity
pub mod Create
pub mod Claims
pub mod Expand
pub mod Options
use csi_gcs.Base.{
  String, ◌<>◌, Bool, true, false, not, ◌==◌, Option, none, some, List, [], ◌∷◌, ℤ, pos, ltb_ℤ,
  ◌=ℤ◌, Dict, lookup, if◌then◌else◌,
}
use csi_gcs.Go.{
  invalid_argument, internal, not_found, already_exists, unimplemented, Error, status, Outcome, ok,
  err, M, ◌>>=◌, ◌>>◌, attempt, pure, throw, reject, on_error,
}
use csi_gcs.Flags.Names.{flag_bucket, flag_project_id, flag_location, flag_kms_key_id}
use csi_gcs.Flags.Merge.{merge_secret, merge_annotations}
use csi_gcs.Flags.MountOptions.{merge_mount_options}
use csi_gcs.World.{World, Attrs, NewBucket}
use csi_gcs.Util.BucketName.{bucket_name}
use csi_gcs.Util.Capacity.{error_text, bucket_capacity, set_bucket_capacity}
use csi_gcs.Util.Cluster.{get_pvc_annotations}
use csi_gcs.Driver.Types.{
  Capability, mount_flags, only_mounts, is_empty, text_or_empty, required_or_zero, map_or_empty,
}
use csi_gcs.Driver.Client.{with_client}

pub record CreateVolumeRequest : Type 0 where
  pub name : String
  pub volume_capabilities : List Capability
  pub secrets : Dict String
  pub parameters : Option (Dict String)
  pub required_bytes : Option ℤ

pub record Volume : Type 0 where
  pub volume_id : String
  pub volume_context : Dict String
  pub capacity_bytes : ℤ

pub record ExpandVolumeRequest : Type 0 where
  pub volume_id : String
  pub secrets : Dict String
  pub required_bytes : Option ℤ

pub record ExpandVolumeResponse : Type 0 where
  pub capacity_bytes : ℤ
  pub node_expansion_required : Bool

pub record ValidateRequest : Type 0 where
  pub volume_id : String
  pub volume_capabilities : List Capability
  pub secrets : Dict String
  pub volume_context : Option (Dict String)
  pub parameters : Option (Dict String)

pub data ValidateResponse : Type 0 where
  message : String → ValidateResponse
  confirmed : Option (Dict String) → List Capability → Option (Dict String) → ValidateResponse

-- The loop that merges the mount flags of every capability.
unfoldable pub merge_capabilities : Dict String → List Capability → Dict String
merge_capabilities options [] = options
merge_capabilities options (c ∷ cs) =
    merge_capabilities (merge_mount_options options (mount_flags c)) cs

module _ (W : World) where
  -- The annotations of the claim, if the parameters name one.
  unfoldable pub pvc_annotations : Option String → Option String → M W.State (Dict String)
  pvc_annotations (some name) (some namespace) =
      on_error (λ e. status internal ("Failed to load PersistentVolumeClaim: " <> error_text W e))
        (get_pvc_annotations W name namespace)
  pvc_annotations _ _ = pure []

  abbrev pub default_options : String → Dict String
  default_options name = ("bucket", bucket_name W name) ∷ ("location", "US") ∷ ("kmsKeyId", "") ∷ []

  -- The options of a volume: the later of secrets, mount flags, annotations and parameters wins.
  unfoldable pub volume_options : CreateVolumeRequest → Dict String → Dict String
  volume_options req annotations =
      let secret_options = merge_secret (default_options req.name) req.secrets in
      let mount_options = merge_capabilities secret_options req.volume_capabilities in
      merge_annotations (merge_annotations mount_options annotations) (map_or_empty req.parameters)

  unfoldable pub create_bucket :
      W.Client → String → Dict String → Option String → M W.State (Unit {0})
  create_bucket client bucket options none =
      throw
        (status invalid_argument ("Project Id not provided, bucket can't be created: " <> bucket))
  create_bucket client bucket options (some project_id) =
      on_error (λ e. status internal ("Failed to create bucket: " <> error_text W e))
        (W.bucket_create client bucket project_id (record {
          location = text_or_empty (lookup flag_location options);
          kms_key = text_or_empty (lookup flag_kms_key_id options);
        }))

  unless_exists : Outcome Attrs → M W.State (Unit {0}) → M W.State (Unit {0})
  unless_exists (ok attrs) create = pure tt
  unless_exists (err e) create = create

  -- `Check if Bucket Exists`: any error of `Attrs` is taken for a bucket that does not exist.
  unfoldable pub ensure_bucket : W.Client → String → Dict String → M W.State (Unit {0})
  unfolding create_bucket unless_exists
  ensure_bucket client bucket options = do
    found ← attempt (W.bucket_attrs client bucket)
    unless_exists found (create_bucket client bucket options (lookup flag_project_id options))

  -- `Get Capacity`
  unfoldable pub existing_capacity : W.Client → String → M W.State ℤ
  existing_capacity client bucket = do
    attrs ←
        on_error (λ e. status internal ("Failed to get bucket attrs: " <> error_text W e))
          (W.bucket_attrs client bucket)
    on_error (λ e. status internal ("Failed to get bucket capacity: " <> error_text W e))
        (λ s. (bucket_capacity attrs, s))

  unfoldable pub write_capacity : W.Client → String → ℤ → M W.State (Unit {0})
  write_capacity client bucket capacity = do
    attrs ←
        on_error (λ e. status internal ("Failed to set bucket capacity: " <> error_text W e))
          (set_bucket_capacity W client bucket capacity)
    pure tt

  -- `Check / Set Capacity` of `CreateVolume`
  unfoldable pub check_capacity : W.Client → String → ℤ → ℤ → M W.State (Unit {0})
  check_capacity client bucket existing new =
      if existing =ℤ pos 0
      then write_capacity client bucket new
      else reject (ltb_ℤ existing new) (
          status already_exists
            ("Volume with the same name: " <> (bucket <> " but with smaller size already exist")))

  -- `CreateVolume` from the bucket on.
  unfoldable pub create_in : Dict String → ℤ → W.Client → M W.State Volume
  create_in options new client = do
    let bucket = text_or_empty (lookup flag_bucket options)
    ensure_bucket client bucket options
    existing ← existing_capacity client bucket
    check_capacity client bucket existing new
    pure (record { volume_id = bucket; volume_context = options; capacity_bytes = new })

  unfoldable pub create_volume : CreateVolumeRequest → M W.State Volume
  unfolding pvc_annotations
  create_volume req = do
    reject (req.name == "") (status invalid_argument "missing name")
    reject (is_empty req.volume_capabilities)
        (status invalid_argument "missing volume capabilities")
    reject (not (only_mounts req.volume_capabilities))
        (status invalid_argument "Only volumeMode Filesystem is supported")
    let parameters = map_or_empty req.parameters
    annotations ←
        pvc_annotations (lookup "csi.storage.k8s.io/pvc/name" parameters)
          (lookup "csi.storage.k8s.io/pvc/namespace" parameters)
    with_client W req.secrets
        (create_in (volume_options req annotations) (required_or_zero req.required_bytes))

  unfoldable pub delete_found : W.Client → String → Outcome Attrs → M W.State (Unit {0})
  delete_found client bucket (ok attrs) =
      on_error
        (λ e. status internal ("Error deleting bucket " <> (bucket <> (", " <> error_text W e))))
        (W.bucket_delete client bucket)
  delete_found client bucket (err e) = pure tt

  unfoldable pub delete_in : String → W.Client → M W.State (Unit {0})
  unfolding delete_found
  delete_in bucket client = do
    found ← attempt (W.bucket_attrs client bucket)
    delete_found client bucket found

  unfoldable pub delete_volume : String → Dict String → M W.State (Unit {0})
  delete_volume volume_id secrets = do
    reject (volume_id == "") (status invalid_argument "missing volume id")
    with_client W secrets (delete_in volume_id)

  unfoldable pub validate_in : ValidateRequest → W.Client → M W.State ValidateResponse
  validate_in req client = do
    attrs ←
        on_error (λ _. status not_found "volume does not exist")
          (W.bucket_attrs client req.volume_id)
    pure (
        if only_mounts req.volume_capabilities
        then confirmed req.volume_context req.volume_capabilities req.parameters
        else message "Only volumeMode Filesystem is supported")

  unfoldable pub validate_volume_capabilities : ValidateRequest → M W.State ValidateResponse
  validate_volume_capabilities req = do
    reject (req.volume_id == "") (status invalid_argument "missing volume id")
    reject (is_empty req.volume_capabilities)
        (status invalid_argument "missing volume capabilities")
    with_client W req.secrets (validate_in req)

  -- `ControllerExpandVolume` from the bucket on.
  unfoldable pub expand_in : String → ℤ → W.Client → M W.State ExpandVolumeResponse
  expand_in bucket new client = do
    attrs ←
        on_error (λ _. status not_found ("Bucket '" <> (bucket <> "' does not exist")))
          (W.bucket_attrs client bucket)
    existing ← existing_capacity client bucket
    if ltb_ℤ existing new then write_capacity client bucket new else pure tt
    pure (record { capacity_bytes = new; node_expansion_required = false })

  unfoldable pub controller_expand_volume : ExpandVolumeRequest → M W.State ExpandVolumeResponse
  controller_expand_volume req = do
    reject (req.volume_id == "") (status invalid_argument "missing volume id")
    with_client W req.secrets (expand_in req.volume_id (required_or_zero req.required_bytes))
