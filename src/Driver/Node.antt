-- ===== src/Driver/Node.antt =====
-- pkg/driver/node.go: the handlers of CSI's node service.
pub mod Keeps
pub mod Mounts
pub mod Records
pub mod Retry
pub mod Succeeds
use csi_gcs.Base.{
  String, ◌<>◌, Bool, true, false, not, ◌==◌, Option, none, some, List, [], ◌∷◌, ◌++◌, contains,
  Dict, lookup, if◌then◌else◌,
}
use csi_gcs.Go.{
  invalid_argument, internal, not_found, permission_denied, Error, status, is_not_exist,
  is_permission, Outcome, ok, err, M, ◌>>=◌, ◌>>◌, attempt, pure, throw, reject, on_error,
}
use csi_gcs.Strconv.{format_int}
use csi_gcs.Flags.Names.{flag_bucket}
use csi_gcs.Flags.Merge.{merge_secret, merge_flags}
use csi_gcs.Flags.MountOptions.{merge_mount_options}
use csi_gcs.Flags.Gcsfuse.{extra_flags}
use csi_gcs.World.{World, with_credentials, with_credentials_file}
use csi_gcs.Util.Capacity.{error_text, bucket_exists}
use csi_gcs.Util.Keys.{get_key}
use csi_gcs.Util.Cluster.{register_mount, unregister_mount}
use csi_gcs.Driver.Types.{
  GcsDriver, Capability, unset, is_mount, mount_flags, is_empty, text_or_empty, map_or_empty,
  key_storage_path, default_gid, default_dir_mode, default_file_mode,
}
use csi_gcs.Driver.Client.{new_client}

pub record PublishRequest : Type 0 where
  pub volume_id : String
  pub target_path : String
  pub capability : Option Capability
  pub readonly : Bool
  pub secrets : Dict String
  pub volume_context : Option (Dict String)

-- `req.VolumeCapability`, where a nil pointer has neither a mount nor a block.
abbrev pub the_capability : Option Capability → Capability
the_capability none = unset
the_capability (some c) = c

abbrev pub is_nil : Option Capability → Bool
is_nil none = true
is_nil (some c) = false

abbrev pub default_options : String → Dict String
default_options volume_id =
    ("bucket", volume_id)
    ∷ ("gid", format_int default_gid 10)
    ∷ ("dirMode", "0" <> format_int default_dir_mode 8)
    ∷ ("fileMode", "0" <> format_int default_file_mode 8)
    ∷ []

-- The options of a mount: the later of secrets, mount flags and volume context wins.
unfoldable pub publish_options : PublishRequest → Dict String
publish_options req =
    merge_flags
      (merge_mount_options (merge_secret (default_options req.volume_id) req.secrets)
        (mount_flags (the_capability req.capability)))
      (map_or_empty req.volume_context)

unfoldable pub mount_options : String → Dict String → Bool → List String
mount_options key_file options readonly =
    let own : List String = "allow_other" ∷ [] in
    let keyed = if key_file == "" then own else own ++ (("key_file=" <> key_file) ∷ []) in
    let extra = keyed ++ extra_flags options in if readonly then extra ++ ("ro" ∷ []) else extra

module _ (W : World) where
  -- The client, and the name of the file with its key or "".
  unfoldable pub client_and_key : Dict String → M W.State (W.Client × String)
  client_and_key secrets = elim (is_empty secrets) [
    | true ↦ do
      creds ← W.find_default_credentials
      client ← new_client W (with_credentials creds)
      pure (client, "")
    | false ↦ do
      key_file ← get_key W secrets key_storage_path
      client ← new_client W (with_credentials_file key_file)
      pure (client, key_file)
  ]

  -- The answer of the mounter: a path that is missing is made, and is no mount point.
  unfoldable pub target_answer : String → Outcome Bool → M W.State Bool
  target_answer target (ok not_mounted) = pure not_mounted
  target_answer target (err e) =
      if is_not_exist e
      then (do
        on_error (λ e'. status internal (error_text W e')) (W.mkdir_all target 0o750)
        pure true)
      else throw (status internal (error_text W e))

  unfoldable pub check_target : String → M W.State Bool
  unfolding target_answer
  check_target target = do
    answer ← attempt (W.is_likely_not_mount_point target)
    target_answer target answer

  -- The error of the mount, as the code that the caller sees.
  unfoldable pub mount_error : Error → Error
  mount_error e =
      if is_permission e
      then status permission_denied (error_text W e)
      else if contains (error_text W e) "invalid argument"
      then status invalid_argument (error_text W e)
      else status internal (error_text W e)

  module _ (driver : GcsDriver) where
    unfoldable pub record_mount : PublishRequest → Dict String → M W.State (Unit {0})
    record_mount req options =
        let context = map_or_empty req.volume_context in
        if driver.delete_orphaned_pods
        then register_mount W req.volume_id req.target_path driver.node_name
            (text_or_empty (lookup "csi.storage.k8s.io/pod.namespace" context))
            (text_or_empty (lookup "csi.storage.k8s.io/pod.name" context)) options
        else pure tt

    -- What follows the test of the target: a mount point is left as it is.
    unfoldable pub mount_target :
        PublishRequest → Dict String → String → Bool → M W.State (Unit {0})
    unfolding record_mount
    mount_target req options key_file false = pure tt
    mount_target req options key_file true = do
      on_error mount_error (
          W.mount (text_or_empty (lookup flag_bucket options)) req.target_path "gcsfuse"
            (mount_options key_file options req.readonly))
      record_mount req options

    -- `NodePublishVolume` from the client on.
    unfoldable pub publish_in :
        PublishRequest → Dict String → W.Client × String → M W.State (Unit {0})
    publish_in req options (client, key_file) = do
      let bucket = text_or_empty (lookup flag_bucket options)
      found ←
          on_error (λ e. status internal ("Failed to check if bucket exists: " <> error_text W e))
            (bucket_exists W client bucket)
      reject (not found) (status not_found ("Bucket " <> (bucket <> " does not exist")))
      not_mounted ← check_target req.target_path
      mount_target req options key_file not_mounted

    unfoldable pub node_publish_volume : PublishRequest → M W.State (Unit {0})
    node_publish_volume req = do
      reject (req.volume_id == "") (status invalid_argument "Volume ID missing in request")
      reject (req.target_path == "") (status invalid_argument "Target path missing in request")
      reject (is_nil req.capability)
          (status invalid_argument "NodePublishVolume Volume Capability must be provided")
      reject (not (is_mount (the_capability req.capability)))
          (status invalid_argument "Only volumeMode Filesystem is supported")
      c ← client_and_key req.secrets
      publish_in req (publish_options req) c

    -- The error of `UnregisterMount` reaches the log alone.
    unfoldable pub forget_mount : String → String → M W.State (Unit {0})
    forget_mount volume_id target =
        if driver.delete_orphaned_pods
        then (do r ← attempt (unregister_mount W volume_id target driver.node_name); pure tt)
        else pure tt

    -- What follows the test of the target.
    unfoldable pub unmount_target : String → String → Bool → M W.State (Unit {0})
    unfolding forget_mount
    unmount_target volume_id target true = pure tt
    unmount_target volume_id target false = do
      on_error (λ e. status internal (error_text W e)) (W.cleanup_mount_point target false)
      forget_mount volume_id target

    -- The answer of the mounter: a missing path has nothing to unmount, and a mount whose server is
    -- gone is one.
    unfoldable pub unpublish_answer : String → String → Outcome Bool → M W.State (Unit {0})
    unpublish_answer volume_id target (ok not_mounted) = unmount_target volume_id target not_mounted
    unpublish_answer volume_id target (err e) =
        if is_not_exist e
        then pure tt
        else if contains (error_text W e) "transport endpoint is not connected"
        then unmount_target volume_id target false
        else throw (status internal (error_text W e))

    unfoldable pub node_unpublish_volume : String → String → M W.State (Unit {0})
    node_unpublish_volume volume_id target = do
      reject (volume_id == "") (status invalid_argument "Volume ID missing in request")
      reject (target == "") (status invalid_argument "Target path missing in request")
      answer ← attempt (W.is_likely_not_mount_point target)
      unpublish_answer volume_id target answer

  expand_error : Error → Error
  expand_error e =
      if is_not_exist e
      then status not_found "Targetpath not found"
      else status internal (error_text W e)

  unfoldable pub node_expand_volume : String → String → M W.State (Unit {0})
  unfolding expand_error
  node_expand_volume volume_id volume_path = do
    reject (volume_id == "") (status invalid_argument "Volume ID missing in request")
    reject (volume_path == "") (status invalid_argument "Volume path missing in request")
    not_mounted ← on_error expand_error (W.is_likely_not_mount_point volume_path)
    reject not_mounted (status not_found "Volume not mounted")
