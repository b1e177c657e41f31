-- ===== src/Driver/Node/Keeps.antt =====
-- The calls of the node around the mounter leave a view of the outside world as it is.
use csi_gcs.Base.{String, ◌==◌, ◌∙◌, refl, Dict, [], ◌∷◌, Bool-cases, inl, inr}
use csi_gcs.Go.{Outcome, ok, err, bind}
use csi_gcs.Go.Laws.{bind_keeps}
use csi_gcs.World.{World, Next, with_credentials, with_credentials_file}
use csi_gcs.World.Laws.{Keeps, IsApart}
use csi_gcs.World.Mounts.{IsUnmounted}
use csi_gcs.Util.Capacity.{error_text, exists_by, bucket_exists}
use csi_gcs.Util.Cluster.{register_mount, unregister_mount}
use csi_gcs.Util.Keys.Laws.{get_key-Keeps}
use csi_gcs.Driver.Types.{GcsDriver, key_storage_path}
use csi_gcs.Driver.Client.Laws.{new_client-Keeps}
use csi_gcs.Driver.Node.{PublishRequest, client_and_key, record_mount, forget_mount}

module _ (W : World) {K V : Type 0} {view : W.State → K → V} (apart : IsApart W K V view) where
  open apart use {credentials_keeps, config_keeps, core_keeps}

  pub client_and_key-Keeps : (secrets : Dict String) → Keeps view (client_and_key W secrets)
  unfolding client_and_key
  client_and_key-Keeps [] s k = bind_keeps view k _ _ _ (credentials_keeps s k) λ creds t h.
      bind_keeps view k _ _ _ (new_client-Keeps W apart (with_credentials creds) t k ∙ h)
        λ client u h'. h'
  client_and_key-Keeps (secret ∷ secrets) s k =
      bind_keeps view k _ _ _ (get_key-Keeps W apart (secret ∷ secrets) key_storage_path s k)
        λ key_file t h.
          bind_keeps view k _ _ _
            (new_client-Keeps W apart (with_credentials_file key_file) t k ∙ h) λ client u h'. h'

  module _ (unmounted : IsUnmounted W K V view) where
    open unmounted use {
      first_object_keeps, gcs_keeps, uid_keeps, create_record_keeps, delete_record_keeps,
    }

    exists_by-Keeps : (r : Outcome Next) → Keeps view (exists_by W r)
    unfolding exists_by
    exists_by-Keeps (ok next) s k = refl
    exists_by-Keeps (err e) s k =
        elim (Bool-cases (error_text W e == "storage: bucket doesn't exist")) [
          | inl missing ↦ rw missing
          | inr other ↦ rw other
        ]

    pub bucket_exists-Keeps : (c : W.Client) (n : String) → Keeps view (bucket_exists W c n)
    unfolding bucket_exists bind
    bucket_exists-Keeps c n s k =
        exists_by-Keeps (W.first_object c n s).0 (W.first_object c n s).1 k
        ∙ first_object_keeps c n s k

    register_mount-Keeps :
        (volume_id target node namespace name : String) (options : Dict String)
        → Keeps view (register_mount W volume_id target node namespace name options)
    unfolding register_mount
    register_mount-Keeps volume_id target node namespace name options s k =
        bind_keeps view k _ _ _ (config_keeps s k) λ config t h.
          bind_keeps view k _ _ _ (gcs_keeps config t k ∙ h) λ clientset u h'.
            bind_keeps view k _ _ _ (core_keeps config u k ∙ h') λ core v h''.
              bind_keeps view k _ _ _ (uid_keeps core node v k ∙ h'') λ uid w h'''.
                bind_keeps view k _ _ _ (create_record_keeps clientset _ w k ∙ h''')
                  λ created x last. last

    unregister_mount-Keeps :
        (volume_id target node : String) → Keeps view (unregister_mount W volume_id target node)
    unfolding unregister_mount
    unregister_mount-Keeps volume_id target node s k =
        bind_keeps view k _ _ _ (config_keeps s k) λ config t h.
          bind_keeps view k _ _ _ (gcs_keeps config t k ∙ h)
            λ clientset u h'. delete_record_keeps clientset _ u k ∙ h'

    module _ (driver : GcsDriver) where
      pub record_mount-Keeps :
          (req : PublishRequest) (options : Dict String)
          → Keeps view (record_mount W driver req options)
      unfolding record_mount
      record_mount-Keeps req options s k = elim (Bool-cases driver.delete_orphaned_pods) [
        | inl on ↦ rw on (register_mount-Keeps _ _ _ _ _ options s k)
        | inr off ↦ rw off
      ]

      pub forget_mount-Keeps :
          (volume_id target : String) → Keeps view (forget_mount W driver volume_id target)
      unfolding forget_mount bind
      forget_mount-Keeps volume_id target s k = elim (Bool-cases driver.delete_orphaned_pods) [
        | inl on ↦ rw on (unregister_mount-Keeps volume_id target driver.node_name s k)
        | inr off ↦ rw off
      ]
