-- ===== src/Clientset/Mounts.antt =====
-- The node and the cleanup of the driver with the client set behind their calls to the records.
pub mod Model
mod Tests
use csi_gcs.Base.{
  String, ◌∙◌, ◌≡◌, refl, ap, true, false, ℤ, Bool, Option, some, Dict, Bool-cases, inl, inr,
}
use csi_gcs.Api.{PublishedVolume}
use csi_gcs.Go.{ok, bind}
use csi_gcs.Go.Laws.{bind_keeps}
use csi_gcs.World.{World}
use csi_gcs.World.Laws.{Keeps, IsApart}
use csi_gcs.World.Mounts.{IsMounter, IsUnmounted}
use csi_gcs.World.Registry.{IsPods}
use csi_gcs.Util.Cluster.{mount_name}
use csi_gcs.Driver.Types.{GcsDriver}
use csi_gcs.Driver.Node.{PublishRequest, node_publish_volume}
use csi_gcs.Driver.Node.Records.{pod_namespace, pod_name}
use csi_gcs.Driver.Cleanup.{run_pod_cleanup}
use csi_gcs.Driver.Cleanup.Pods.{node_publish_volume-run_pod_cleanup}
use csi_gcs.Clientset.Request.{Request}
use csi_gcs.Clientset.ClientGo.{ClientGo}
use csi_gcs.Clientset.Typed
use csi_gcs.Clientset.Typed.{RestConfig, set_config_defaults}
use csi_gcs.Clientset.PublishedVolumes.{create, delete_volume}
use csi_gcs.Clientset.Config.{shares_limiter, with_limiter, clients_for, new_for_config}
use csi_gcs.Clientset.Server.{Root, Collection, IsServer}
use csi_gcs.Clientset.Server.Group.{new_for_config-MadePost, volumes_client}
use csi_gcs.Clientset.Server.Registry.{
  live_mounts, connect-IsRegistry, outcome_state, succeeded_state, noted_state,
}
use csi_gcs.Clientset.Connect.{in_foreground, connect}

-- The calls of client-go mount nothing.
pub record IsMountless {S : Type 0} (G : ClientGo S) (mounted : S → String → Bool) : Type 0 where
  pub rest_client_keeps : (c : RestConfig G) → Keeps mounted (G.rest_client_for c)
  pub discovery_keeps : (c : RestConfig G) → Keeps mounted (G.new_discovery_client_for_config c)
  pub limiter_keeps :
      (q : G.Float) (b : ℤ) (s : S) (p : String)
      → mounted (G.new_token_bucket_rate_limiter q b s).1 p ≡ mounted s p
  pub volume_keeps :
      (h : G.rest.Interface) (r : Request) (into : PublishedVolume) (s : S) (p : String)
      → mounted (G.rest.into_volume h r into s).1 p ≡ mounted s p
  pub error_keeps :
      (h : G.rest.Interface) (r : Request) (s : S) (p : String)
      → mounted (G.rest.do_error h r s).1 p ≡ mounted s p

module _ {S : Type 0} (G : ClientGo S) (mounted : S → String → Bool)
    (quiet : IsMountless G mounted) where
  open quiet use {rest_client_keeps, discovery_keeps, limiter_keeps}

  typed-Keeps : (c : RestConfig G) → Keeps mounted (Typed.new_for_config G c)
  unfolding Typed.new_for_config
  typed-Keeps c s p =
      unfold set_config_defaults bind in
      bind_keeps mounted p (mounted s p) (G.rest_client_for _ s) _ (rest_client_keeps _ s p)
        (λ h t same. same)

  clients_for-Keeps : (c : RestConfig G) → Keeps mounted (clients_for G c)
  unfolding clients_for
  clients_for-Keeps c s p =
      bind_keeps mounted p (mounted s p) (Typed.new_for_config G c s) _ (typed-Keeps c s p)
        (λ gcs t same.
          bind_keeps mounted p (mounted s p) (G.new_discovery_client_for_config c t) _
            (discovery_keeps c t p ∙ same) (λ d u kept. kept))

  with_limiter-keeps :
      (c : RestConfig G) (s : S) (p : String) → mounted (with_limiter G c s).1 p ≡ mounted s p
  unfolding with_limiter
  with_limiter-keeps c s p = elim (Bool-cases (shares_limiter G c)) [
    | inl share ↦ rw share (limiter_keeps c.qps c.burst s p)
    | inr own ↦ rw own refl
  ]

  new_for_config-Keeps : (c : RestConfig G) → Keeps mounted (new_for_config G c)
  unfolding new_for_config
  new_for_config-Keeps c s p = clients_for-Keeps _ _ p ∙ with_limiter-keeps c s p

module _ (W : World) (G : ClientGo W.State) (config_of : W.Config → RestConfig G)
    (root : G.rest.Interface → Root) (selector : Dict String → String)
    {live : W.State → Collection → String → Option PublishedVolume}
    (server : IsServer G root selector live) where
  abbrev pub linked : World
  linked = connect W G config_of root selector server

  -- The records of mounts that the server keeps.
  abbrev pub kept_records : W.State → String → Option PublishedVolume
  kept_records = live_mounts W G config_of root selector server

  connect-IsPods :
      (running : W.State → String × String → Bool) → IsPods W running → IsPods linked running
  connect-IsPods running pods = record {
    config_up = pods.config_up;
    core_up = pods.core_up;
    config_keeps = pods.config_keeps;
    core_keeps = pods.core_keeps;
    delete_up = pods.delete_up;
    delete_ok = pods.delete_ok;
    delete_stays = pods.delete_stays;
  }

  module _ (mounted : W.State → String → Bool) where
    connect-IsMounter : IsMounter W mounted → IsMounter linked mounted
    connect-IsMounter mounter = record {
      answer_keeps = mounter.answer_keeps;
      answer_ok = mounter.answer_ok;
      answer_missing = mounter.answer_missing;
      mount_ok = mounter.mount_ok;
      mount_other = mounter.mount_other;
      cleanup_ok = mounter.cleanup_ok;
      cleanup_other = mounter.cleanup_other;
    }

    connect-IsApart : IsApart W String Bool mounted → IsApart linked String Bool mounted
    connect-IsApart apart = record {
      credentials_keeps = apart.credentials_keeps;
      client_keeps = apart.client_keeps;
      mkdir_keeps = apart.mkdir_keeps;
      temp_file_keeps = apart.temp_file_keeps;
      write_keeps = apart.write_keeps;
      close_keeps = apart.close_keeps;
      remove_keeps = apart.remove_keeps;
      config_keeps = apart.config_keeps;
      core_keeps = apart.core_keeps;
      annotations_keeps = apart.annotations_keeps;
    }

    connect-IsUnmounted :
        IsMountless G mounted
        → IsUnmounted W String Bool mounted
        → IsUnmounted linked String Bool mounted
    connect-IsUnmounted quiet unmounted = record {
      mkdir_all_keeps = unmounted.mkdir_all_keeps;
      first_object_keeps = unmounted.first_object_keeps;
      uid_keeps = unmounted.uid_keeps;
      gcs_keeps = λ c s p.
          ap (λ t. mounted t p)
            (noted_state (new_for_config G (config_of c) s)
              (new_for_config-MadePost G root live server (config_of c) s).0)
          ∙ new_for_config-Keeps G mounted quiet (config_of c) s p;
      create_record_keeps = λ c v s p.
          ap (λ t. mounted t p) (outcome_state _ (create G.rest (volumes_client G c.0) v s))
          ∙ unfold create in quiet.volume_keeps _ _ _ s p;
      delete_record_keeps = λ c n s p.
          ap (λ t. mounted t p)
            (succeeded_state (delete_volume G.rest (volumes_client G c.0) n (some in_foreground) s))
          ∙ unfold delete_volume in quiet.error_keeps _ _ s p;
    }

    -- With the client set behind the driver's calls to the records: if `NodePublishVolume` succeeds on a
    -- target that was no mount point, for a driver that is to delete orphaned pods, and the driver of
    -- the same node is later started while the server still keeps the record of the mount, then a
    -- `RunPodCleanup` that succeeds leaves the pod of the request not running. The server is as
    -- `IsServer` describes it, the mounter and the pods as `IsMounter` and `IsPods` do, no other call
    -- mounts anything (`IsApart`, `IsUnmounted`, `IsMountless`), and a read of the config in the cluster
    -- changes no record.
    pub connect-node_publish_volume-run_pod_cleanup :
        (running : W.State → String × String → Bool)
        → IsPods W running
        → IsMounter W mounted
        → IsApart W String Bool mounted
        → IsUnmounted W String Bool mounted
        → IsMountless G mounted
        → Keeps kept_records W.in_cluster_config
        → (driver restarted : GcsDriver) (req : PublishRequest) (s t : W.State)
        → driver.delete_orphaned_pods ≡ true
        → restarted.node_name ≡ driver.node_name
        → mounted s req.target_path ≡ false
        → (node_publish_volume linked driver req s).0 ≡ ok tt
        → (let name = mount_name req.volume_id req.target_path driver.node_name in
            kept_records t name ≡ kept_records (node_publish_volume linked driver req s).1 name)
        → (run_pod_cleanup linked restarted t).0 ≡ ok tt
        → running (run_pod_cleanup linked restarted t).1 (pod_namespace req, pod_name req) ≡ false
    connect-node_publish_volume-run_pod_cleanup running pods mounter apart unmounted quiet keeps
          driver restarted req s t cleaning same free published still cleaned =
        node_publish_volume-run_pod_cleanup linked running (connect-IsPods running pods)
          kept_records (connect-IsRegistry W G config_of root selector server keeps) mounted
          (connect-IsMounter mounter) (connect-IsApart apart) (connect-IsUnmounted quiet unmounted)
          driver restarted req s t cleaning same free published still cleaned
