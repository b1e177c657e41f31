-- ===== src/Driver/Cleanup/Spared.antt =====
-- Which pods `RunPodCleanup` leaves alone.
use mathlib.Core.List.{Memᴰ}
use csi_gcs.Base.{String, ◌≡◌, ◌≢◌, refl, ◌∙◌, Bool, List, [], ◌∷◌, Dict}
use csi_gcs.Api.{PublishedVolume}
use csi_gcs.Go.{Outcome, ok, err}
use csi_gcs.Go.Laws.{bind_post}
use csi_gcs.World.{World}
use csi_gcs.World.Laws.{Keeps}
use csi_gcs.World.Registry.{Carries}
use csi_gcs.Util.Cluster.{delete_pod, get_registered_mounts}
use csi_gcs.Driver.Types.{GcsDriver}
use csi_gcs.Driver.Cleanup.{run_pod_cleanup}
use csi_gcs.Driver.Cleanup.Laws.{all_deleted, after_list, run_pod_cleanup-eq-after_list}

-- `kept` says which records the API has, and `running` which pods. A list has only records that are
-- there and carry its labels, a pod is deleted without another, and no other call stops a pod.
pub record IsExact (W : World) (running : W.State → String × String → Bool)
    (kept : W.State → PublishedVolume → Type 0) : Type 0 where
  pub list_sound :
      (c : W.GcsClientset) (labels : Dict String) (s : W.State) (vs : List PublishedVolume)
      (v : PublishedVolume)
      → (W.list_published_volumes c labels s).0 ≡ ok vs
      → Memᴰ v vs
      → kept s v × Carries labels v
  pub config_kept :
      (s : W.State) (v : PublishedVolume) → kept (W.in_cluster_config s).1 v → kept s v
  pub gcs_kept :
      (c : W.Config) (s : W.State) (v : PublishedVolume)
      → kept (W.new_gcs_clientset c s).1 v
      → kept s v
  pub config_keeps : Keeps running W.in_cluster_config
  pub core_keeps : (c : W.Config) → Keeps running (W.new_core_clientset c)
  pub gcs_keeps : (c : W.Config) → Keeps running (W.new_gcs_clientset c)
  pub list_keeps :
      (c : W.GcsClientset) (labels : Dict String)
      → Keeps running (W.list_published_volumes c labels)
  pub delete_other :
      (c : W.CoreClientset) (namespace name : String) (s : W.State) (pod : String × String)
      → (namespace, name) ≢ pod
      → running (W.delete_pod c namespace name s).1 pod ≡ running s pod

abbrev pub pod_named : PublishedVolume → String × String
pod_named v = (v.spec.pod.namespace, v.spec.pod.name)

-- The label by which the records of a node are listed.
abbrev pub node_label : String → Dict String
node_label node = ("gcs.csi.ofek.dev/node", node) ∷ []

module _ (W : World) (running : W.State → String × String → Bool)
    (kept : W.State → PublishedVolume → Type 0) (exact : IsExact W running kept)
    (pod : String × String) where
  open exact use {
    list_sound, config_kept, gcs_kept, config_keeps, core_keeps, gcs_keeps, list_keeps,
    delete_other,
  }

  delete_pod-other :
      (namespace name : String) (s : W.State)
      → (namespace, name) ≢ pod
      → running (delete_pod W namespace name s).1 pod ≡ running s pod
  unfolding delete_pod
  delete_pod-other namespace name s other =
      let P = λ (r : Outcome (Unit {0}) × W.State). running r.1 pod ≡ running s pod in
      bind_post P _ _
        (λ config _.
          bind_post P _ _
            (λ core _.
              delete_other core namespace name _ pod other
              ∙ core_keeps config _ pod
              ∙ config_keeps s pod)
            (λ e _. core_keeps config _ pod ∙ config_keeps s pod))
        (λ e _. config_keeps s pod)

  all_deleted_others :
      (vs : List PublishedVolume) (s : W.State)
      → ((v : PublishedVolume) → Memᴰ v vs → pod_named v ≢ pod)
      → running (all_deleted W vs s) pod ≡ running s pod
  unfolding all_deleted
  all_deleted_others [] s others = refl
  all_deleted_others (v ∷ vs) s others =
      all_deleted_others vs _ (λ w m. others w (Memᴰ.tail m))
      ∙ delete_pod-other v.spec.pod.namespace v.spec.pod.name s (others v (Memᴰ.head refl))

  -- A list of the records of a node, which stops no pod.
  abbrev ListPost : String → W.State → Outcome (List PublishedVolume) × W.State → Type 0
  ListPost node s r =
      (running r.1 pod ≡ running s pod)
      × ((vs : List PublishedVolume) (v : PublishedVolume)
          → r.0 ≡ ok vs
          → Memᴰ v vs
          → kept s v × Carries (node_label node) v)

  get_registered_mounts-ListPost :
      (node : String) (s : W.State) → ListPost node s (get_registered_mounts W node s)
  unfolding get_registered_mounts
  get_registered_mounts-ListPost node s =
      bind_post (ListPost node s) _ _
        (λ config _.
          bind_post (ListPost node s) _ _
            (λ clientset _. (
              list_keeps clientset (node_label node) _ pod
                  ∙ gcs_keeps config _ pod
                  ∙ config_keeps s pod,
              λ vs v listed m.
                  let sound = list_sound clientset (node_label node) _ vs v listed m in
                  (config_kept s v (gcs_kept config _ v sound.0), sound.1),
            ))
            (λ e _. (gcs_keeps config _ pod ∙ config_keeps s pod, λ vs v h. cc)))
        (λ e _. (config_keeps s pod, λ vs v h. cc))

  after_list_others :
      (node : String) (s : W.State) (r : Outcome (List PublishedVolume) × W.State)
      → ListPost node s r
      → ((v : PublishedVolume) → kept s v → Carries (node_label node) v → pod_named v ≢ pod)
      → running (after_list W r).1 pod ≡ running s pod
  unfolding after_list
  after_list_others node s (ok vs, t) post others =
      all_deleted_others vs t (λ v m. let known = post.1 vs v refl m in others v known.0 known.1)
      ∙ post.0
  after_list_others node s (err e, t) post others = post.0

  -- However `RunPodCleanup` ends, it stops no pod but those that records of the driver's node name: a
  -- pod that none of them names runs on if it ran. This is for an API as `IsExact` describes it.
  pub run_pod_cleanup-spared :
      (d : GcsDriver) (s : W.State)
      → ((v : PublishedVolume) → kept s v → Carries (node_label d.node_name) v → pod_named v ≢ pod)
      → running (run_pod_cleanup W d s).1 pod ≡ running s pod
  run_pod_cleanup-spared d s others = rw (run_pod_cleanup-eq-after_list W d s) (
      after_list_others d.node_name s (get_registered_mounts W d.node_name s)
        (get_registered_mounts-ListPost d.node_name s) others)
