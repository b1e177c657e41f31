-- ===== src/Driver/Controller/Claims.antt =====
-- The annotations of the claim that a request to `CreateVolume` names, when the Kubernetes API answers.
use csi_gcs.Base.{String, ◌∙◌, ◌≡◌, sym, ap, Option, none, some, Dict, lookup, []}
use csi_gcs.Go.{ok, M, bind}
use csi_gcs.Go.Laws.{bind_ok, relabel_ok_of}
use csi_gcs.World.{World, Attrs}
use csi_gcs.World.Laws.{IsStorage, IsApart}
use csi_gcs.World.Up.{IsClusterUp}
use csi_gcs.Util.Cluster.{get_pvc_annotations}
use csi_gcs.Driver.Types.{map_or_empty}
use csi_gcs.Driver.Controller.{CreateVolumeRequest, pvc_annotations}
use csi_gcs.Driver.Controller.Capacity.{BucketsSame}
use csi_gcs.Driver.Controller.Create.{pvc_annotations-Keeps, named_annotations}

module _ (W : World) (bucket : W.State → String → Option Attrs) (storage : IsStorage W bucket)
    (apart : IsApart W String (Option Attrs) bucket)
    (claim : W.State → String × String → Option (Dict String)) (cluster : IsClusterUp W claim) where
  open cluster use {config_up, config_keeps, core_up, core_keeps, annotations_up}

  -- The claim that the parameters name is there with these annotations, or they name none.
  abbrev pub Claims : Option String → Option String → W.State → Dict String → Type 0
  Claims (some name) (some namespace) s annotations = claim s (namespace, name) ≡ some annotations
  Claims (some name) none s annotations = annotations ≡ []
  Claims none namespace s annotations = annotations ≡ []

  abbrev pub HasClaim : CreateVolumeRequest → W.State → Dict String → Type 0
  HasClaim req s annotations =
      let parameters = map_or_empty req.parameters in
      Claims (lookup "csi.storage.k8s.io/pvc/name" parameters)
        (lookup "csi.storage.k8s.io/pvc/namespace" parameters) s annotations

  pvc_annotations_ok :
      (name namespace : Option String) (s : W.State) (annotations : Dict String)
      → Claims name namespace s annotations
      → (pvc_annotations W name namespace s).0 ≡ ok annotations
  unfolding pvc_annotations get_pvc_annotations
  pvc_annotations_ok (some name) (some namespace) s annotations there =
      let (config, read) = config_up s in
      let (clientset, made) = core_up config (W.in_cluster_config s).1 in
      relabel_ok_of _ _ (
        bind_ok _ _ read (
          bind_ok _ _ made (
            annotations_up clientset namespace name _ annotations
              (core_keeps config _ (namespace, name) ∙ config_keeps s (namespace, name) ∙ there))))
  pvc_annotations_ok none namespace s annotations there = ap ok (sym there)
  pvc_annotations_ok (some name) none s annotations there = ap ok (sym there)

  pub named_annotations_ok :
      (req : CreateVolumeRequest) (s : W.State) (annotations : Dict String)
      → HasClaim req s annotations
      → (named_annotations W bucket storage apart req s).0 ≡ ok annotations
  named_annotations_ok req s annotations there = pvc_annotations_ok _ _ s annotations there

  pub behind_claim_ok :
      {A : Type 0} {v : A} (req : CreateVolumeRequest) (s : W.State) (annotations : Dict String)
      (rest : Dict String → M W.State A)
      → HasClaim req s annotations
      → ((t : W.State) → BucketsSame bucket s t → (rest annotations t).0 ≡ ok v)
      → (bind (named_annotations W bucket storage apart req s) rest).0 ≡ ok v
  behind_claim_ok req s annotations rest there good =
      bind_ok _ _ (named_annotations_ok req s annotations there)
        (good _ (λ m. pvc_annotations-Keeps W bucket storage apart _ _ s m))
