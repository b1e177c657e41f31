-- ===== src/Driver/Controller/Create.antt =====
-- What `CreateVolume` promises of its volume, and of the buckets.
use csi_gcs.Base.{
  String, ◌∙◌, ◌≡◌, sym, ap, subst, refl, Option, none, some, [], Dict, lookup, ℤ, IsInt64,
}
use csi_gcs.Go.{pure, Outcome, ok, err, M, bind}
use csi_gcs.Go.Laws.{bind_post, reject_post, bind_keeps, relabel_keeps}
use csi_gcs.Flags.Names.{flag_bucket}
use csi_gcs.World.{World, Attrs}
use csi_gcs.World.Laws.{Keeps, IsStorage, IsApart}
use csi_gcs.Util.Cluster.{get_pvc_annotations}
use csi_gcs.Driver.Types.{text_or_empty, required_or_zero, map_or_empty}
use csi_gcs.Driver.Client.{with_client}
use csi_gcs.Driver.Client.Laws.{with_client_post}
use csi_gcs.Driver.Controller.{
  pvc_annotations, existing_capacity, check_capacity, create_in, create_volume, volume_options,
  CreateVolumeRequest, Volume,
}
use csi_gcs.Driver.Controller.Capacity.{
  Holds, BucketsSame, OthersSame, existing_capacity_post, ensure_bucket_post, check_capacity_post,
}

-- Annotations that were read, and none if they could not be read.
abbrev pub read_or_empty : Outcome (Dict String) → Dict String
read_or_empty (ok annotations) = annotations
read_or_empty (err e) = []

module _ (W : World) (bucket : W.State → String → Option Attrs) (storage : IsStorage W bucket) where
  -- What a caller of `CreateVolume` may rely on, with or without an error.
  abbrev pub Created : Dict String → ℤ → W.State → Outcome Volume → Type 0
  Created options new t (ok v) =
      (v.volume_id ≡ text_or_empty (lookup flag_bucket options))
      × (v.volume_context ≡ options)
      × (v.capacity_bytes ≡ new)
      × Holds (bucket t v.volume_id) new
  Created options new t (err e) = Unit

  abbrev pub CreatePost : W.State → Dict String → ℤ → Outcome Volume × W.State → Type 0
  CreatePost s options new r =
      OthersSame bucket (text_or_empty (lookup flag_bucket options)) s r.1
      × Created options new r.1 r.0

  create_in_post :
      (options : Dict String) (new : ℤ) (c : W.Client) (s : W.State)
      → IsInt64 new
      → CreatePost s options new (create_in W options new c s)
  unfolding create_in bind
  create_in_post options new c s h =
      let n = text_or_empty (lookup flag_bucket options) in
      let P = λ (r : Outcome Volume × W.State). CreatePost s options new r in
      let v : Volume = record { volume_id = n; volume_context = options; capacity_bytes = new } in
      let last = λ (_ : Unit {0}) (t : W.State). pure v t in
      let middle = λ (i : ℤ) (t : W.State). bind (check_capacity W c n i new t) last in
      let first = λ (_ : Unit {0}) (t : W.State). bind (existing_capacity W c n t) middle in
      ensure_bucket_post W bucket storage (λ r. P (bind r first)) c n options s
        (λ a t others there.
          existing_capacity_post W bucket storage (λ r. P (bind r middle)) c n t
            (λ i b u same found stated.
              check_capacity_post W bucket storage (λ r. P (bind r last)) c n i new u b h found
                stated
                (λ w others' holds.
                  (λ m ne. others' m ne ∙ same m ∙ others m ne, (refl, refl, refl, holds)))
                (λ e w others'. (λ m ne. others' m ne ∙ same m ∙ others m ne, tt)))
            (λ e u same. (λ m ne. same m ∙ others m ne, tt)))
        (λ e t others. (others, tt))

  CreatePost-respects :
      (s : W.State) (options : Dict String) (new : ℤ) (r : Outcome Volume) (t u : W.State)
      → BucketsSame bucket t u
      → CreatePost s options new (r, t)
      → CreatePost s options new (r, u)
  CreatePost-respects s options new (ok v) t u same (others, (id, context, size, holds)) = (
    λ m ne. same m ∙ others m ne,
    (id, context, size, subst (λ a. Holds a new) (sym (same v.volume_id)) holds),
  )
  CreatePost-respects s options new (err e) t u same (others, _) =
      (λ m ne. same m ∙ others m ne, tt)

  CreatePost-from :
      (s t : W.State) (options : Dict String) (new : ℤ) (r : Outcome Volume × W.State)
      → BucketsSame bucket s t
      → CreatePost t options new r
      → CreatePost s options new r
  CreatePost-from s t options new r same (others, created) = (λ m ne. others m ne ∙ same m, created)

  module _ (apart : IsApart W String (Option Attrs) bucket) where
    open apart use {config_keeps, core_keeps, annotations_keeps}

    pub pvc_annotations-Keeps :
        (name namespace : Option String) → Keeps bucket (pvc_annotations W name namespace)
    unfolding pvc_annotations get_pvc_annotations
    pvc_annotations-Keeps (some name) (some namespace) s k = relabel_keeps bucket k _ _ _ (
        bind_keeps bucket k _ _ _ (config_keeps s k) λ config t h.
          bind_keeps bucket k _ _ _ (core_keeps config t k ∙ h)
            λ clientset u h'. annotations_keeps clientset namespace name u k ∙ h')
    pvc_annotations-Keeps none namespace s k = refl
    pvc_annotations-Keeps (some name) none s k = refl

    abbrev pub named_annotations : CreateVolumeRequest → M W.State (Dict String)
    named_annotations req =
        let parameters = map_or_empty req.parameters in
        pvc_annotations W (lookup "csi.storage.k8s.io/pvc/name" parameters)
          (lookup "csi.storage.k8s.io/pvc/namespace" parameters)

    -- The annotations of the claim that the parameters name, and none if they cannot be read.
    abbrev pub claim_annotations : CreateVolumeRequest → W.State → Dict String
    claim_annotations req s = read_or_empty (named_annotations req s).0

    -- For storage that `IsStorage` describes and other calls that leave the buckets alone
    -- (`IsApart`): a volume that `CreateVolume` returns has the bucket of the options as its name
    -- and all options as its context. The bucket is there, and its labels state at least the
    -- capacity that was asked for, if that is an `int64`. Whatever `CreateVolume` returns, no other
    -- bucket has changed.
    pub create_volume-CreatePost :
        (req : CreateVolumeRequest) (s : W.State)
        → IsInt64 (required_or_zero req.required_bytes)
        → CreatePost s
            (volume_options W req (claim_annotations req s))
            (required_or_zero req.required_bytes)
            (create_volume W req s)
    unfolding create_volume
    create_volume-CreatePost req s h =
        let new = required_or_zero req.required_bytes in
        let annotations = claim_annotations req s in
        let P =
          λ (r : Outcome Volume × W.State). CreatePost s (volume_options W req annotations) new r in
        reject_post P _ _ s _ (λ _. (λ m _. refl, tt))
          λ _.
            reject_post P _ _ s _ (λ _. (λ m _. refl, tt))
              λ _.
                reject_post P _ _ s _ (λ _. (λ m _. refl, tt))
                  λ _.
                    bind_post P _ _
                      (λ a read.
                        let kept = λ (m : String).
                          pvc_annotations-Keeps
                            (lookup "csi.storage.k8s.io/pvc/name" (map_or_empty req.parameters))
                            (lookup "csi.storage.k8s.io/pvc/namespace"
                              (map_or_empty req.parameters))
                            s m in
                        subst
                          (λ b. CreatePost s (volume_options W req b) new (
                            with_client W req.secrets (create_in W (volume_options W req a) new)
                              (named_annotations req s).1))
                          (sym (ap read_or_empty read))
                          (with_client_post W apart (CreatePost s (volume_options W req a) new) _
                            req.secrets _
                            (λ c u same.
                              CreatePost-from s u _ new _ (λ m. same m ∙ kept m)
                                (create_in_post _ new c u h))
                            (λ e u same. (λ m _. same m ∙ kept m, tt))
                            (λ r t u same. CreatePost-respects s _ new r t u same)))
                      (λ e _. (λ m _. pvc_annotations-Keeps _ _ s m, tt))
