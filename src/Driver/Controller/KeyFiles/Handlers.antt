-- ===== src/Driver/Controller/KeyFiles/Handlers.antt =====
-- Each handler of the controller leaves no key behind.
use csi_gcs.Base.{
  String, ◌∙◌, ◌≡◌, refl, Bool, true, false, Option, none, some, Dict, lookup, List, [], ◌∷◌, ℤ,
  pos, ltb_ℤ, ◌=ℤ◌, if◌then◌else◌,
}
use csi_gcs.Go.{Error, Outcome, ok, err, M, bind, reject}
use csi_gcs.Go.Laws.{bind_keeps, relabel_keeps, reject_post, bind_post}
use csi_gcs.World.{World}
use csi_gcs.World.Laws.{Keeps}
use csi_gcs.World.KeyFiles.{IsKeyStore, IsSpoiled, IsRemote}
use csi_gcs.Util.Capacity.{set_bucket_capacity}
use csi_gcs.Util.Cluster.{get_pvc_annotations}
use csi_gcs.Driver.Types.{key_storage_path}
use csi_gcs.Flags.Names.{flag_project_id}
use csi_gcs.World.{Attrs}
use csi_gcs.Driver.Controller.{
  CreateVolumeRequest, Volume, ExpandVolumeRequest, ValidateRequest, pvc_annotations, create_bucket,
  unless_exists, ensure_bucket, existing_capacity, write_capacity, check_capacity, create_in,
  create_volume, delete_found, delete_in, delete_volume, validate_in, validate_volume_capabilities,
  expand_in, controller_expand_volume, ValidateResponse,
}
use csi_gcs.Driver.Volumes.Requests.{
  Request, create_volume_request, delete_volume_request, expand_volume_request, validate_request,
  handle, run,
}
use csi_gcs.Driver.Controller.KeyFiles.{Sound, Sound-same, Sound_trans, with_client-Sound}
use csi_gcs.Driver.Client.{with_client}

choice-Keeps :
    {S A : Type 0} (view : S → String → Bool) (b : Bool) (x y : M S A)
    → Keeps view x
    → Keeps view y
    → Keeps view (if b then x else y)
choice-Keeps view true x y kx ky = kx
choice-Keeps view false x y kx ky = ky

reject-Keeps :
    {S : Type 0} (view : S → String → Bool) (test : Bool) (e : Error) → Keeps view (reject test e)
unfolding reject
reject-Keeps view true e s m = refl
reject-Keeps view false e s m = refl

module _ (W : World) (view : W.State → String → Bool) (remote : IsRemote W String Bool view) where
  open remote use {
    attrs_keeps, create_keeps, delete_keeps, set_label_keeps, config_keeps, core_keeps,
    annotations_keeps,
  }

  delete_found-Keeps :
      (c : W.Client) (n : String) (r : Outcome Attrs) → Keeps view (delete_found W c n r)
  unfolding delete_found
  delete_found-Keeps c n (ok a) s m = relabel_keeps view m _ _ _ (delete_keeps c n s m)
  delete_found-Keeps c n (err e) s m = refl

  delete_in-Keeps : (n : String) (c : W.Client) → Keeps view (delete_in W n c)
  unfolding delete_in bind
  delete_in-Keeps n c s m =
      delete_found-Keeps c n (W.bucket_attrs c n s).0 _ m ∙ attrs_keeps c n s m

  validate_in-Keeps : (req : ValidateRequest) (c : W.Client) → Keeps view (validate_in W req c)
  unfolding validate_in
  validate_in-Keeps req c s m =
      bind_keeps view m _ _ _ (relabel_keeps view m _ _ _ (attrs_keeps c req.volume_id s m))
        λ a t h. h

  existing_capacity-Keeps : (c : W.Client) (n : String) → Keeps view (existing_capacity W c n)
  unfolding existing_capacity
  existing_capacity-Keeps c n s m =
      bind_keeps view m _ _ _ (relabel_keeps view m _ _ _ (attrs_keeps c n s m))
        λ a t h. relabel_keeps view m _ _ _ h

  write_capacity-Keeps : (c : W.Client) (n : String) (i : ℤ) → Keeps view (write_capacity W c n i)
  unfolding write_capacity set_bucket_capacity
  write_capacity-Keeps c n i s m =
      bind_keeps view m _ _ _ (relabel_keeps view m _ _ _ (set_label_keeps c n _ _ s m)) λ a t h. h

  expand_in-Keeps : (n : String) (new : ℤ) (c : W.Client) → Keeps view (expand_in W n new c)
  unfolding expand_in
  expand_in-Keeps n new c s m =
      bind_keeps view m _ _ _ (relabel_keeps view m _ _ _ (attrs_keeps c n s m)) λ a t h.
        bind_keeps view m _ _ _ (existing_capacity-Keeps c n t m ∙ h) λ i u h'.
          bind_keeps view m _ _ _
            (choice-Keeps view (ltb_ℤ i new) _ _ (write_capacity-Keeps c n new) (λ _ _. refl) u m
              ∙ h')
            λ _ v h''. h''

  create_bucket-Keeps :
      (c : W.Client) (n : String) (options : Dict String) (project : Option String)
      → Keeps view (create_bucket W c n options project)
  unfolding create_bucket
  create_bucket-Keeps c n options none s m = refl
  create_bucket-Keeps c n options (some p) s m =
      relabel_keeps view m _ _ _ (create_keeps c n p _ s m)

  unless_exists-Keeps :
      (r : Outcome Attrs) (create : M W.State (Unit {0}))
      → Keeps view create
      → Keeps view (unless_exists W r create)
  unfolding unless_exists
  unless_exists-Keeps (ok a) create kept s m = refl
  unless_exists-Keeps (err e) create kept s m = kept s m

  ensure_bucket-Keeps :
      (c : W.Client) (n : String) (options : Dict String) → Keeps view (ensure_bucket W c n options)
  unfolding ensure_bucket bind
  ensure_bucket-Keeps c n options s m =
      unless_exists-Keeps (W.bucket_attrs c n s).0 _
        (create_bucket-Keeps c n options (lookup flag_project_id options)) _ m
      ∙ attrs_keeps c n s m

  check_capacity-Keeps :
      (c : W.Client) (n : String) (i new : ℤ) → Keeps view (check_capacity W c n i new)
  unfolding check_capacity
  check_capacity-Keeps c n i new s m =
      choice-Keeps view (i =ℤ pos 0) _ _ (write_capacity-Keeps c n new)
        (reject-Keeps view (ltb_ℤ i new) _) s m

  create_in-Keeps :
      (options : Dict String) (new : ℤ) (c : W.Client) → Keeps view (create_in W options new c)
  unfolding create_in
  create_in-Keeps options new c s m =
      bind_keeps view m _ _ _ (ensure_bucket-Keeps c _ options s m) λ _ t h.
        bind_keeps view m _ _ _ (existing_capacity-Keeps c _ t m ∙ h)
          λ i u h'. bind_keeps view m _ _ _ (check_capacity-Keeps c _ i new u m ∙ h') λ _ v h''. h''

  pvc_annotations-still :
      (name namespace : Option String) → Keeps view (pvc_annotations W name namespace)
  unfolding pvc_annotations get_pvc_annotations
  pvc_annotations-still (some name) (some namespace) s m = relabel_keeps view m _ _ _ (
      bind_keeps view m _ _ _ (config_keeps s m) λ config t h.
        bind_keeps view m _ _ _ (core_keeps config t m ∙ h)
          λ clientset u h'. annotations_keeps clientset namespace name u m ∙ h')
  pvc_annotations-still none namespace s m = refl
  pvc_annotations-still (some name) none s m = refl

module _ (W : World) (exists spoiled : W.State → String → Bool)
    (store : IsKeyStore W key_storage_path exists) (faults : IsSpoiled W spoiled)
    (remote : IsRemote W String Bool exists) (harmless : IsRemote W String Bool spoiled) where
  abbrev Safe : {A : Type 0} → M W.State A → Type 0
  Safe m = (s : W.State) (file : String) → Sound W exists spoiled store faults s (m s).1 file

  behind_client :
      {A : Type 0} (rest : W.Client → M W.State A)
      → ((view : W.State → String → Bool)
          → IsRemote W String Bool view
          → (c : W.Client) → Keeps view (rest c))
      → (secrets : Dict String) → Safe (with_client W secrets rest)
  behind_client rest kept secrets =
      with_client-Sound W exists spoiled store faults remote harmless rest (kept exists remote)
        (kept spoiled harmless) secrets

  still : (s : W.State) (m : String) → Sound W exists spoiled store faults s s m
  still s m = Sound-same W exists spoiled store faults s s m refl refl

  create_volume-Safe : (req : CreateVolumeRequest) → Safe (create_volume W req)
  unfolding create_volume
  create_volume-Safe req s m =
      let P = λ (r : Outcome Volume × W.State). Sound W exists spoiled store faults s r.1 m in
      let read = λ (name namespace : Option String).
        Sound-same W exists spoiled store faults s (pvc_annotations W name namespace s).1 m
          (pvc_annotations-still W exists remote name namespace s m)
          (pvc_annotations-still W spoiled harmless name namespace s m) in
      reject_post P _ _ s _ (λ _. still s m)
        λ _.
          reject_post P _ _ s _ (λ _. still s m)
            λ _.
              reject_post P _ _ s _ (λ _. still s m)
                λ _.
                  bind_post P _ _
                    (λ annotations _. Sound_trans W exists spoiled store faults s _ _ m (read _ _) (
                      behind_client _ (λ view far. create_in-Keeps W view far _ _) req.secrets _ m))
                    (λ e _. read _ _)

  delete_volume-Safe :
      (volume_id : String) (secrets : Dict String) → Safe (delete_volume W volume_id secrets)
  unfolding delete_volume
  delete_volume-Safe volume_id secrets s m =
      reject_post (λ r. Sound W exists spoiled store faults s r.1 m) _ _ s _ (λ _. still s m)
        λ _. behind_client _ (λ view far. delete_in-Keeps W view far volume_id) secrets s m

  validate_volume_capabilities-Safe :
      (req : ValidateRequest) → Safe (validate_volume_capabilities W req)
  unfolding validate_volume_capabilities
  validate_volume_capabilities-Safe req s m =
      let P =
        λ (r : Outcome ValidateResponse × W.State). Sound W exists spoiled store faults s r.1 m in
      reject_post P _ _ s _ (λ _. still s m)
        λ _.
          reject_post P _ _ s _ (λ _. still s m)
            λ _. behind_client _ (λ view far. validate_in-Keeps W view far req) req.secrets s m

  controller_expand_volume-Safe :
      (req : ExpandVolumeRequest) → Safe (controller_expand_volume W req)
  unfolding controller_expand_volume
  controller_expand_volume-Safe req s m =
      reject_post (λ r. Sound W exists spoiled store faults s r.1 m) _ _ s _ (λ _. still s m)
        λ _. behind_client _ (λ view far. expand_in-Keeps W view far _ _) req.secrets s m

  -- Each handler of the controller, however it ends.
  handle-Sound :
      (r : Request) (s : W.State) (m : String)
      → Sound W exists spoiled store faults s (handle W r s) m
  unfolding handle
  handle-Sound (create_volume_request req) s m = create_volume-Safe req s m
  handle-Sound (delete_volume_request volume_id secrets) s m =
      delete_volume-Safe volume_id secrets s m
  handle-Sound (expand_volume_request req) s m = controller_expand_volume-Safe req s m
  handle-Sound (validate_request req) s m = validate_volume_capabilities-Safe req s m

  run-Sound :
      (rs : List Request) (s : W.State) (m : String)
      → Sound W exists spoiled store faults s (run W rs s) m
  unfolding run
  run-Sound [] s m = still s m
  run-Sound (r ∷ rs) s m =
      Sound_trans W exists spoiled store faults s (handle W r s) _ m (handle-Sound r s m)
        (run-Sound rs (handle W r s) m)

  -- The controller leaves no file of a key behind but one that could not be written, closed or
  -- removed: after any requests, however each of them ended, a file is there exactly if it was there
  -- before, unless a write, a close or a removal of this file has failed by then. The hypotheses are
  -- `IsKeyStore` for the files, `IsSpoiled` for what is said of the failures, and that the calls over
  -- the network touch neither (`IsRemote`).
  pub run-SameFiles :
      (rs : List Request) (s : W.State) (m : String)
      → spoiled (run W rs s) m ≡ false
      → exists (run W rs s) m ≡ exists s m
  run-SameFiles rs s m clean = (run-Sound rs s m).1 clean
