-- ===== src/Driver/Volumes/Requests.antt =====
-- The requests of the controller service, and the step of the volumes that each of them is.
use csi_gcs.Base.{String, ◌∙◌, refl, sym, ap, subst, Option, Dict, lookup, IsInt64, List, [], ◌∷◌}
use csi_gcs.Go.{Outcome, M}
use csi_gcs.Go.Laws.{bind_post, call_post, reject_post}
use csi_gcs.Flags.Names.{flag_bucket}
use csi_gcs.World.{World, Attrs}
use csi_gcs.World.Laws.{IsStorage, IsApart}
use csi_gcs.World.Atomic.{IsAtomic}
use csi_gcs.Driver.Types.{text_or_empty, required_or_zero}
use csi_gcs.Driver.Client.{with_client}
use csi_gcs.Driver.Client.Laws.{with_client_post}
use csi_gcs.Driver.Controller.{
  CreateVolumeRequest, Volume, ExpandVolumeRequest, ValidateRequest, ExpandVolumeResponse,
  ValidateResponse, volume_options, create_in, create_volume, delete_volume,
  controller_expand_volume, validate_in, validate_volume_capabilities,
}
use csi_gcs.Driver.Controller.Capacity.{BucketsSame}
use csi_gcs.Driver.Controller.Create.{
  claim_annotations, named_annotations, pvc_annotations-Keeps, read_or_empty,
}
use csi_gcs.Driver.Volumes.{Command, create, expand, delete, inspect}
use csi_gcs.Driver.Volumes.Buckets.{Moves, stay, between}
use csi_gcs.Driver.Volumes.Steps.{create_in-Moves, expand_in-Moves, delete_in-Moves}

pub data Request : Type 0 where
  create_volume_request : CreateVolumeRequest → Request
  delete_volume_request : String → Dict String → Request
  expand_volume_request : ExpandVolumeRequest → Request
  validate_request : ValidateRequest → Request

abbrev pub command : Request → Command
command (create_volume_request req) = create (required_or_zero req.required_bytes)
command (delete_volume_request volume_id secrets) = delete
command (expand_volume_request req) = expand (required_or_zero req.required_bytes)
command (validate_request req) = inspect

-- The capacity that is asked for is an `int64`.
abbrev pub IsRequest : Request → Type 0
IsRequest (create_volume_request req) = IsInt64 (required_or_zero req.required_bytes)
IsRequest (delete_volume_request volume_id secrets) = Unit
IsRequest (expand_volume_request req) = IsInt64 (required_or_zero req.required_bytes)
IsRequest (validate_request req) = Unit

-- The state of the world behind a request; its answer is left out.
unfoldable pub handle : (W : World) → Request → W.State → W.State
handle W (create_volume_request req) s = (create_volume W req s).1
handle W (delete_volume_request volume_id secrets) s = (delete_volume W volume_id secrets s).1
handle W (expand_volume_request req) s = (controller_expand_volume W req s).1
handle W (validate_request req) s = (validate_volume_capabilities W req s).1

-- Requests one after the other.
unfoldable pub run : (W : World) → List Request → W.State → W.State
run W [] s = s
run W (r ∷ rs) s = run W rs (handle W r s)

module _ (W : World) (bucket : W.State → String → Option Attrs) (storage : IsStorage W bucket)
    (atomic : IsAtomic W bucket) (apart : IsApart W String (Option Attrs) bucket) where
  open storage use {attrs_keeps}

  -- The volume that a request is about.
  abbrev pub target : Request → W.State → String
  target (create_volume_request req) s =
      text_or_empty
        (lookup flag_bucket (volume_options W req (claim_annotations W bucket storage apart req s)))
  target (delete_volume_request volume_id secrets) s = volume_id
  target (expand_volume_request req) s = req.volume_id
  target (validate_request req) s = req.volume_id

  -- A step behind the storage client is a step of the handler.
  behind_client-Moves :
      {A : Type 0} (c : Command) (n : String) (secrets : Dict String)
      (rest : W.Client → M W.State A) (s t : W.State)
      → BucketsSame bucket s t
      → ((client : W.Client) (u : W.State) → Moves W bucket c n u (rest client u).1)
      → Moves W bucket c n s (with_client W secrets rest t).1
  behind_client-Moves {A} c n secrets rest s t before step =
      with_client_post W apart (λ (r : Outcome A × W.State). Moves W bucket c n s r.1) rest secrets
        t
        (λ client u same.
          between W bucket c n s u _ _ (λ m. same m ∙ before m) (λ m. refl) (step client u))
        (λ e u same. stay W bucket c n s u (λ m. same m ∙ before m))
        (λ r u v same moved. between W bucket c n s s u v (λ m. refl) same moved)

  create_volume-Moves :
      (req : CreateVolumeRequest) (s : W.State)
      → IsInt64 (required_or_zero req.required_bytes)
      → Moves W bucket
          (create (required_or_zero req.required_bytes))
          (target (create_volume_request req) s)
          s
          (create_volume W req s).1
  unfolding create_volume
  create_volume-Moves req s h =
      let new = required_or_zero req.required_bytes in
      let name = λ (annotations : Dict String).
        text_or_empty (lookup flag_bucket (volume_options W req annotations)) in
      let n = name (claim_annotations W bucket storage apart req s) in
      let P = λ (r : Outcome Volume × W.State). Moves W bucket (create new) n s r.1 in
      let still = stay W bucket (create new) n s s (λ m. refl) in
      let t = (named_annotations W bucket storage apart req s).1 in
      let kept : BucketsSame bucket s t =
        λ m. pvc_annotations-Keeps W bucket storage apart _ _ s m in
      reject_post P _ _ s _ (λ _. still)
        λ _.
          reject_post P _ _ s _ (λ _. still)
            λ _.
              reject_post P _ _ s _ (λ _. still)
                λ _.
                  bind_post P _ _
                    (λ a read.
                      subst
                        (λ b.
                          Moves W bucket (create new) (name b) s
                            (with_client W req.secrets (create_in W (volume_options W req a) new)
                              t).1)
                        (sym (ap read_or_empty read))
                        (behind_client-Moves (create new) (name a) req.secrets _ s t kept
                          (λ c u. create_in-Moves W bucket storage atomic _ new c u h)))
                    (λ e _. stay W bucket (create new) n s t kept)

  delete_volume-Moves :
      (volume_id : String) (secrets : Dict String) (s : W.State)
      → Moves W bucket delete volume_id s (delete_volume W volume_id secrets s).1
  unfolding delete_volume
  delete_volume-Moves volume_id secrets s =
      reject_post (λ (r : Outcome (Unit {0}) × W.State). Moves W bucket delete volume_id s r.1) _ _
        s _ (λ _. stay W bucket delete volume_id s s (λ m. refl))
        (λ _.
          behind_client-Moves delete volume_id secrets _ s s (λ m. refl)
            (delete_in-Moves W bucket storage atomic volume_id))

  expand_volume-Moves :
      (req : ExpandVolumeRequest) (s : W.State)
      → IsInt64 (required_or_zero req.required_bytes)
      → Moves W bucket
          (expand (required_or_zero req.required_bytes))
          req.volume_id
          s
          (controller_expand_volume W req s).1
  unfolding controller_expand_volume
  expand_volume-Moves req s h =
      let c = expand (required_or_zero req.required_bytes) in
      reject_post
        (λ (r : Outcome ExpandVolumeResponse × W.State). Moves W bucket c req.volume_id s r.1) _ _ s
        _ (λ _. stay W bucket c req.volume_id s s (λ m. refl))
        (λ _.
          behind_client-Moves c req.volume_id req.secrets _ s s (λ m. refl)
            (λ client u. expand_in-Moves W bucket storage atomic req.volume_id _ client u h))

  validate_volume-Moves :
      (req : ValidateRequest) (s : W.State)
      → Moves W bucket inspect req.volume_id s (validate_volume_capabilities W req s).1
  unfolding validate_volume_capabilities validate_in
  validate_volume-Moves req s =
      let P =
        λ (r : Outcome ValidateResponse × W.State). Moves W bucket inspect req.volume_id s r.1 in
      let still = stay W bucket inspect req.volume_id s s (λ m. refl) in
      reject_post P _ _ s _ (λ _. still)
        λ _.
          reject_post P _ _ s _ (λ _. still)
            λ _.
              behind_client-Moves inspect req.volume_id req.secrets _ s s (λ m. refl)
                (λ c u.
                  let read =
                    stay W bucket inspect req.volume_id u _ (attrs_keeps c req.volume_id u) in
                  call_post
                    (λ (r : Outcome ValidateResponse × W.State).
                      Moves W bucket inspect req.volume_id u r.1)
                    _ (W.bucket_attrs c req.volume_id u) _ (λ _ _. read) (λ _ _. read))

  -- Every request is one step of the volumes, whatever the calls of Cloud Storage answer and whether
  -- the handler succeeds or fails: it changes its own volume alone, and that in one of the few ways
  -- of its command. The storage is as `IsStorage` and `IsAtomic` describe it, the other calls leave
  -- the buckets alone (`IsApart`), and a capacity that is asked for is an `int64`.
  pub handle-Moves :
      (r : Request) (s : W.State)
      → IsRequest r
      → Moves W bucket (command r) (target r s) s (handle W r s)
  unfolding handle
  handle-Moves (create_volume_request req) s h = create_volume-Moves req s h
  handle-Moves (delete_volume_request volume_id secrets) s h =
      delete_volume-Moves volume_id secrets s
  handle-Moves (expand_volume_request req) s h = expand_volume-Moves req s h
  handle-Moves (validate_request req) s h = validate_volume-Moves req s
