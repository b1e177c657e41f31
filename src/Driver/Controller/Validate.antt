-- ===== src/Driver/Controller/Validate.antt =====
-- What `ValidateVolumeCapabilities` answers.
use csi_gcs.Base.{
  String, ◌∙◌, ◌≡◌, refl, sym, true, Bool-cases, inl, inr, Option, some, List, [], ◌∷◌,
}
use csi_gcs.Go.{Outcome, ok, err}
use csi_gcs.Go.Laws.{call_post, reject_post}
use csi_gcs.World.{World, Attrs}
use csi_gcs.World.Laws.{IsStorage, IsApart}
use csi_gcs.Driver.Types.{Capability, unset, block, mount, only_mounts}
use csi_gcs.Driver.Client.Laws.{with_client_post}
use csi_gcs.Driver.Controller.{
  ValidateRequest, ValidateResponse, message, confirmed, validate_in, validate_volume_capabilities,
}
use csi_gcs.Driver.Controller.Capacity.{BucketsSame}

-- Each capability is a mount.
abbrev pub AllMounts : List Capability → Type 0
AllMounts [] = Unit
AllMounts (c ∷ cs) = ((flags : List String) × (c ≡ mount flags)) × AllMounts cs

AllMounts-of_only_mounts : (cs : List Capability) → only_mounts cs ≡ true → AllMounts cs
unfolding only_mounts
AllMounts-of_only_mounts [] h = tt
AllMounts-of_only_mounts (mount flags ∷ cs) h = ((flags, refl), AllMounts-of_only_mounts cs h)
AllMounts-of_only_mounts (unset ∷ cs) h = cc
AllMounts-of_only_mounts (block ∷ cs) h = cc

only_mounts_of_AllMounts : (cs : List Capability) → AllMounts cs → only_mounts cs ≡ true
unfolding only_mounts
only_mounts_of_AllMounts [] h = refl
only_mounts_of_AllMounts (c ∷ cs) ((flags, e), h) = rw e (only_mounts_of_AllMounts cs h)

-- An answer says that the volume is there; it confirms the request if all capabilities are mounts.
abbrev pub Verdict : Option Attrs → ValidateRequest → Outcome ValidateResponse → Type 0
Verdict x req (ok (confirmed context capabilities parameters)) =
    ((a : Attrs) × (x ≡ some a))
    × (context ≡ req.volume_context)
    × (capabilities ≡ req.volume_capabilities)
    × (parameters ≡ req.parameters)
    × AllMounts req.volume_capabilities
Verdict x req (ok (message text)) =
    ((a : Attrs) × (x ≡ some a)) × ¬ AllMounts req.volume_capabilities
Verdict x req (err e) = Unit

module _ (W : World) (bucket : W.State → String → Option Attrs) (storage : IsStorage W bucket)
    (apart : IsApart W String (Option Attrs) bucket) where
  open storage use {attrs_ok, attrs_keeps}

  abbrev pub ValidatePost : W.State → ValidateRequest → Outcome ValidateResponse × W.State → Type 0
  ValidatePost s req r = BucketsSame bucket s r.1 × Verdict (bucket s req.volume_id) req r.0

  validate_in_post :
      (req : ValidateRequest) (s t : W.State) (c : W.Client)
      → BucketsSame bucket s t
      → ValidatePost s req (validate_in W req c t)
  unfolding validate_in
  validate_in_post req s t c same =
      call_post (ValidatePost s req) _ _ _
        (λ a read.
          let there : (a : Attrs) × (bucket s req.volume_id ≡ some a) =
            (a, sym (same req.volume_id) ∙ attrs_ok c req.volume_id t a read) in
          let kept = λ (m : String). attrs_keeps c req.volume_id t m ∙ same m in
          elim (Bool-cases (only_mounts req.volume_capabilities)) [
            | inl mounts ↦ rw mounts (
              kept,
              (there, refl, refl, refl, AllMounts-of_only_mounts req.volume_capabilities mounts),
            )
            | inr other ↦ rw other (
              kept,
              (there, (λ all. let h = only_mounts_of_AllMounts req.volume_capabilities all in cc)),
            )
          ])
        (λ e _. (λ m. attrs_keeps c req.volume_id t m ∙ same m, tt))

  -- For storage that `IsStorage` describes and other calls that leave the buckets alone (`IsApart`):
  -- an answer of `ValidateVolumeCapabilities` that confirms the request repeats it, and then the
  -- volume exists and each capability is a mount; an answer that does not confirm it says that the
  -- volume exists and some capability is no mount. For a volume that does not exist there is an
  -- error. No bucket changes, whatever the answer is.
  pub validate_volume_capabilities-ValidatePost :
      (req : ValidateRequest) (s : W.State)
      → ValidatePost s req (validate_volume_capabilities W req s)
  unfolding validate_volume_capabilities
  validate_volume_capabilities-ValidatePost req s =
      let P = ValidatePost s req in
      reject_post P _ _ s _ (λ _. (λ m. refl, tt))
        λ _.
          reject_post P _ _ s _ (λ _. (λ m. refl, tt))
            λ _.
              with_client_post W apart P _ req.secrets s
                (λ c t same. validate_in_post req s t c same) (λ e t same. (same, tt))
                (λ r t u same h. (λ m. same m ∙ h.0 m, h.1))
