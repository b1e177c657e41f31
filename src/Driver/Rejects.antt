-- ===== src/Driver/Rejects.antt =====
-- Requests that the handlers reject before they touch anything.
use csi_gcs.Base.{String, ◌==◌, ◌≡◌, refl, true, not, ◌||◌, Bool-cases, inl, inr}
use csi_gcs.Go.{invalid_argument, status, err, M, bind, reject}
use csi_gcs.World.{World}
use csi_gcs.Driver.Types.{GcsDriver, is_empty, only_mounts, is_mount}
use csi_gcs.Driver.Controller.{CreateVolumeRequest, create_volume}
use csi_gcs.Driver.Node.{PublishRequest, is_nil, the_capability, node_publish_volume}

-- The handler answers with the code InvalidArgument, and the outside world is as it was.
abbrev pub Rejected : {S A : Type 0} → M S A → S → Type 0
Rejected m s = (text : String) × (m s ≡ (err (status invalid_argument text), s))

module _ (W : World) where
  -- `CreateVolume` rejects a request without a name, without capabilities, or with a capability that
  -- is no mount, with InvalidArgument and without a call of the outside world.
  pub create_volume-Rejected :
      (req : CreateVolumeRequest) (s : W.State)
      → ((req.name == "")
          || (is_empty req.volume_capabilities || not (only_mounts req.volume_capabilities)))
        ≡ true
      → Rejected (create_volume W req) s
  unfolding create_volume bind reject
  create_volume-Rejected req s h = elim (Bool-cases (req.name == "")) [
    | inl nameless ↦ rw nameless ("missing name", refl)
    | inr named ↦ rw named (elim (Bool-cases (is_empty req.volume_capabilities)) [
      | inl none_given ↦ rw none_given ("missing volume capabilities", refl)
      | inr given ↦
          let bad : not (only_mounts req.volume_capabilities) ≡ true = rw (named, given) at h in
          rw (given, bad) ("Only volumeMode Filesystem is supported", refl)
    ])
  ]

  -- `NodePublishVolume` rejects a request without a volume id, without a target path, without a
  -- capability, or with one that is no mount, with InvalidArgument and without a call of the outside
  -- world.
  pub node_publish_volume-Rejected :
      (driver : GcsDriver) (req : PublishRequest) (s : W.State)
      → ((req.volume_id == "")
          || ((req.target_path == "")
              || (is_nil req.capability || not (is_mount (the_capability req.capability)))))
        ≡ true
      → Rejected (node_publish_volume W driver req) s
  unfolding node_publish_volume bind reject
  node_publish_volume-Rejected driver req s h = elim (Bool-cases (req.volume_id == "")) [
    | inl nameless ↦ rw nameless ("Volume ID missing in request", refl)
    | inr named ↦ rw named (elim (Bool-cases (req.target_path == "")) [
      | inl nowhere ↦ rw nowhere ("Target path missing in request", refl)
      | inr targeted ↦ rw targeted (elim (Bool-cases (is_nil req.capability)) [
        | inl none_given ↦
            rw none_given ("NodePublishVolume Volume Capability must be provided", refl)
        | inr given ↦
            let bad : not (is_mount (the_capability req.capability)) ≡ true =
              rw (named, targeted, given) at h in
            rw (given, bad) ("Only volumeMode Filesystem is supported", refl)
      ])
    ])
  ]
