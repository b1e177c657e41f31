-- ===== src/Driver/Node/Mounts.antt =====
-- What `NodePublishVolume` and `NodeUnpublishVolume` promise of the mount points.
use csi_gcs.Base.{
  String, ◌∙◌, ◌≡◌, ◌≢◌, refl, Bool, true, false, not, Dict, Bool-cases, inl, inr, ap, lookup,
  contains,
}
use csi_gcs.Go.{Error, is_not_exist, Outcome, ok, err, M, bind}
use csi_gcs.Go.Laws.{Outcome-cases, bind_post, call_post, reject_post}
use csi_gcs.World.{World}
use csi_gcs.World.Laws.{IsApart}
use csi_gcs.World.Mounts.{IsMounter, IsUnmounted}
use csi_gcs.Util.Capacity.{error_text}
use csi_gcs.Flags.Names.{flag_bucket}
use csi_gcs.Driver.Types.{GcsDriver, text_or_empty}
use csi_gcs.Driver.Node.{
  PublishRequest, check_target, mount_target, publish_in, node_publish_volume, unmount_target,
  unpublish_answer, node_unpublish_volume, target_answer, record_mount, forget_mount,
}
use csi_gcs.Driver.Node.Keeps.{
  client_and_key-Keeps, bucket_exists-Keeps, record_mount-Keeps, forget_mount-Keeps,
}

module _ (W : World) (mounted : W.State → String → Bool) (driver : GcsDriver) where
  -- Behind a success the target is a mount point or is none, and on every way out all other paths
  -- are as they were.
  abbrev pub Answered : Bool → Outcome (Unit {0}) → Bool → Type 0
  Answered wanted (ok _) now = now ≡ wanted
  Answered wanted (err e) now = Unit

  abbrev pub MountPost : Bool → W.State → String → Outcome (Unit {0}) × W.State → Type 0
  MountPost wanted s target r =
      ((m : String) → target ≢ m → mounted r.1 m ≡ mounted s m)
      × Answered wanted r.0 (mounted r.1 target)

  answered : {wanted now : Bool} (r : Outcome (Unit {0})) → now ≡ wanted → Answered wanted r now
  answered (ok _) h = h
  answered (err e) h = tt

  module _ (mounter : IsMounter W mounted) (apart : IsApart W String Bool mounted)
      (unmounted : IsUnmounted W String Bool mounted) where
    open mounter use {
      answer_keeps, answer_ok, answer_missing, mount_ok, mount_other, cleanup_ok, cleanup_other,
    }
    open unmounted use {mkdir_all_keeps}

    mount_target_post :
        (req : PublishRequest) (options : Dict String) (key_file : String) (b : Bool)
        (s t : W.State)
        → ((m : String) → mounted t m ≡ mounted s m)
        → (b ≡ false → mounted t req.target_path ≡ true)
        → MountPost true s req.target_path (mount_target W driver req options key_file b t)
    unfolding mount_target
    mount_target_post req options key_file false s t same there = (λ m _. same m, there refl)
    mount_target_post req options key_file true s t same there =
        call_post (MountPost true s req.target_path) _ _ _
          (λ _ done. (
            λ m ne.
                record_mount-Keeps W apart unmounted driver req options _ m
                ∙ mount_other _ _ _ _ t m ne
                ∙ same m,
            answered (record_mount W driver req options _).0 (
                record_mount-Keeps W apart unmounted driver req options _ req.target_path
                ∙ mount_ok _ _ _ _ t done),
          ))
          (λ e _. (λ m ne. mount_other _ _ _ _ t m ne ∙ same m, tt))

    pub check_target_post :
        (P : Outcome (Unit {0}) × W.State → Type 0) (p : String) (s : W.State)
        (f : Bool → M W.State (Unit {0}))
        → ((b : Bool) (t : W.State)
            → ((m : String) → mounted t m ≡ mounted s m)
            → (b ≡ false → mounted t p ≡ true)
            → P (f b t))
        → ((e : Error) (t : W.State) → ((m : String) → mounted t m ≡ mounted s m) → P (err e, t))
        → P (bind (check_target W p s) f)
    unfolding check_target target_answer bind
    check_target_post P p s f good bad =
        let kept = λ (m : String). answer_keeps p s m in
        elim (Outcome-cases (W.is_likely_not_mount_point p s).0) [
          | inl (b, e) ↦ rw e (good b _ kept (λ off. kept p ∙ answer_ok p s b e ∙ ap not off))
          | inr (e, failed) ↦ rw failed (elim (Bool-cases (is_not_exist e)) [
            | inl missing ↦ rw missing (
                call_post (λ r. P (bind r f)) _ (W.mkdir_all p 0o750 _) (λ _ t. (ok true, t))
                  (λ _ _. good true _ (λ m. mkdir_all_keeps p 0o750 _ m ∙ kept m) (λ off. cc))
                  (λ e' _. bad _ _ (λ m. mkdir_all_keeps p 0o750 _ m ∙ kept m)))
            | inr other ↦ rw other (bad _ _ kept)
          ])
        ]

    publish_in_post :
        (req : PublishRequest) (options : Dict String) (c : W.Client × String) (s t : W.State)
        → ((m : String) → mounted t m ≡ mounted s m)
        → MountPost true s req.target_path (publish_in W driver req options c t)
    unfolding publish_in
    publish_in_post req options (client, key_file) s t same =
        let P = MountPost true s req.target_path in
        let exists = λ (m : String).
          bucket_exists-Keeps W apart unmounted client (text_or_empty (lookup flag_bucket options))
            t m
          ∙ same m in
        call_post P _ _ _
          (λ found _.
            reject_post P _ _ _ _ (λ _. (λ m _. exists m, tt))
              λ _.
                check_target_post P req.target_path _ _
                  (λ b u same' there.
                    mount_target_post req options key_file b s u (λ m. same' m ∙ exists m) there)
                  (λ e u same'. (λ m _. same' m ∙ exists m, tt)))
          (λ e _. (λ m _. exists m, tt))

    -- For a mounter that `IsMounter` describes, with other calls that mount nothing (`IsApart`,
    -- `IsUnmounted`): behind a success of `NodePublishVolume` the target is a mount point. Whatever
    -- it returns, no other path is mounted or unmounted.
    pub node_publish_volume-MountPost :
        (req : PublishRequest) (s : W.State)
        → MountPost true s req.target_path (node_publish_volume W driver req s)
    unfolding node_publish_volume
    node_publish_volume-MountPost req s =
        let P = MountPost true s req.target_path in
        reject_post P _ _ s _ (λ _. (λ m _. refl, tt))
          λ _.
            reject_post P _ _ s _ (λ _. (λ m _. refl, tt))
              λ _.
                reject_post P _ _ s _ (λ _. (λ m _. refl, tt))
                  λ _.
                    reject_post P _ _ s _ (λ _. (λ m _. refl, tt))
                      λ _.
                        bind_post P _ _
                          (λ c _.
                            publish_in_post req _ c s _
                              (client_and_key-Keeps W apart req.secrets s))
                          (λ e _. (λ m _. client_and_key-Keeps W apart req.secrets s m, tt))

    unmount_target_post :
        (volume_id target : String) (b : Bool) (s t : W.State)
        → ((m : String) → mounted t m ≡ mounted s m)
        → (b ≡ true → mounted t target ≡ false)
        → MountPost false s target (unmount_target W driver volume_id target b t)
    unfolding unmount_target
    unmount_target_post volume_id target true s t same gone = (λ m _. same m, gone refl)
    unmount_target_post volume_id target false s t same gone =
        let forgotten = forget_mount-Keeps W apart unmounted driver volume_id target in
        call_post (MountPost false s target) _ _ _
          (λ _ done. (
            λ m ne. forgotten _ m ∙ cleanup_other target false t m ne ∙ same m,
            answered (forget_mount W driver volume_id target _).0
                (forgotten _ target ∙ cleanup_ok target false t done),
          ))
          (λ e _. (λ m ne. cleanup_other target false t m ne ∙ same m, tt))

    unpublish_answer_post :
        (volume_id target : String) (r : Outcome Bool) (s : W.State)
        → (W.is_likely_not_mount_point target s).0 ≡ r
        → MountPost false s target
            (unpublish_answer W driver volume_id target r (W.is_likely_not_mount_point target s).1)
    unfolding unpublish_answer
    unpublish_answer_post volume_id target (ok b) s e =
        unmount_target_post volume_id target b s _ (answer_keeps target s)
          (λ on. answer_keeps target s target ∙ answer_ok target s b e ∙ ap not on)
    unpublish_answer_post volume_id target (err e) s failed = elim (Bool-cases (is_not_exist e)) [
      | inl missing ↦ rw missing (
        λ m _. answer_keeps target s m,
        answer_keeps target s target ∙ answer_missing target s e failed missing,
      )
      | inr other ↦
          rw other
            (elim (Bool-cases (contains (error_text W e) "transport endpoint is not connected")) [
              | inl lost ↦ rw lost (
                  unmount_target_post volume_id target false s _ (answer_keeps target s) (λ on. cc))
              | inr strange ↦ rw strange (λ m _. answer_keeps target s m, tt)
            ])
    ]

    -- For a mounter that `IsMounter` describes, with other calls that mount nothing (`IsApart`,
    -- `IsUnmounted`): behind a success of `NodeUnpublishVolume` the target is no mount point.
    -- Whatever it returns, no other path is mounted or unmounted.
    pub node_unpublish_volume-MountPost :
        (volume_id target : String) (s : W.State)
        → MountPost false s target (node_unpublish_volume W driver volume_id target s)
    unfolding node_unpublish_volume bind
    node_unpublish_volume-MountPost volume_id target s =
        let P = MountPost false s target in
        reject_post P _ _ s _ (λ _. (λ m _. refl, tt))
          λ _.
            reject_post P _ _ s _ (λ _. (λ m _. refl, tt))
              λ _. unpublish_answer_post volume_id target _ s refl
