-- ===== src/Driver/Node/Retry.antt =====
-- What `NodePublishVolume` does on a target that is a mount point already, as when it is called again.
use csi_gcs.Base.{
  String, ◌==◌, ◌∙◌, ◌≡◌, refl, Bool, true, false, Option, Bool-cases, inl, inr, Dict, lookup,
}
use csi_gcs.Api.{PublishedVolume}
use csi_gcs.Go.{Outcome, ok, is_not_exist, bind}
use csi_gcs.Go.Laws.{Outcome-cases, bind_post, call_post, reject_post}
use csi_gcs.World.{World}
use csi_gcs.World.Laws.{Keeps, IsApart}
use csi_gcs.World.Mounts.{IsMounter, IsUnmounted}
use csi_gcs.World.Registry.{IsOutside}
use csi_gcs.Flags.Names.{flag_bucket}
use csi_gcs.Util.Capacity.{bucket_exists, exists_by, error_text}
use csi_gcs.Driver.Types.{GcsDriver, text_or_empty}
use csi_gcs.Driver.Node.{
  PublishRequest, target_answer, check_target, mount_target, publish_in, node_publish_volume,
}
use csi_gcs.Driver.Node.Keeps.{client_and_key-Keeps, bucket_exists-Keeps}

module _ (W : World) (mounted : W.State → String → Bool)
    (live : W.State → String → Option PublishedVolume) (mounter : IsMounter W mounted)
    (apart : IsApart W String Bool mounted) (unmounted : IsUnmounted W String Bool mounted)
    (apart_records : IsApart W String (Option PublishedVolume) live)
    (outside : IsOutside W live) where
  open mounter use {answer_ok, answer_missing}
  open outside use {first_object_keeps, answer_keeps}

  abbrev SameRecords : W.State → Outcome (Unit {0}) × W.State → Type 0
  SameRecords s r = (n : String) → live r.1 n ≡ live s n

  mounted_answer :
      (p : String) (s : W.State) (b : Bool)
      → mounted s p ≡ true
      → (W.is_likely_not_mount_point p s).0 ≡ ok b
      → b ≡ false
  mounted_answer p s true on e = let off = answer_ok p s true e in cc
  mounted_answer p s false on e = refl

  check_target_mounted :
      (p : String) (s : W.State) (f : Bool → W.State → Outcome (Unit {0}) × W.State)
      → mounted s p ≡ true
      → ((t : W.State) → f false t ≡ (ok tt, t))
      → SameRecords s (bind (check_target W p s) f)
  unfolding check_target target_answer bind
  check_target_mounted p s f on last = elim (Outcome-cases (W.is_likely_not_mount_point p s).0) [
    | inl (b, e) ↦ rw (e, mounted_answer p s b on e, last _) (answer_keeps p s)
    | inr (e, failed) ↦ elim (Bool-cases (is_not_exist e)) [
      | inl missing ↦ let off = answer_missing p s e failed missing in cc
      | inr other ↦ rw (failed, other) (answer_keeps p s)
    ]
  ]

  exists-live : (c : W.Client) (n : String) → Keeps live (bucket_exists W c n)
  unfolding bucket_exists exists_by bind
  exists-live c n s k = elim (Outcome-cases (W.first_object c n s).0) [
    | inl (next, e) ↦ rw e (first_object_keeps c n s k)
    | inr (e, failed) ↦
        rw failed (elim (Bool-cases (error_text W e == "storage: bucket doesn't exist")) [
          | inl missing ↦ rw missing (first_object_keeps c n s k)
          | inr other ↦ rw other (first_object_keeps c n s k)
        ])
  ]

  module _ (driver : GcsDriver) where
    publish_in_mounted :
        (req : PublishRequest) (options : Dict String) (c : W.Client × String) (s t : W.State)
        → ((n : String) → live t n ≡ live s n)
        → mounted t req.target_path ≡ true
        → SameRecords s (publish_in W driver req options c t)
    unfolding publish_in mount_target
    publish_in_mounted req options (client, key_file) s t same on =
        let P = SameRecords s in
        let bucket = text_or_empty (lookup flag_bucket options) in
        let exists = λ (n : String). exists-live client bucket t n ∙ same n in
        let there = bucket_exists-Keeps W apart unmounted client bucket t req.target_path ∙ on in
        call_post P _ _ _
          (λ found _.
            reject_post P _ _ _ _ (λ _. exists)
              λ _ n. check_target_mounted req.target_path _ _ there (λ u. refl) n ∙ exists n)
          (λ e _. exists)

    -- If the target is a mount point, `NodePublishVolume` leaves the records of mounts as they are,
    -- whatever it returns: a mount whose record is missing, because `RegisterMount` failed when the
    -- volume was first published, gets none from a later call. The mounter is as `IsMounter`
    -- describes it, and the other calls leave the mounts and the records alone (`IsApart`,
    -- `IsUnmounted`, `IsOutside`).
    pub node_publish_volume-mounted :
        (req : PublishRequest) (s : W.State)
        → mounted s req.target_path ≡ true
        → SameRecords s (node_publish_volume W driver req s)
    unfolding node_publish_volume
    node_publish_volume-mounted req s on =
        let P = SameRecords s in
        reject_post P _ _ s _ (λ _ n. refl)
          λ _.
            reject_post P _ _ s _ (λ _ n. refl)
              λ _.
                reject_post P _ _ s _ (λ _ n. refl)
                  λ _.
                    reject_post P _ _ s _ (λ _ n. refl)
                      λ _.
                        bind_post P _ _
                          (λ c _.
                            publish_in_mounted req _ c s _
                              (client_and_key-Keeps W apart_records req.secrets s)
                              (client_and_key-Keeps W apart req.secrets s req.target_path ∙ on))
                          (λ e _. client_and_key-Keeps W apart_records req.secrets s)
