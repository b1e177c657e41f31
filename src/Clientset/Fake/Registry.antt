-- ===== src/Clientset/Fake/Registry.antt =====
-- The registry of records on the client set for tests, with an object tracker behind it.
use mathlib.Core.List.{Memᴰ}
use csi_gcs.Base.{
  String, ◌∙◌, ◌≡◌, refl, sym, ap, subst, true, Option, none, some, Dict, List, [], ◌∷◌, Bool-cases,
  inl, inr,
}
use csi_gcs.Api.{PublishedVolume, PublishedVolumeList}
use csi_gcs.Go.{Error, ok}
use csi_gcs.World.{World}
use csi_gcs.World.Laws.{Keeps}
use csi_gcs.World.Registry.{IsRegistry}
use csi_gcs.Clientset.PublishedVolumes.{empty_volume, empty_list}
use csi_gcs.Clientset.Connect.{labelled, in_foreground}
use csi_gcs.Clientset.Server.Registry.{succeeded_state, succeeded_ok}
use csi_gcs.Clientset.Fake.{
  GroupVersionResource, published_volumes_resource, published_volumes_kind, Object, volume_object,
  list_object, other_object, Testing, as_volume, as_list, label_of, matching, list, create,
  delete_volume,
}
use csi_gcs.Clientset.Fake.Tracker.{IsTracker, reported, items_of, connect_fake}

module _ {S B : Type 0} where
  reported_volume_state :
      (f : PublishedVolume → B) (r : (Option Object × Option Error) × S)
      → (reported f (as_volume r)).1 ≡ r.1
  unfolding reported as_volume
  reported_volume_state f ((none, none), s) = refl
  reported_volume_state f ((none, some e), s) = refl
  reported_volume_state f ((some (volume_object v), none), s) = refl
  reported_volume_state f ((some (volume_object v), some e), s) = refl
  reported_volume_state f ((some (list_object l), e), s) = refl
  reported_volume_state f ((some other_object, e), s) = refl

  reported_volume_ok :
      (f : PublishedVolume → B) (r : (Option Object × Option Error) × S) {b : B}
      → (reported f (as_volume r)).0 ≡ ok b
      → r.0.1 ≡ none
  unfolding reported as_volume
  reported_volume_ok f ((none, none), s) h = refl
  reported_volume_ok f ((none, some e), s) h = cc
  reported_volume_ok f ((some (volume_object v), none), s) h = refl
  reported_volume_ok f ((some (volume_object v), some e), s) h = cc
  reported_volume_ok f ((some (list_object l), e), s) h = cc
  reported_volume_ok f ((some other_object, e), s) h = cc

module _ {S : Type 0} (T : Testing S) (label : T.Selector) where
  reported_list_state :
      (r : (Option Object × Option Error) × S) → (reported items_of (as_list T label r)).1 ≡ r.1
  unfolding reported as_list
  reported_list_state ((none, none), s) = refl
  reported_list_state ((none, some e), s) = refl
  reported_list_state ((some (list_object v), none), s) = refl
  reported_list_state ((some (list_object v), some e), s) = refl
  reported_list_state ((some (volume_object l), e), s) = refl
  reported_list_state ((some other_object, e), s) = refl

  reported_list_ok :
      (r : (Option Object × Option Error) × S) {vs : List PublishedVolume}
      → (reported items_of (as_list T label r)).0 ≡ ok vs
      → (l : PublishedVolumeList) × (r.0.0 ≡ some (list_object l)) × (matching T label l.items ≡ vs)
  unfolding reported as_list
  reported_list_ok ((none, none), s) h = cc
  reported_list_ok ((none, some e), s) h = cc
  reported_list_ok ((some (list_object l), none), s) h = (l, refl, cc)
  reported_list_ok ((some (list_object l), some e), s) h = cc
  reported_list_ok ((some (volume_object v), e), s) h = cc
  reported_list_ok ((some other_object, e), s) h = cc

  matching-Memᴰ :
      (vs : List PublishedVolume) (v : PublishedVolume)
      → T.matches label v.labels ≡ true
      → Memᴰ v vs
      → Memᴰ v (matching T label vs)
  unfolding matching
  matching-Memᴰ [] v fits m = elim m [ ]
  matching-Memᴰ (w ∷ vs) v fits (Memᴰ.head e) =
      rw (sym (ap (λ (x : PublishedVolume). T.matches label x.labels) e) ∙ fits) (Memᴰ.head e)
  matching-Memᴰ (w ∷ vs) v fits (Memᴰ.tail m) = elim (Bool-cases (T.matches label w.labels)) [
    | inl too ↦ rw too (Memᴰ.tail (matching-Memᴰ vs v fits m))
    | inr other ↦ rw other (matching-Memᴰ vs v fits m)
  ]

module _ (W : World) (T : Testing W.State) (fake : T.Fake) (selector : Dict String → String)
    (live : W.State → GroupVersionResource → String → Option PublishedVolume)
    (tracker : IsTracker T selector live) where
  open tracker use {create_ok, delete_ok, list_keeps, list_ok, matches_ok}

  abbrev pub tracked : W.State → String → Option PublishedVolume
  tracked s = live s published_volumes_resource

  -- The client set for tests implements the registry of records too: a record whose creation
  -- succeeds is there, one whose deletion succeeds is not, a list that succeeds has every record
  -- that carries its labels, and listing changes no record. This holds for an object tracker as
  -- `IsTracker` describes it, and a read of the config in the cluster that changes no record.
  pub connect_fake-IsRegistry :
      Keeps tracked W.in_cluster_config → IsRegistry (connect_fake W T fake selector) tracked
  unfolding create list delete_volume
  connect_fake-IsRegistry config_keeps = record {
    create_ok = λ f v s done.
        ap (λ t. tracked t v.name) (reported_volume_state _ _)
        ∙ create_ok f published_volumes_resource v (volume_object empty_volume) s
            (reported_volume_ok _ _ done);
    delete_ok = λ f n s done.
        ap (λ t. tracked t n) (succeeded_state (delete_volume T f n (some in_foreground) s))
        ∙ delete_ok f published_volumes_resource n (volume_object empty_volume) s
            (succeeded_ok _ done);
    list_keeps = λ f labels s n.
        ap (λ t. tracked t n) (reported_list_state T _ _)
        ∙ list_keeps f published_volumes_resource published_volumes_resource published_volumes_kind
            (labelled (selector labels)) (list_object empty_list) s n;
    list_live = λ f labels s vs v done there carries.
        let label = label_of T (labelled (selector labels)) in
        let (l, answered, same) = reported_list_ok T label _ done in
        subst (Memᴰ v) same (
          matching-Memᴰ T label l.items v (matches_ok labels v carries) (
            list_ok f published_volumes_resource published_volumes_kind (labelled (selector labels))
              (list_object empty_list) s l v answered there));
    config_keeps = config_keeps;
    gcs_keeps = λ c s n. refl;
  }
