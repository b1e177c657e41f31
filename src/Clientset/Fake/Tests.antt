-- ===== src/Clientset/Fake/Tests.antt =====
-- The client set for tests over a small object tracker, which keeps the records of the site of
-- `World.Laws.Model`.
use mathlib.Core.List.{Memᴰ}
use csi_gcs.Base.{
  String, ◌==◌, ◌≡◌, refl, subst, Bool, true, false, ◌||◌, Option, none, some, [], ◌∷◌, Dict,
  lookup,
}
use csi_gcs.Api.{PublishedVolume, PublishedVolumeList}
use csi_gcs.Go.{Error, errorf, Outcome, ok, err, pure}
use csi_gcs.World.Registry.{IsRegistry, Carries}
use csi_gcs.World.Laws.Model.{Site, site, found, without, recorded}
use csi_gcs.World.Laws.Model.Registry.{live, found-Mem, found-without, live-recorded}
use csi_gcs.Clientset.PublishedVolumes.{empty_list}
use csi_gcs.Clientset.Fake.{
  GroupVersionResource, Object, volume_object, list_object, Action, create_action, delete_action,
  list_action, Testing,
}
use csi_gcs.Clientset.Fake.Tracker.{IsTracker, connect_fake}
use csi_gcs.Clientset.Fake.Registry.{tracked, connect_fake-IsRegistry}

-- A selector is the key of a label, or the empty text for everything.
abbrev key_of : Dict String → String
key_of [] = ""
key_of ((key, value) ∷ labels) = key

abbrev is_some : Option String → Bool
is_some none = false
is_some (some value) = true

abbrev Reply : Type 0
Reply = (Option Object × Option Error) × Site

abbrev added : Outcome PublishedVolume × Site → Reply
added (ok v, s) = ((some (volume_object v), none), s)
added (err e, s) = ((none, some e), s)

abbrev reply : Action → Site → Reply
reply (create_action gvr v) s = added (recorded (found v.name s.records) v s)
reply (delete_action gvr name) s = ((none, none), record s { records = without name s.records })
reply (list_action gvr kind opts) s =
    ((some (list_object (record empty_list { items = s.records })), none), s)
reply other s = ((none, some (errorf "not supported")), s)

abbrev small : Testing Site
small = record {
  Fake = Unit {0};
  WatchInterface = Unit {0};
  Selector = String;
  invokes = λ f action default s. reply action s;
  invokes_watch = λ f action. pure tt;
  extract_label = λ o. some o.label_selector;
  everything = "";
  matches = λ key labels. (key == "") || is_some (lookup key labels);
}

abbrev live_at : Site → GroupVersionResource → String → Option PublishedVolume
live_at s gvr n = live s n

added-live :
    (x : Option PublishedVolume) (v : PublishedVolume) (s : Site)
    → (added (recorded x v s)).0.1 ≡ none
    → live (added (recorded x v s)).1 v.name ≡ some v
added-live none v s h = live-recorded none v s refl
added-live (some w) v s h = cc

either_true : (b : Bool) → (b || true) ≡ true
either_true true = refl
either_true false = refl

matches_key :
    (labels : Dict String) (v : PublishedVolume)
    → Carries labels v
    → ((key_of labels == "") || is_some (lookup (key_of labels) v.labels)) ≡ true
matches_key [] v carries = refl
matches_key ((key, value) ∷ labels) v (first, rest) = rw first (either_true (key == ""))

small-IsTracker : IsTracker small key_of live_at
small-IsTracker = record {
  create_ok = λ f gvr v default s done. added-live (found v.name s.records) v s done;
  delete_ok = λ f gvr n default s done. found-without s.records n;
  list_keeps = λ f gvr asked kind o default s n. refl;
  list_ok = λ f gvr kind o default s l v answered there.
      let same : record empty_list { items = s.records } ≡ l = cc in
      subst (λ (x : PublishedVolumeList). Memᴰ v x.items) same (found-Mem s.records v.name v there);
  matches_ok = matches_key;
}

connect_fake-IsRegistry_example :
    IsRegistry
      (connect_fake site small tt key_of)
      (tracked site small tt key_of live_at small-IsTracker)
connect_fake-IsRegistry_example =
    connect_fake-IsRegistry site small tt key_of live_at small-IsTracker (λ s n. refl)
