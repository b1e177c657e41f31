-- ===== src/Clientset/Fake/Tracker.antt =====
-- What the client set for tests relies on of an object tracker, and the fake in the place of the calls
-- of pkg/util/common.go to the records of mounts.
use mathlib.Core.List.{Memᴰ}
use csi_gcs.Base.{String, ◌≡◌, true, Option, none, some, Dict, List}
use csi_gcs.Api.{PublishedVolume, PublishedVolumeList}
use csi_gcs.Go.{errorf, Outcome, ok, err}
use csi_gcs.World.{World}
use csi_gcs.World.Registry.{Carries}
use csi_gcs.Clientset.ClientGo.{returns, panics}
use csi_gcs.Clientset.Connect.{labelled, in_foreground, succeeded}
use csi_gcs.Clientset.Fake.{
  GroupVersionResource, GroupVersionKind, Object, list_object, create_action, delete_action,
  list_action, Testing, Answer, label_of, list, create, delete_volume,
}
use csi_gcs.Clientset.Request.{ListOptions}

-- What a test relies on of an object tracker: `live` gives the object of a name of a resource. The
-- selector of a set of labels matches what carries them.
pub record IsTracker {S : Type 0} (T : Testing S) (selector : Dict String → String)
    (live : S → GroupVersionResource → String → Option PublishedVolume) : Type 0 where
  pub create_ok :
      (f : T.Fake) (gvr : GroupVersionResource) (v : PublishedVolume) (default : Object) (s : S)
      → (T.invokes f (create_action gvr v) default s).0.1 ≡ none
      → live (T.invokes f (create_action gvr v) default s).1 gvr v.name ≡ some v
  pub delete_ok :
      (f : T.Fake) (gvr : GroupVersionResource) (n : String) (default : Object) (s : S)
      → (T.invokes f (delete_action gvr n) default s).0.1 ≡ none
      → live (T.invokes f (delete_action gvr n) default s).1 gvr n ≡ none
  pub list_keeps :
      (f : T.Fake) (gvr asked : GroupVersionResource) (kind : GroupVersionKind) (o : ListOptions)
      (default : Object) (s : S) (n : String)
      → live (T.invokes f (list_action gvr kind o) default s).1 asked n ≡ live s asked n
  pub list_ok :
      (f : T.Fake) (gvr : GroupVersionResource) (kind : GroupVersionKind) (o : ListOptions)
      (default : Object) (s : S) (l : PublishedVolumeList) (v : PublishedVolume)
      → (T.invokes f (list_action gvr kind o) default s).0.0 ≡ some (list_object l)
      → live s gvr v.name ≡ some v
      → Memᴰ v l.items
  pub matches_ok :
      (labels : Dict String) (v : PublishedVolume)
      → Carries labels v
      → T.matches (label_of T (labelled (selector labels))) v.labels ≡ true

-- What the driver makes of an answer: the error first, then the object behind the pointer.
unfoldable pub reported : {S A B : Type 0} → (A → B) → Answer S A → Outcome B × S
reported f (returns (some a, none), s) = (ok (f a), s)
reported f (returns (none, none), s) = (err (errorf "nil pointer dereference"), s)
reported f (returns (some a, some e), s) = (err e, s)
reported f (returns (none, some e), s) = (err e, s)
reported f (panics e, s) = (err e, s)

abbrev pub items_of : PublishedVolumeList → List PublishedVolume
items_of l = l.items

module _ (W : World) (T : Testing W.State) (fake : T.Fake) (selector : Dict String → String) where
  -- `W`, with the fake behind the calls for the records of mounts.
  abbrev pub connect_fake : World
  connect_fake = record W {
    GcsClientset = T.Fake;
    new_gcs_clientset = λ c s. (ok fake, s);
    list_published_volumes =
        λ f labels s. reported items_of (list T f (labelled (selector labels)) s);
    create_published_volume = λ f v s. reported (λ (w : PublishedVolume). w) (create T f v s);
    delete_published_volume = λ f n s. succeeded (delete_volume T f n (some in_foreground) s);
  }
