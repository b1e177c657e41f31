-- ===== src/Clientset/Fake/Simple.antt =====
-- clientset_generated.go and register.go of pkg/client/clientset/clientset/fake: the client set for
-- tests, backed by an object tracker.
use csi_gcs.Base.{String, Bool, true, false, Option, none, some, List, [], ◌∷◌}
use csi_gcs.Api.Register.{Schemes, add_known_types}
use csi_gcs.Go.{M, Error, Outcome, ok, err}
use csi_gcs.Clientset.ClientGo.{OrDie, returns, panics}
use csi_gcs.Clientset.Fake.{Object, Action, GroupVersionResource, FakeGcsV1beta1, Testing}

-- What a reactor for watches answers: whether it has handled the action, a watch, and an error.
pub record WatchAnswer (WatchInterface : Type 0) : Type 0 where
  pub handled : Bool
  pub watch : Option WatchInterface
  pub error : Option Error

-- The rest of k8s.io/client-go/testing: object trackers, and the reactors of a fake.
pub record Tracking {S : Type 0} (T : Testing S) : Type 1 where
  pub ObjectTracker : Type 0
  pub FakeDiscovery : Type 0
  pub new_fake : S → T.Fake × S
  pub schemes : Schemes
  pub new_object_tracker : schemes.Scheme → S → ObjectTracker × S
  pub add : ObjectTracker → Object → S → Option Error × S
  pub watch : ObjectTracker → GroupVersionResource → String → M S T.WatchInterface
  pub fake_discovery : T.Fake → FakeDiscovery
  pub add_object_reaction : T.Fake → String → String → ObjectTracker → S → S
  pub add_watch_reactor : T.Fake → String → (Action → S → WatchAnswer T.WatchInterface × S) → S → S
  pub get_resource : Action → GroupVersionResource
  pub get_namespace : Action → String

module _ {S : Type 0} {T : Testing S} (K : Tracking T) where
  pub record FakeClientset : Type 0 where
    pub fake : T.Fake
    pub discovery_of_fake : K.FakeDiscovery
    pub object_tracker : K.ObjectTracker

  unfoldable pub discovery : FakeClientset → K.FakeDiscovery
  discovery c = c.discovery_of_fake

  unfoldable pub tracker : FakeClientset → K.ObjectTracker
  tracker c = c.object_tracker

  unfoldable pub gcs_v1beta1 : FakeClientset → FakeGcsV1beta1 T
  gcs_v1beta1 c = record { fake = c.fake }

  unfoldable pub watched : Outcome T.WatchInterface × S → WatchAnswer T.WatchInterface × S
  watched (ok w, s) = (record { handled = true; watch = some w; error = none }, s)
  watched (err e, s) = (record { handled = false; watch = none; error = some e }, s)

  -- The reactor for watches asks the tracker.
  unfoldable pub watch_reaction : K.ObjectTracker → Action → S → WatchAnswer T.WatchInterface × S
  watch_reaction o action s = watched (K.watch o (K.get_resource action) (K.get_namespace action) s)

  -- The objects are added in turn, and the first error panics.
  unfoldable pub add_all : K.ObjectTracker → List Object → S → OrDie (Unit {0}) × S
  add_all o [] s = (returns tt, s)
  add_all o (obj ∷ objects) s =
      let (e, s') = K.add o obj s in
      let rest = add_all o objects s' in elim e [ none ↦ rest | some x ↦ (panics x, s') ]

  -- The fake, its discovery and its reactors.
  unfoldable pub reacting : K.ObjectTracker → S → OrDie FakeClientset × S
  reacting o s =
      let (fake, s1) = K.new_fake s in
      let s2 = K.add_object_reaction fake "*" "*" o s1 in
      let s3 = K.add_watch_reactor fake "*" (watch_reaction o) s2 in
      (
        returns
            (record { fake = fake; discovery_of_fake = K.fake_discovery fake; object_tracker = o }),
        s3,
      )

  unfoldable pub behind : OrDie (Unit {0}) × S → K.ObjectTracker → OrDie FakeClientset × S
  behind (returns added, s) o = reacting o s
  behind (panics e, s) o = (panics e, s)

  -- The scheme of the fake, behind the `init` of its register.go.
  unfoldable pub fake_scheme : K.schemes.Scheme
  fake_scheme =
      add_known_types K.schemes (
        K.schemes.add_to_group_version (record { group = ""; version = "v1" }) K.schemes.new_scheme)

  unfoldable pub new_simple_clientset : List Object → S → OrDie FakeClientset × S
  new_simple_clientset objects s =
      let (o, s') = K.new_object_tracker fake_scheme s in behind (add_all o objects s') o
