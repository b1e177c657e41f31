-- ===== src/Clientset/Server/Registry.antt =====
-- The registry of records, on which the driver relies, on the client set with a server behind it.
use mathlib.Core.List.{Memᴰ}
use csi_gcs.Base.{String, ◌∙◌, ◌≡◌, refl, sym, ap, subst, Option, none, some, Dict}
use csi_gcs.Api.{PublishedVolume}
use csi_gcs.Go.{Error, Outcome, ok, err}
use csi_gcs.World.{World}
use csi_gcs.World.Laws.{Keeps}
use csi_gcs.World.Registry.{IsRegistry, Carries}
use csi_gcs.Clientset.ClientGo.{ClientGo}
use csi_gcs.Clientset.Typed.{RestConfig}
use csi_gcs.Clientset.PublishedVolumes.{list, create, delete_volume}
use csi_gcs.Clientset.Config.{new_for_config}
use csi_gcs.Clientset.Server.{Root, Collection, IsServer}
use csi_gcs.Clientset.Server.Group.{mounts, volumes_client, new_for_config-MadePost}
use csi_gcs.Clientset.Connect.{
  outcome, succeeded, noted, labelled, in_foreground, Connected, connect,
}

module _ {S A B : Type 0} (f : A → B) where
  pub outcome_state : (r : (A × Option Error) × S) → (outcome f r).1 ≡ r.1
  unfolding outcome
  outcome_state ((a, none), s) = refl
  outcome_state ((a, some e), s) = refl

  outcome_ok :
      (r : (A × Option Error) × S) {b : B} → (outcome f r).0 ≡ ok b → (r.0.1 ≡ none) × (f r.0.0 ≡ b)
  unfolding outcome
  outcome_ok ((a, none), s) e = (refl, cc)
  outcome_ok ((a, some x), s) e = cc

pub succeeded_state : {S : Type 0} (r : Option Error × S) → (succeeded r).1 ≡ r.1
unfolding succeeded
succeeded_state (none, s) = refl
succeeded_state (some e, s) = refl

pub succeeded_ok : {S : Type 0} (r : Option Error × S) → (succeeded r).0 ≡ ok tt → r.0 ≡ none
unfolding succeeded
succeeded_ok (none, s) e = refl
succeeded_ok (some x, s) e = cc

pub noted_state :
    {S A : Type 0} {P : A → Type 0} (r : Outcome A × S) (known : (a : A) → r.0 ≡ ok a → P a)
    → (noted r known).1 ≡ r.1
unfolding noted
noted_state (ok a, s) known = refl
noted_state (err e, s) known = refl

module _ (W : World) (G : ClientGo W.State) (config_of : W.Config → RestConfig G)
    (root : G.rest.Interface → Root) (selector : Dict String → String)
    {live : W.State → Collection → String → Option PublishedVolume}
    (server : IsServer G root selector live) where
  open server use {post_ok, delete_ok, list_keeps, list_ok}

  -- The records of mounts that the server keeps.
  abbrev pub live_mounts : W.State → String → Option PublishedVolume
  live_mounts s = live s mounts

  abbrev Client : Type 0
  Client = Connected W G config_of root selector server

  -- The collection of a client for the group.
  at : Client → Collection
  at c = record { root = root (volumes_client G c.0).client; resource = "publishedvolumes" }

  at-eq-mounts : (c : Client) → at c ≡ mounts
  unfolding at
  at-eq-mounts c = rw c.1 refl

  create-live :
      (c : Client) (v : PublishedVolume) (s : W.State)
      → (create G.rest (volumes_client G c.0) v s).0.1 ≡ none
      → live_mounts (create G.rest (volumes_client G c.0) v s).1 v.name ≡ some v
  create-live c v s e =
      subst (λ k. live (create G.rest (volumes_client G c.0) v s).1 k v.name ≡ some v)
        (at-eq-mounts c) (unfold at create in post_ok _ _ v _ s refl refl refl refl e)

  delete_volume-live :
      (c : Client) (n : String) (s : W.State)
      → (delete_volume G.rest (volumes_client G c.0) n (some in_foreground) s).0 ≡ none
      → live_mounts (delete_volume G.rest (volumes_client G c.0) n (some in_foreground) s).1 n
        ≡ none
  delete_volume-live c n s e =
      subst
        (λ k.
          live (delete_volume G.rest (volumes_client G c.0) n (some in_foreground) s).1 k n ≡ none)
        (at-eq-mounts c)
        (unfold at delete_volume in delete_ok _ _ in_foreground n s refl refl refl refl refl e)

  list-Memᴰ :
      (c : Client) (labels : Dict String) (v : PublishedVolume) (s : W.State)
      → (list G.rest (volumes_client G c.0) (labelled (selector labels)) s).0.1 ≡ none
      → live_mounts s v.name ≡ some v
      → Carries labels v
      → Memᴰ v (list G.rest (volumes_client G c.0) (labelled (selector labels)) s).0.0.items
  unfolding at list
  list-Memᴰ c labels v s e there carries =
      list_ok _ _ (labelled (selector labels)) labels v _ s refl refl refl refl
        (record {
          by_labels = refl;
          by_no_field = refl;
          no_watch = refl;
          newest = refl;
          no_limit = refl;
          from_start = refl;
        })
        e (subst (λ k. live s k v.name ≡ some v) (sym (at-eq-mounts c)) there) carries

  pub connect-IsRegistry :
      Keeps live_mounts W.in_cluster_config
      → IsRegistry (connect W G config_of root selector server) live_mounts
  connect-IsRegistry config_keeps = record {
    create_ok = λ c v s done.
        let made = outcome_ok _ (create G.rest (volumes_client G c.0) v s) done in
        ap (λ t. live_mounts t v.name) (outcome_state _ (create G.rest (volumes_client G c.0) v s))
        ∙ create-live c v s made.0;
    delete_ok = λ c n s done.
        let call = delete_volume G.rest (volumes_client G c.0) n (some in_foreground) s in
        ap (λ t. live_mounts t n) (succeeded_state call)
        ∙ delete_volume-live c n s (succeeded_ok call done);
    list_keeps = λ c labels s n.
        ap (λ t. live_mounts t n) (outcome_state _ _)
        ∙ unfold list in list_keeps _ _ _ s mounts n refl refl;
    list_live = λ c labels s vs v done there carries.
        let call = list G.rest (volumes_client G c.0) (labelled (selector labels)) s in
        let made = outcome_ok _ call done in
        subst (Memᴰ v) made.1 (list-Memᴰ c labels v s made.0 there carries);
    config_keeps = config_keeps;
    gcs_keeps = λ c s n.
        let made = new_for_config-MadePost G root live server (config_of c) s in
        ap (λ t. live_mounts t n) (noted_state (new_for_config G (config_of c) s) made.0)
        ∙ made.1 mounts n;
  }
