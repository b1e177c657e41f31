-- ===== src/Clientset/Connect.antt =====
-- The client set in the place of the calls of pkg/util/common.go to the records of mounts: a world
-- whose clients are those of a client set for the group.
use csi_gcs.Base.{String, ◌≡◌, refl, false, pos, Option, none, some, Dict, []}
use csi_gcs.Api.{PublishedVolume, PublishedVolumeList}
use csi_gcs.Go.{Error, Outcome, ok, err}
use csi_gcs.World.{World}
use csi_gcs.Clientset.Request.{ListOptions, DeleteOptions}
use csi_gcs.Clientset.ClientGo.{ClientGo}
use csi_gcs.Clientset.Typed.{RestConfig}
use csi_gcs.Clientset.PublishedVolumes.{list, create, delete_volume}
use csi_gcs.Clientset.Config.{Clientset, new_for_config}
use csi_gcs.Clientset.Server.{Root, Collection, IsServer}
use csi_gcs.Clientset.Server.Group.{IsForGroup, volumes_client, new_for_config-MadePost}

-- A result and an error, of which the driver looks at the error first.
unfoldable pub outcome : {S A B : Type 0} → (A → B) → (A × Option Error) × S → Outcome B × S
outcome f ((a, none), s) = (ok (f a), s)
outcome f ((a, some e), s) = (err e, s)

unfoldable pub succeeded : {S : Type 0} → Option Error × S → Outcome (Unit {0}) × S
succeeded (none, s) = (ok tt, s)
succeeded (some e, s) = (err e, s)

-- The options with which GetRegisteredMounts lists: `labels` is the text of the set of labels.
abbrev pub labelled : String → ListOptions
labelled labels = record {
  label_selector = labels;
  field_selector = "";
  watch = false;
  resource_version = "";
  timeout_seconds = none;
  limit = pos 0;
  continue = "";
}

-- The options with which UnregisterMount deletes.
abbrev pub in_foreground : DeleteOptions
in_foreground = record {
  grace_period_seconds = none;
  propagation_policy = some "Foreground";
  dry_run = [];
}

-- A client set, with what is known of those that are made.
unfoldable pub noted :
    {S A : Type 0} {P : A → Type 0} (r : Outcome A × S)
    → ((a : A) → r.0 ≡ ok a → P a)
    → Outcome ((a : A) × P a) × S
noted (ok a, s) known = (ok (a, known a refl), s)
noted (err e, s) known = (err e, s)

module _ (W : World) (G : ClientGo W.State) (config_of : W.Config → RestConfig G)
    (root : G.rest.Interface → Root) (selector : Dict String → String)
    {live : W.State → Collection → String → Option PublishedVolume}
    (server : IsServer G root selector live) where
  abbrev pub Connected : Type 0
  Connected = (cs : Clientset G) × IsForGroup G root cs

  -- `W`, with the client set behind the calls for the records of mounts.
  abbrev pub connect : World
  connect = record W {
    GcsClientset = Connected;
    new_gcs_clientset = λ c s.
        noted (new_for_config G (config_of c) s)
          (new_for_config-MadePost G root live server (config_of c) s).0;
    list_published_volumes = λ c labels s.
        outcome (λ (l : PublishedVolumeList). l.items)
          (list G.rest (volumes_client G c.0) (labelled (selector labels)) s);
    create_published_volume =
        λ c v s. outcome (λ (w : PublishedVolume). w) (create G.rest (volumes_client G c.0) v s);
    delete_published_volume =
        λ c n s. succeeded (delete_volume G.rest (volumes_client G c.0) n (some in_foreground) s);
  }
