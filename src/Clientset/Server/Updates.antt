-- ===== src/Clientset/Server/Updates.antt =====
-- publishedvolume.go: what a client reads back of what it has written.
use csi_gcs.Base.{String, ◌≡◌, refl, Option, none, some, Dict}
use csi_gcs.Api.{PublishedVolume}
use csi_gcs.Clientset.Request.{GetOptions}
use csi_gcs.Clientset.ClientGo.{ClientGo}
use csi_gcs.Clientset.PublishedVolumes.{PublishedVolumes, get_volume, create, update}
use csi_gcs.Clientset.Server.{Root, Collection, IsServer}

module _ {S : Type 0} (G : ClientGo S) (root : G.rest.Interface → Root)
    {selector : Dict String → String} (live : S → Collection → String → Option PublishedVolume)
    (server : IsServer G root selector live) where
  open server use {post_ok, put_ok, get_ok}

  -- Where the requests of a client go.
  abbrev pub collection_of : PublishedVolumes G.rest → Collection
  collection_of c = record { root = root c.client; resource = "publishedvolumes" }

  -- With a server as `IsServer` describes it, what Update has written of a record that was there
  -- is what Get then reads, if both succeed and Get asks for the newest version.
  pub update-get_volume :
      (c : PublishedVolumes G.rest) (v old : PublishedVolume) (o : GetOptions) (s : S)
      → o.resource_version ≡ ""
      → live s (collection_of c) v.name ≡ some old
      → (update G.rest c v s).0.1 ≡ none
      → (get_volume G.rest c v.name o (update G.rest c v s).1).0.1 ≡ none
      → (get_volume G.rest c v.name o (update G.rest c v s).1).0.0 ≡ v
  unfolding update get_volume
  update-get_volume c v old o s newest there updated read =
      get_ok c.client _ o v.name v _ _ refl refl refl refl newest
        (put_ok c.client _ v old _ s refl refl refl refl there updated) read

  -- With a server as `IsServer` describes it, what Create has written is what Get then reads, if
  -- both succeed and Get asks for the newest version.
  pub create-get_volume :
      (c : PublishedVolumes G.rest) (v : PublishedVolume) (o : GetOptions) (s : S)
      → o.resource_version ≡ ""
      → (create G.rest c v s).0.1 ≡ none
      → (get_volume G.rest c v.name o (create G.rest c v s).1).0.1 ≡ none
      → (get_volume G.rest c v.name o (create G.rest c v s).1).0.0 ≡ v
  unfolding create get_volume
  create-get_volume c v o s newest created read =
      get_ok c.client _ o v.name v _ _ refl refl refl refl newest
        (post_ok c.client _ v _ s refl refl refl refl created) read
