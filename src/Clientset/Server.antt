-- ===== src/Clientset/Server.antt =====
-- What the client set relies on of the API server and of k8s.io/client-go, as hypotheses about a view
-- of the resources that the server keeps.
pub mod Group
pub mod Registry
pub mod Updates
pub mod Model
pub mod Answering
use mathlib.Core.List.{Memᴰ}
use csi_gcs.Base.{String, ◌≡◌, Bool, false, ℤ, pos, Option, none, some, List, [], Dict}
use csi_gcs.Api.{PublishedVolume, PublishedVolumeList}
use csi_gcs.Api.Register.{GroupVersion}
use csi_gcs.Go.{ok}
use csi_gcs.World.Registry.{Carries}
use csi_gcs.Clientset.Request.{
  post, put, get, delete, list_options, get_options, GetOptions, ListOptions, DeleteOptions,
  volume_body, delete_body, Request,
}
use csi_gcs.Clientset.ClientGo.{ClientGo}
use csi_gcs.Clientset.Typed.{RestConfig}

-- Where a client sends its requests.
pub record Root : Type 0 where
  pub api_path : String
  pub group_version : GroupVersion

-- A collection of resources: the part of an address before a name.
pub record Collection : Type 0 where
  pub root : Root
  pub resource : String

abbrev pub collection : Root → Request → Collection
collection root r = record { root = root; resource = r.resource }

-- The options that ask for the newest resources with the labels, all at once.
pub record AsksForAll (labels : String) (o : ListOptions) : Type 0 where
  pub by_labels : o.label_selector ≡ labels
  pub by_no_field : o.field_selector ≡ ""
  pub no_watch : o.watch ≡ false
  pub newest : o.resource_version ≡ ""
  pub no_limit : o.limit ≡ pos 0
  pub from_start : o.continue ≡ ""

module _ {S : Type 0} (G : ClientGo S) where
  -- `live` gives the resource of a name in a collection, unless its deletion has been asked for, and
  -- `root` where a client sends its requests. `selector` is `String()` of a set of labels.
  pub record IsServer (root : G.rest.Interface → Root) (selector : Dict String → String)
      (live : S → Collection → String → Option PublishedVolume) : Type 0 where
    pub root_of_config :
        (c : RestConfig G) (s : S) (h : G.rest.Interface) (gv : GroupVersion)
        → (G.rest_client_for c s).0 ≡ ok h
        → c.group_version ≡ some gv
        → root h ≡ record { api_path = c.api_path; group_version = gv }
    pub rest_client_keeps :
        (c : RestConfig G) (s : S) (k : Collection) (n : String)
        → live (G.rest_client_for c s).1 k n ≡ live s k n
    pub discovery_keeps :
        (c : RestConfig G) (s : S) (k : Collection) (n : String)
        → live (G.new_discovery_client_for_config c s).1 k n ≡ live s k n
    pub limiter_keeps :
        (q : G.Float) (b : ℤ) (s : S) (k : Collection) (n : String)
        → live (G.new_token_bucket_rate_limiter q b s).1 k n ≡ live s k n
    pub post_ok :
        (h : G.rest.Interface) (r : Request) (v into : PublishedVolume) (s : S)
        → r.verb ≡ post
        → r.name ≡ none
        → r.subresources ≡ []
        → r.body ≡ some (volume_body v)
        → (G.rest.into_volume h r into s).0.1 ≡ none
        → live (G.rest.into_volume h r into s).1 (collection (root h) r) v.name ≡ some v
    pub put_ok :
        (h : G.rest.Interface) (r : Request) (v old into : PublishedVolume) (s : S)
        → r.verb ≡ put
        → r.name ≡ some v.name
        → r.subresources ≡ []
        → r.body ≡ some (volume_body v)
        → live s (collection (root h) r) v.name ≡ some old
        → (G.rest.into_volume h r into s).0.1 ≡ none
        → live (G.rest.into_volume h r into s).1 (collection (root h) r) v.name ≡ some v
    pub get_ok :
        (h : G.rest.Interface) (r : Request) (o : GetOptions) (n : String)
        (v into : PublishedVolume) (s : S)
        → r.verb ≡ get
        → r.name ≡ some n
        → r.subresources ≡ []
        → r.parameters ≡ some (get_options o)
        → o.resource_version ≡ ""
        → live s (collection (root h) r) n ≡ some v
        → (G.rest.into_volume h r into s).0.1 ≡ none
        → (G.rest.into_volume h r into s).0.0 ≡ v
    pub delete_ok :
        (h : G.rest.Interface) (r : Request) (o : DeleteOptions) (n : String) (s : S)
        → r.verb ≡ delete
        → r.name ≡ some n
        → r.subresources ≡ []
        → r.body ≡ some (delete_body (some o))
        → o.dry_run ≡ []
        → (G.rest.do_error h r s).0 ≡ none
        → live (G.rest.do_error h r s).1 (collection (root h) r) n ≡ none
    pub list_keeps :
        (h : G.rest.Interface) (r : Request) (into : PublishedVolumeList) (s : S) (k : Collection)
        (n : String)
        → r.verb ≡ get
        → r.name ≡ none
        → live (G.rest.into_list h r into s).1 k n ≡ live s k n
    pub list_ok :
        (h : G.rest.Interface) (r : Request) (o : ListOptions) (labels : Dict String)
        (v : PublishedVolume) (into : PublishedVolumeList) (s : S)
        → r.verb ≡ get
        → r.name ≡ none
        → r.subresources ≡ []
        → r.parameters ≡ some (list_options o)
        → AsksForAll (selector labels) o
        → (G.rest.into_list h r into s).0.1 ≡ none
        → live s (collection (root h) r) v.name ≡ some v
        → Carries labels v
        → Memᴰ v (G.rest.into_list h r into s).0.0.items
