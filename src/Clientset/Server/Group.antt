-- ===== src/Clientset/Server/Group.antt =====
-- clientset.go: where the clients that NewForConfig makes send their requests.
use csi_gcs.Base.{String, ◌∙◌, ◌≡◌, refl, Option, Dict, Bool-cases, inl, inr, some}
use csi_gcs.Api.{PublishedVolume}
use csi_gcs.Api.Register.{scheme_group_version}
use csi_gcs.Go.{Outcome, ok, err, bind, pure}
use csi_gcs.Go.Laws.{bind_post, of_ok}
use csi_gcs.Clientset.ClientGo.{ClientGo}
use csi_gcs.Clientset.Typed
use csi_gcs.Clientset.Typed.{
  RestConfig, GcsV1beta1Client, rest_client_of, published_volumes, set_config_defaults,
}
use csi_gcs.Clientset.PublishedVolumes.{PublishedVolumes}
use csi_gcs.Clientset.Config.{
  Clientset, gcs_v1beta1, shares_limiter, with_limiter, clients_for, new_for_config,
}
use csi_gcs.Clientset.Server.{Root, Collection, IsServer}

abbrev pub group_root : Root
group_root = record { api_path = "/apis"; group_version = scheme_group_version }

-- The records of mounts.
abbrev pub mounts : Collection
mounts = record { root = group_root; resource = "publishedvolumes" }

module _ {S : Type 0} (G : ClientGo S) where
  -- `clientset.GcsV1beta1().PublishedVolumes()`
  abbrev pub volumes_client : Clientset G → PublishedVolumes G.rest
  volumes_client cs = published_volumes G (gcs_v1beta1 G cs)

  abbrev pub IsForGroup : (G.rest.Interface → Root) → Clientset G → Type 0
  IsForGroup root cs = root (volumes_client cs).client ≡ group_root

module _ {S : Type 0} (G : ClientGo S) (root : G.rest.Interface → Root)
    {selector : Dict String → String} (live : S → Collection → String → Option PublishedVolume)
    (server : IsServer G root selector live) where
  open server use {root_of_config, rest_client_keeps, discovery_keeps, limiter_keeps}

  abbrev SameLive : S → S → Type 0
  SameLive t s = (k : Collection) (n : String) → live t k n ≡ live s k n

  -- A new client set is one for the group, and making it, or failing to, changes no resource.
  abbrev pub MadePost : S → Outcome (Clientset G) × S → Type 0
  MadePost s r = ((cs : Clientset G) → r.0 ≡ ok cs → IsForGroup G root cs) × SameLive r.1 s

  abbrev TypedPost : S → Outcome (GcsV1beta1Client G) × S → Type 0
  TypedPost s r =
      ((c : GcsV1beta1Client G) → r.0 ≡ ok c → root c.rest_client ≡ group_root) × SameLive r.1 s

  with_rest_client :
      (s : S) (r : Outcome G.rest.Interface × S)
      → ((h : G.rest.Interface) → r.0 ≡ ok h → root h ≡ group_root)
      → SameLive r.1 s
      → TypedPost s (bind r (λ h. pure (record { rest_client = h })))
  unfolding bind
  with_rest_client s (ok h, t) made kept = (
    λ c e. of_ok (λ (g : GcsV1beta1Client G). root g.rest_client ≡ group_root) e (made h refl),
    kept,
  )
  with_rest_client s (err x, t) made kept = (λ c e. cc, kept)

  typed-TypedPost : (c : RestConfig G) (s : S) → TypedPost s (Typed.new_for_config G c s)
  unfolding Typed.new_for_config set_config_defaults bind
  typed-TypedPost c s =
      with_rest_client s _ (λ h e. root_of_config _ s h _ e refl) (rest_client_keeps _ s)

  with_discovery :
      (gcs : GcsV1beta1Client G) (s : S) (r : Outcome G.DiscoveryClient × S)
      → root gcs.rest_client ≡ group_root
      → SameLive r.1 s
      → MadePost s
          (bind r (λ d. pure (record { discovery_client = d; gcs_v1beta1_client = some gcs })))
  unfolding bind gcs_v1beta1 published_volumes rest_client_of
  with_discovery gcs s (ok d, t) made kept = (λ cs e. of_ok (IsForGroup G root) e made, kept)
  with_discovery gcs s (err x, t) made kept = (λ cs e. cc, kept)

  clients_for-MadePost : (c : RestConfig G) (s : S) → MadePost s (clients_for G c s)
  unfolding clients_for
  clients_for-MadePost c s =
      let typed = typed-TypedPost c s in
      bind_post (MadePost s) (Typed.new_for_config G c s) _
        (λ gcs e.
          with_discovery gcs s (G.new_discovery_client_for_config c _) (typed.0 gcs e)
            (λ k n. discovery_keeps c _ k n ∙ typed.1 k n))
        (λ x e. (λ cs h. cc, typed.1))

  with_limiter-SameLive : (c : RestConfig G) (s : S) → SameLive (with_limiter G c s).1 s
  unfolding with_limiter
  with_limiter-SameLive c s k n = elim (Bool-cases (shares_limiter G c)) [
    | inl share ↦ rw share (limiter_keeps c.qps c.burst s k n)
    | inr own ↦ rw own refl
  ]

  pub new_for_config-MadePost : (c : RestConfig G) (s : S) → MadePost s (new_for_config G c s)
  unfolding new_for_config
  new_for_config-MadePost c s =
      let made = clients_for-MadePost (with_limiter G c s).0 (with_limiter G c s).1 in
      (made.0, λ k n. made.1 k n ∙ with_limiter-SameLive c s k n)
