-- ===== src/Clientset/ClientGo.antt =====
-- What the clients are made of in k8s.io/client-go, and how a call ends that panics.
use csi_gcs.Base.{String, Bool, ℤ, Option}
use csi_gcs.Api.Register.{Schemes, GroupVersion}
use csi_gcs.Go.{M, Error, Outcome, ok, err}
use csi_gcs.Clientset.Request.{Rest}

-- `rest.Config`: what the clients read or set. `other` has the fields that they pass on.
pub record Config (Float RateLimiter Serializer Other : Type 0) : Type 0 where
  pub group_version : Option GroupVersion
  pub api_path : String
  pub negotiated_serializer : Option Serializer
  pub user_agent : String
  pub rate_limiter : Option RateLimiter
  pub qps : Float
  pub burst : ℤ
  pub other : Other

-- k8s.io/client-go. `nil` is the nil of `rest.Interface`.
pub record ClientGo (S : Type 0) : Type 1 where
  pub rest : Rest S
  pub schemes : Schemes
  pub Float : Type 0
  pub RateLimiter : Type 0
  pub Serializer : Type 0
  pub Other : Type 0
  pub DiscoveryClient : Type 0
  pub is_positive : Float → Bool
  pub nil : rest.Interface
  pub new_token_bucket_rate_limiter : Float → ℤ → S → RateLimiter × S
  pub without_conversion : schemes.Scheme → Serializer
  pub default_kubernetes_user_agent : String
  pub rest_client_for : Config Float RateLimiter Serializer Other → M S rest.Interface
  pub new_discovery_client_for_config :
      Config Float RateLimiter Serializer Other → M S DiscoveryClient
  pub new_discovery_client : rest.Interface → DiscoveryClient

-- How a call ends that panics on an error.
pub data OrDie (A : Type 0) : Type 0 where
  returns : A → OrDie A
  panics : Error → OrDie A

module _ {S : Type 0} where
  -- `if err != nil { panic(err) }`
  unfoldable pub or_panic : {A : Type 0} → Outcome A × S → OrDie A × S
  or_panic (ok a, s) = (returns a, s)
  or_panic (err e, s) = (panics e, s)

  -- What follows a call that returns.
  unfoldable pub then_die : {A B : Type 0} → OrDie A × S → (A → S → OrDie B × S) → OrDie B × S
  then_die (returns a, s) f = f a s
  then_die (panics e, s) f = (panics e, s)
