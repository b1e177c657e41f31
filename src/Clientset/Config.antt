-- ===== src/Clientset/Config.antt =====
-- pkg/client/clientset/clientset/clientset.go: the clients of all groups, for a `rest.Config`.
pub mod Panics
use csi_gcs.Base.{Bool, true, false, ◌&&◌, Option, none, some, if◌then◌else◌}
use csi_gcs.Go.{M, bind, ◌>>=◌, pure}
use csi_gcs.Clientset.ClientGo.{Config, ClientGo, OrDie, returns, or_panic, then_die}
use csi_gcs.Clientset.Typed
use csi_gcs.Clientset.Typed.{RestConfig, GcsV1beta1Client}

abbrev pub missing_limiter {ℓ} : {A : Type ℓ} → Option A → Bool
missing_limiter none = true
missing_limiter (some a) = false

module _ {S : Type 0} (G : ClientGo S) where
  pub record Clientset : Type 0 where
    pub discovery_client : G.DiscoveryClient
    pub gcs_v1beta1_client : Option (GcsV1beta1Client G)

  unfoldable pub gcs_v1beta1 : Clientset → Option (GcsV1beta1Client G)
  gcs_v1beta1 c = c.gcs_v1beta1_client

  -- The receiver may be nil.
  unfoldable pub discovery : Option Clientset → Option G.DiscoveryClient
  discovery none = none
  discovery (some c) = some c.discovery_client

  -- Whether the clients are given a limiter to share.
  unfoldable pub shares_limiter : RestConfig G → Bool
  shares_limiter c = missing_limiter c.rate_limiter && G.is_positive c.qps

  -- The copy of the config, with a limiter for all clients if it has none.
  unfoldable pub with_limiter : RestConfig G → S → RestConfig G × S
  with_limiter c s =
      let (limiter, s') = G.new_token_bucket_rate_limiter c.qps c.burst s in
      if shares_limiter c then (record c { rate_limiter = some limiter }, s') else (c, s)

  unfoldable pub clients_for : RestConfig G → M S Clientset
  clients_for config = do
    gcs ← Typed.new_for_config G config
    discovery_client ← G.new_discovery_client_for_config config
    pure (record { discovery_client = discovery_client; gcs_v1beta1_client = some gcs })

  unfoldable pub new_for_config : RestConfig G → M S Clientset
  new_for_config c s = let (config, s') = with_limiter c s in clients_for config s'

  -- `NewDiscoveryClientForConfigOrDie` panics with the error of `NewDiscoveryClientForConfig`.
  unfoldable pub new_for_config_or_die : RestConfig G → S → OrDie Clientset × S
  new_for_config_or_die c s = then_die (Typed.new_for_config_or_die G c s) λ gcs s'.
      then_die (or_panic (G.new_discovery_client_for_config c s')) λ discovery_client s''. (
        returns (record { discovery_client = discovery_client; gcs_v1beta1_client = some gcs }),
        s'',
      )

  unfoldable pub new : G.rest.Interface → Clientset
  new c = record {
    discovery_client = G.new_discovery_client c;
    gcs_v1beta1_client = some (Typed.new G c);
  }
