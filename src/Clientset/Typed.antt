-- ===== src/Clientset/Typed.antt =====
-- published-volume_client.go of pkg/client/clientset/clientset/typed/published-volume/v1beta1: the
-- client of the group, for a `rest.Config`.
use csi_gcs.Base.{◌==◌, Option, none, some, if◌then◌else◌}
use csi_gcs.Api.Register.{scheme_group_version, client_scheme}
use csi_gcs.Go.{M, Outcome, ok, ◌>>=◌, pure}
use csi_gcs.Clientset.ClientGo.{Config, ClientGo, OrDie, or_panic}
use csi_gcs.Clientset.PublishedVolumes.{PublishedVolumes}

module _ {S : Type 0} (G : ClientGo S) where
  abbrev pub RestConfig : Type 0
  RestConfig = Config G.Float G.RateLimiter G.Serializer G.Other

  pub record GcsV1beta1Client : Type 0 where
    pub rest_client : G.rest.Interface

  unfoldable pub rest_client_of : Option GcsV1beta1Client → G.rest.Interface
  rest_client_of none = G.nil
  rest_client_of (some c) = c.rest_client

  unfoldable pub published_volumes : Option GcsV1beta1Client → PublishedVolumes G.rest
  published_volumes c = record { client = rest_client_of c }

  -- It returns no error.
  unfoldable pub set_config_defaults : RestConfig → Outcome RestConfig
  set_config_defaults config = ok (record config {
    group_version = some scheme_group_version;
    api_path = "/apis";
    negotiated_serializer = some (G.without_conversion (client_scheme G.schemes));
    user_agent =
        if config.user_agent == "" then G.default_kubernetes_user_agent else config.user_agent;
  })

  unfoldable pub new_for_config : RestConfig → M S GcsV1beta1Client
  new_for_config c = do
    config ← λ s. (set_config_defaults c, s)
    client ← G.rest_client_for config
    pure (record { rest_client = client })

  unfoldable pub new_for_config_or_die : RestConfig → S → OrDie GcsV1beta1Client × S
  new_for_config_or_die c s = or_panic (new_for_config c s)

  unfoldable pub new : G.rest.Interface → GcsV1beta1Client
  new c = record { rest_client = c }
