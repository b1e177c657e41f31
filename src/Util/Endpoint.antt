-- ===== src/Util/Endpoint.antt =====
-- pkg/util/common.go: `ParseEndpoint`, from the parts that `url.Parse` finds.
pub mod Laws
use csi_gcs.Base.{String, ◌<>◌, ◌==◌, if◌then◌else◌}
use csi_gcs.Go.{
  ◌>>◌, Outcome, ok, err, errorf, is_not_exist, M, ◌>>=◌, attempt, pure, throw, on_error,
}
use csi_gcs.Go.Path.{path_join}
use csi_gcs.World.{World}
use csi_gcs.Util.BucketName.{lower_text}
use csi_gcs.Util.Capacity.{error_text}

pub record Url : Type 0 where
  pub scheme : String
  pub host : String
  pub path : String

-- `url.Parse`, and `%q` of package fmt, are parameters.
module _ (W : World) (parse_url : String → Outcome Url) (quote : String → String) where
  unfoldable pub removed : String → Outcome (Unit {0}) → M W.State (Unit {0})
  removed address (ok _) = pure tt
  removed address (err e) =
      if is_not_exist e
      then pure tt
      else throw
          (errorf ("could not remove unix socket " <> (quote address <> (": " <> error_text W e))))

  unfoldable pub parse_endpoint : String → M W.State (String × String)
  unfolding removed
  parse_endpoint endpoint = do
    u ←
        on_error (λ e. errorf ("could not parse endpoint: " <> error_text W e))
          (λ s. (parse_url endpoint, s))
    let address = if u.host == "" then u.path else path_join u.host u.path
    let scheme = lower_text u.scheme
    if scheme == "unix"
        then (do r ← attempt (W.remove address); removed address r; pure (scheme, address))
        else throw (errorf ("unsupported protocol: " <> scheme))
