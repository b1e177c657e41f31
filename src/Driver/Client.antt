-- ===== src/Driver/Client.antt =====
-- pkg/driver/controller.go: the storage client that each handler makes first, from the default
-- credentials or from a key in the secrets.
pub mod Laws
use csi_gcs.Base.{String, ◌<>◌, Bool, true, false, Dict, if◌then◌else◌}
use csi_gcs.Go.{internal, Error, status, M, ◌>>=◌, on_error, deferring}
use csi_gcs.World.{World, ClientOption, with_credentials, with_credentials_file}
use csi_gcs.Util.Capacity.{error_text}
use csi_gcs.Util.Keys.{get_key, cleanup_key}
use csi_gcs.Driver.Types.{key_storage_path, is_empty}

module _ (W : World) where
  unfoldable pub new_client : ClientOption W.Creds → M W.State W.Client
  new_client option =
      on_error (λ e. status internal ("Failed to create client: " <> error_text W e))
        (W.new_client option)

  -- What follows the credentials in a handler is `rest`. The file of the key is removed on every way
  -- out of the handler that follows `GetKey`.
  unfoldable pub with_client : {A : Type 0} → Dict String → (W.Client → M W.State A) → M W.State A
  with_client secrets rest = elim (is_empty secrets) [
    | true ↦ do
      creds ← W.find_default_credentials
      client ← new_client (with_credentials creds)
      rest client
    | false ↦ do
      key_file ← get_key W secrets key_storage_path
      deferring (cleanup_key W key_file key_storage_path)
          (do client ← new_client (with_credentials_file key_file); rest client)
  ]
