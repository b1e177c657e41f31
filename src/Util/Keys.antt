-- ===== src/Util/Keys.antt =====
-- pkg/util/common.go: `CreateFile`, `CreateDir`, `GetKey` and `CleanupKey`. A secret key is kept in a file for the
-- time of a call; the directory of these files is `keyStoragePath`.
pub mod Laws
use csi_gcs.Base.{String, Bool, ◌<>◌, ◌==◌, Option, none, some, Dict, lookup, bytes, if◌then◌else◌}
use csi_gcs.Go.{
  Outcome, ok, err, is_not_exist, internal, Error, status, errorf, M, ◌>>=◌, ◌>>◌, attempt, pure,
  throw, on_error,
}
use csi_gcs.Go.Path.{dir}
use csi_gcs.World.{World}
use csi_gcs.Util.Capacity.{error_text}

module _ (W : World) where
  unfoldable pub create_file : String → String → M W.State String
  create_file path contents = do
    file_path ←
        on_error (λ e. errorf ("error creating file: " <> error_text W e)) (W.temp_file path)
    on_error (λ e. errorf ("error writing to file " <> (file_path <> (": " <> error_text W e))))
        (W.write file_path (bytes contents))
    on_error (λ e. errorf ("error closing file " <> (file_path <> (": " <> error_text W e))))
        (W.close file_path)
    pure file_path

  created_dir : String → Outcome Bool → M W.State (Unit {0})
  created_dir d (ok is_dir) =
      if is_dir then pure tt else throw (errorf (d <> " already exists and is not a directory"))
  created_dir d (err e) = if is_not_exist e then W.mkdir_all d 0o777 else throw e

  unfoldable pub create_dir : String → M W.State (Unit {0})
  unfolding created_dir
  create_dir d = do found ← attempt (W.lstat_is_dir d); created_dir d found

  -- The directory is made if it is missing; the error of that is not read.
  unfoldable pub make_key_storage : String → W.State → W.State
  make_key_storage path s = if W.is_missing path s then W.mkdir path 0o700 s else s

  -- `GetKey`, behind the making of the directory.
  unfoldable pub save_key : Option String → String → M W.State String
  save_key none path = throw (status internal "Secret 'key' is unavailable")
  save_key (some contents) path =
      on_error (λ _. status internal ("Unable to save secret 'key' to " <> path))
        (create_file path contents)

  unfoldable pub get_key : Dict String → String → M W.State String
  get_key secrets path s = save_key (lookup "key" secrets) path (make_key_storage path s)

  -- The error of the removal reaches the log alone.
  unfoldable pub cleanup_key : String → String → W.State → W.State
  cleanup_key key_file path s = if dir key_file == path then (W.remove key_file s).1 else s
