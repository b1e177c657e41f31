-- ===== src/Util/Keys/Laws.antt =====
-- Saving and removing a key touches nothing that stands apart from the files.
use csi_gcs.Base.{
  String, ◌==◌, ◌∙◌, ◌≡◌, refl, Option, none, some, Dict, lookup, Bool-cases, inl, inr,
}
use csi_gcs.Go.Laws.{bind_keeps, relabel_keeps}
use csi_gcs.Go.Path.{dir}
use csi_gcs.World.{World}
use csi_gcs.World.Laws.{Keeps, IsApart}
use csi_gcs.Util.Keys.{create_file, make_key_storage, save_key, get_key, cleanup_key}

module _ (W : World) {K V : Type 0} {view : W.State → K → V} (apart : IsApart W K V view) where
  open apart use {mkdir_keeps, temp_file_keeps, write_keeps, close_keeps, remove_keeps}

  pub create_file-Keeps : (path contents : String) → Keeps view (create_file W path contents)
  unfolding create_file
  create_file-Keeps path contents s k =
      bind_keeps view k _ _ _ (relabel_keeps view k _ _ _ (temp_file_keeps path s k)) λ p t h.
        bind_keeps view k _ _ _ (relabel_keeps view k _ _ _ (write_keeps p _ t k ∙ h)) λ _ u h'.
          bind_keeps view k _ _ _ (relabel_keeps view k _ _ _ (close_keeps p u k ∙ h'))
            λ _ v h''. h''

  pub save_key-Keeps : (key : Option String) (path : String) → Keeps view (save_key W key path)
  unfolding save_key
  save_key-Keeps none path s k = refl
  save_key-Keeps (some contents) path s k =
      relabel_keeps view k _ _ _ (create_file-Keeps path contents s k)

  make_key_storage-keeps :
      (path : String) (s : W.State) (k : K) → view (make_key_storage W path s) k ≡ view s k
  unfolding make_key_storage
  make_key_storage-keeps path s k = elim (Bool-cases (W.is_missing path s)) [
    | inl missing ↦ rw missing (mkdir_keeps path 0o700 s k)
    | inr there ↦ rw there
  ]

  pub get_key-Keeps : (secrets : Dict String) (path : String) → Keeps view (get_key W secrets path)
  unfolding get_key
  get_key-Keeps secrets path s k =
      save_key-Keeps (lookup "key" secrets) path _ k ∙ make_key_storage-keeps path s k

  pub cleanup_key-keeps :
      (p path : String) (s : W.State) (k : K) → view (cleanup_key W p path s) k ≡ view s k
  unfolding cleanup_key
  cleanup_key-keeps p path s k = elim (Bool-cases (dir p == path)) [
    | inl here ↦ rw here (remove_keeps p s k)
    | inr elsewhere ↦ rw elsewhere
  ]
