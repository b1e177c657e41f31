-- ===== src/Driver/Client/Laws.antt =====
-- What holds behind the storage client of a handler, on every way out.
use csi_gcs.Base.{String, ◌∙◌, ◌≡◌, Dict, [], ◌∷◌}
use csi_gcs.Go.{Error, Outcome, err, M, bind}
use csi_gcs.Go.Laws.{bind_post, relabel_keeps}
use csi_gcs.World.{World, ClientOption}
use csi_gcs.World.Laws.{Keeps, IsApart}
use csi_gcs.Util.Keys.Laws.{get_key-Keeps, cleanup_key-keeps}
use csi_gcs.Driver.Types.{key_storage_path}
use csi_gcs.Driver.Client.{new_client, with_client}

module _ (W : World) {K V : Type 0} {view : W.State → K → V} (apart : IsApart W K V view) where
  open apart use {credentials_keeps, client_keeps}

  -- Two states with the same view.
  abbrev pub Same : W.State → W.State → Type 0
  Same s t = (k : K) → view s k ≡ view t k

  pub new_client-Keeps : (o : ClientOption W.Creds) → Keeps view (new_client W o)
  unfolding new_client
  new_client-Keeps o s k = relabel_keeps view k _ _ _ (client_keeps o s k)

  module _ {A : Type 0} (P : Outcome A × W.State → Type 0) (rest : W.Client → M W.State A) where
    behind_client :
        (o : ClientOption W.Creds) (s t : W.State)
        → Same t s
        → ((c : W.Client) (u : W.State) → Same u s → P (rest c u))
        → ((e : Error) (u : W.State) → Same u s → P (err e, u))
        → P (bind (new_client W o t) rest)
    behind_client o s t same good bad =
        bind_post P (new_client W o t) rest (λ c _. good c _ (λ k. new_client-Keeps o t k ∙ same k))
          (λ e _. bad e _ (λ k. new_client-Keeps o t k ∙ same k))

    -- What holds of the rest of the handler in each state with the same view, and of each error in
    -- such a state, holds behind the whole, if it speaks of the view alone.
    pub with_client_post :
        (secrets : Dict String) (s : W.State)
        → ((c : W.Client) (u : W.State) → Same u s → P (rest c u))
        → ((e : Error) (u : W.State) → Same u s → P (err e, u))
        → ((r : Outcome A) (t u : W.State) → Same u t → P (r, t) → P (r, u))
        → P (with_client W secrets rest s)
    unfolding with_client
    with_client_post [] s good bad respects =
        bind_post P _ _ (λ creds _. behind_client _ s _ (credentials_keeps s) good bad)
          (λ e _. bad e _ (credentials_keeps s))
    with_client_post (secret ∷ secrets) s good bad respects =
        let kept = get_key-Keeps W apart (secret ∷ secrets) key_storage_path s in
        bind_post P _ _
          (λ key_file _.
            respects _ _ _ (λ k. cleanup_key-keeps W apart key_file key_storage_path _ k)
              (behind_client _ s _ kept good bad))
          (λ e _. bad e _ kept)
