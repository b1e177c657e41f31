-- ===== src/Driver/Controller/KeyFiles.antt =====
-- The handlers of the controller remove the file of the key that they have saved, unless a call of
-- package os about it fails.
pub mod Handlers
use csi_gcs.Base.{
  String, ◌==◌, eq_iff, ◌∙◌, ◌≡◌, refl, sym, ap, arith, Bool, true, false, Option, none, some, Dict,
  lookup, [], ◌∷◌, ◌⊎◌, inl, inr, Bool-cases, bytes, ℤ, if◌then◌else◌,
}
use csi_gcs.Go.{Error, Outcome, ok, err, M, bind, relabel, deferring}
use csi_gcs.Go.Laws.{Outcome-cases, bind_post, bind_keeps, relabel_keeps, reject_post, call_post}
use csi_gcs.Go.Path.{dir}
use csi_gcs.World.{World, ClientOption, with_credentials, with_credentials_file}
use csi_gcs.World.Laws.{Keeps}
use csi_gcs.World.KeyFiles.{IsKeyStore, IsSpoiled, IsRemote}
use csi_gcs.Util.Keys.{create_file, make_key_storage, save_key, get_key, cleanup_key}
use csi_gcs.Driver.Types.{key_storage_path}
use csi_gcs.Driver.Client.{new_client, with_client}

module _ (W : World) (exists spoiled : W.State → String → Bool)
    (store : IsKeyStore W key_storage_path exists) (faults : IsSpoiled W spoiled) where
  open store use {
    mkdir_keeps, temp_dir, temp_new, temp_ok, temp_failed, write_keeps, close_keeps, remove_ok,
    remove_other,
  }
  open faults use {
    mkdir_keeps as mkdir_spoils, temp_file_keeps, write_failed, write_stays, close_failed,
    close_stays, remove_failed, remove_stays,
  }

  -- A file that is not spoiled is there in `u` if it was in `s`, and what is spoiled stays so.
  abbrev pub Sound : W.State → W.State → String → Type 0
  Sound s u m =
      (spoiled s m ≡ true → spoiled u m ≡ true) × (spoiled u m ≡ false → exists u m ≡ exists s m)

  pub Sound-same :
      (s u : W.State) (m : String)
      → exists u m ≡ exists s m
      → spoiled u m ≡ spoiled s m
      → Sound s u m
  Sound-same s u m same kept = (λ h. kept ∙ h, λ _. same)

  pub Sound_trans : (s t u : W.State) (m : String) → Sound s t m → Sound t u m → Sound s u m
  Sound_trans s t u m (stays, same) (stays', same') = (
    λ h. stays' (stays h),
    λ clean. elim (Bool-cases (spoiled t m)) [
      | inl bad ↦ let worse = stays' bad in cc
      | inr good ↦ same' clean ∙ same good
    ],
  )

  -- Nothing but the file `p` has changed, and that is spoiled.
  Sound-except :
      (s u : W.State) (p m : String)
      → ((p == m) ≡ false → exists u m ≡ exists s m)
      → (spoiled s m ≡ true → spoiled u m ≡ true)
      → spoiled u p ≡ true
      → Sound s u m
  Sound-except s u p m other stays bad = (
    stays,
    λ clean. elim (Bool-cases (p == m)) [
      | inl same ↦ let e = (eq_iff p m).0 same in let worse = ap (spoiled u) e in cc
      | inr apart ↦ other apart
    ],
  )

  -- `p` is the one new file of `t`.
  abbrev Saved : W.State → W.State → String → Type 0
  Saved s t p =
      ((dir p == key_storage_path) ≡ true)
      × (exists s p ≡ false)
      × ((m : String) → exists t m ≡ (if p == m then true else exists s m))
      × ((m : String) → spoiled s m ≡ true → spoiled t m ≡ true)

  abbrev SavedIfOk : W.State → Outcome String × W.State → Type 0
  SavedIfOk s (ok p, t) = Saved s t p
  SavedIfOk s (err e, t) = (m : String) → Sound s t m

  -- The file is there, and the call behind it has failed.
  left_behind :
      (s u : W.State) (p : String)
      → ((m : String) → exists u m ≡ (if p == m then true else exists s m))
      → ((m : String) → spoiled s m ≡ true → spoiled u m ≡ true)
      → spoiled u p ≡ true
      → (m : String) → Sound s u m
  left_behind s u p new stays bad m =
      Sound-except s u p m (λ apart. rw apart at (new m)) (stays m) bad

  create_file_post :
      (contents : String) (s : W.State) → SavedIfOk s (create_file W key_storage_path contents s)
  unfolding create_file
  create_file_post contents s =
      let P = SavedIfOk s in
      let b = bytes contents in
      call_post P _ _ _
        (λ p made.
          let t = (W.temp_file key_storage_path s).1 in
          let u = (W.write p b t).1 in
          let v = (W.close p u).1 in
          let new = λ (m : String). temp_ok s p m made in
          let stays = λ (m : String) (h : spoiled s m ≡ true).
            write_stays p b t m (temp_file_keeps key_storage_path s m ∙ h) in
          call_post P _ _ _
            (λ _ _.
              call_post P _ _ _
                (λ _ _. (
                  temp_dir s p made,
                  temp_new s p made,
                  (λ m. close_keeps p u m ∙ write_keeps p b t m ∙ new m),
                  λ m h. close_stays p u m (stays m h),
                ))
                (λ e failed.
                  left_behind s v p (λ m. close_keeps p u m ∙ write_keeps p b t m ∙ new m)
                    (λ m h. close_stays p u m (stays m h)) (close_failed p u e failed)))
            (λ e failed.
              left_behind s u p (λ m. write_keeps p b t m ∙ new m) stays
                (write_failed p b t e failed)))
        (λ e failed m.
          Sound-same s _ m (temp_failed s e m failed) (temp_file_keeps key_storage_path s m))

  relabelled :
      (s : W.State) (f : Error → Error) (r : Outcome String × W.State)
      → SavedIfOk s r
      → SavedIfOk s (relabel f r)
  unfolding relabel
  relabelled s f (ok p, t) h = h
  relabelled s f (err e, t) h = h

  save_key_post :
      (key : Option String) (s : W.State) → SavedIfOk s (save_key W key key_storage_path s)
  unfolding save_key
  save_key_post none s = λ m. Sound-same s s m refl refl
  save_key_post (some contents) s = relabelled s _ _ (create_file_post contents s)

  make_key_storage-keeps :
      (view : W.State → String → Bool) (s : W.State) (m : String)
      → view (W.mkdir key_storage_path 0o700 s) m ≡ view s m
      → view (make_key_storage W key_storage_path s) m ≡ view s m
  unfolding make_key_storage
  make_key_storage-keeps view s m made = elim (Bool-cases (W.is_missing key_storage_path s)) [
    | inl missing ↦ rw missing made
    | inr there ↦ rw there
  ]

  before :
      (s t : W.State) (r : Outcome String × W.State)
      → ((m : String) → exists t m ≡ exists s m)
      → ((m : String) → spoiled t m ≡ spoiled s m)
      → SavedIfOk t r
      → SavedIfOk s r
  before s t (ok p, u) same kept (here, new, saved, stays) = (
    here,
    sym (same p) ∙ new,
    (λ m. saved m ∙ ap (λ b. if p == m then true else b) (same m)),
    λ m h. stays m (kept m ∙ h),
  )
  before s t (err e, u) same kept sound =
      λ m. Sound_trans s t u m (Sound-same s t m (same m) (kept m)) (sound m)

  get_key_post :
      (secrets : Dict String) (s : W.State) → SavedIfOk s (get_key W secrets key_storage_path s)
  unfolding get_key
  get_key_post secrets s =
      before s _ _ (λ m. make_key_storage-keeps exists s m (mkdir_keeps key_storage_path 0o700 s m))
        (λ m. make_key_storage-keeps spoiled s m (mkdir_spoils key_storage_path 0o700 s m))
        (save_key_post (lookup "key" secrets) _)

  removed :
      (s u : W.State) (p : String)
      → exists s p ≡ false
      → ((m : String) → exists u m ≡ (if p == m then true else exists s m))
      → ((m : String) → spoiled s m ≡ true → spoiled u m ≡ true)
      → (m : String) → Sound s (W.remove p u).1 m
  removed s u p new saved stays m =
      let stays' = λ (h : spoiled s m ≡ true). remove_stays p u m (stays m h) in
      elim (Outcome-cases (W.remove p u).0) [
        | inl (_, done) ↦
            (stays', λ _. ground (arith, eq_iff p m, new, saved m, remove_ok p u m done))
        | inr (e, failed) ↦
            Sound-except s _ p m (λ apart. remove_other p u m apart ∙ rw apart at (saved m)) stays'
              (remove_failed p u e failed)
      ]

  cleaned :
      (s t u : W.State) (p : String)
      → Saved s t p
      → ((m : String) → exists u m ≡ exists t m)
      → ((m : String) → spoiled u m ≡ spoiled t m)
      → (m : String) → Sound s (cleanup_key W p key_storage_path u) m
  unfolding cleanup_key
  cleaned s t u p (here, new, saved, stays) same kept m =
      rw here (removed s u p new (λ n. same n ∙ saved n) (λ n h. kept n ∙ stays n h) m)

  module _ (remote : IsRemote W String Bool exists)
      (harmless : IsRemote W String Bool spoiled) where
    behind_client-Keeps :
        {A : Type 0} (view : W.State → String → Bool) (far : IsRemote W String Bool view)
        (rest : W.Client → M W.State A)
        → ((c : W.Client) → Keeps view (rest c))
        → (o : ClientOption W.Creds) (s : W.State) (m : String)
        → view (bind (new_client W o s) rest).1 m ≡ view s m
    unfolding new_client
    behind_client-Keeps view far rest kept o s m =
        bind_keeps view m _ _ _ (relabel_keeps view m _ _ _ (far.client_keeps o s m))
          λ c t h. kept c t m ∙ h

    after_key :
        {A : Type 0} (rest : W.Client → M W.State A)
        → ((c : W.Client) → Keeps exists (rest c))
        → ((c : W.Client) → Keeps spoiled (rest c))
        → (s : W.State) (r : Outcome String × W.State) → SavedIfOk s r
        → (m : String)
        → Sound s
            (bind r (λ key_file.
              deferring
                (cleanup_key W key_file key_storage_path)
                (λ t. bind (new_client W (with_credentials_file key_file) t) rest))).1
            m
    unfolding bind
    after_key rest kept clean s (ok p, t) saved =
        cleaned s t _ p saved
          (λ m. behind_client-Keeps exists remote rest kept (with_credentials_file p) t m)
          (λ m. behind_client-Keeps spoiled harmless rest clean (with_credentials_file p) t m)
    after_key rest kept clean s (err e, t) sound = sound

    default-Keeps :
        {A : Type 0} (view : W.State → String → Bool) (far : IsRemote W String Bool view)
        (rest : W.Client → M W.State A)
        → ((c : W.Client) → Keeps view (rest c))
        → Keeps view (with_client W [] rest)
    unfolding with_client
    default-Keeps view far rest kept s m =
        bind_keeps view m _ _ _ (far.credentials_keeps s m)
          λ creds t h. behind_client-Keeps view far rest kept (with_credentials creds) t m ∙ h

    -- A handler whose calls touch no file behind its client leaves the files as they were, but for
    -- files that are spoiled.
    pub with_client-Sound :
        {A : Type 0} (rest : W.Client → M W.State A)
        → ((c : W.Client) → Keeps exists (rest c))
        → ((c : W.Client) → Keeps spoiled (rest c))
        → (secrets : Dict String) (s : W.State) (m : String)
        → Sound s (with_client W secrets rest s).1 m
    unfolding with_client bind
    with_client-Sound rest kept clean [] s m =
        Sound-same s _ m (default-Keeps exists remote rest kept s m)
          (default-Keeps spoiled harmless rest clean s m)
    with_client-Sound rest kept clean (secret ∷ secrets) s m =
        after_key rest kept clean s (get_key W (secret ∷ secrets) key_storage_path s)
          (get_key_post (secret ∷ secrets) s) m
