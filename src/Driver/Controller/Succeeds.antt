-- ===== src/Driver/Controller/Succeeds.antt =====
-- When the handlers of the controller succeed.
pub mod Existing
use csi_gcs.Base.{
  String, ◌==◌, ◌∙◌, ◌≡◌, refl, sym, ap, subst, Bool, true, false, not, ◌||◌, Option, none, some,
  Dict, lookup, [], ◌∷◌, ◌⊎◌, inl, inr, Bool-cases, ℤ, pos, ltb_ℤ, ◌=ℤ◌, bytes, if◌then◌else◌,
}
use csi_gcs.Go.{Outcome, ok, err, M, bind, relabel, reject, deferring}
use csi_gcs.Go.Laws.{Outcome-cases, bind_ok, relabel_ok_of, relabel_state}
use csi_gcs.World.{World, Attrs, ClientOption, with_credentials, with_credentials_file}
use csi_gcs.World.Laws.{IsStorage, IsApart}
use csi_gcs.World.Up.{IsUp, IsClusterUp}
use csi_gcs.Flags.Names.{flag_bucket, flag_project_id}
use csi_gcs.Util.Capacity.{bucket_capacity, capacity_loop, set_bucket_capacity}
use csi_gcs.Util.Keys.{create_file, save_key, get_key}
use csi_gcs.Util.Cluster.{get_pvc_annotations}
use csi_gcs.Util.Keys.Laws.{get_key-Keeps}
use csi_gcs.Driver.Types.{
  key_storage_path, is_empty, only_mounts, text_or_empty, required_or_zero, map_or_empty,
}
use csi_gcs.Driver.Client.{new_client, with_client}
use csi_gcs.Driver.Client.Laws.{new_client-Keeps}
use csi_gcs.Driver.Controller.{
  CreateVolumeRequest, Volume, volume_options, pvc_annotations, create_bucket, unless_exists,
  ensure_bucket, existing_capacity, write_capacity, check_capacity, create_in, create_volume,
}
use csi_gcs.Driver.Controller.Capacity.{BucketsSame, existing_capacity_post}
use csi_gcs.Driver.Controller.Claims.{HasClaim, behind_claim_ok}
use csi_gcs.Driver.Controller.Create.{pvc_annotations-Keeps, named_annotations}

-- No secrets at all, or a key among them.
abbrev pub HasCredentials : Dict String → Type 0
HasCredentials secrets =
    (secrets ≡ [])
    ⊎ ((key : String) × (is_empty secrets ≡ false) × (lookup "key" secrets ≡ some key))

-- The capacity of a bucket that lets `CreateVolume` go on: none is stated, or enough.
abbrev pub Suits : Option Attrs → ℤ → Type 0
Suits found new =
    (a : Attrs) × (i : ℤ) × (found ≡ some a)
    × (bucket_capacity a ≡ ok i)
    × (((i =ℤ pos 0) || not (ltb_ℤ i new)) ≡ true)

-- The bucket is there and suits, or it is missing and the options have a project.
abbrev pub CanCreate : Option Attrs → Dict String → ℤ → Type 0
CanCreate found options new =
    Suits found new ⊎ ((found ≡ none) × ((p : String) × (lookup flag_project_id options ≡ some p)))

module _ (W : World) (bucket : W.State → String → Option Attrs) (storage : IsStorage W bucket)
    (apart : IsApart W String (Option Attrs) bucket) (up : IsUp W bucket) where
  open storage use {attrs_ok, attrs_keeps, create_ok}
  open apart use {credentials_keeps}
  open up use {
    credentials_up, client_up, temp_file_up, write_up, close_up, attrs_up, create_up, set_label_up,
  }

  -- The key is saved.
  pub get_key_ok :
      (secrets : Dict String) (key : String) (s : W.State)
      → lookup "key" secrets ≡ some key
      → (p : String) × ((get_key W secrets key_storage_path s).0 ≡ ok p)
  unfolding get_key save_key create_file
  get_key_ok secrets key s found = rw found (
      let (p, made) = temp_file_up key_storage_path _ in
      (
        p,
        relabel_ok_of _ _ (
            bind_ok _ _ (relabel_ok_of _ _ made) (
              bind_ok _ _ (relabel_ok_of _ _ (write_up p _ _))
                (bind_ok _ _ (relabel_ok_of _ _ (close_up p _)) refl))),
      ))

  behind_client_ok :
      {A : Type 0} {a : A} (rest : W.Client → M W.State A) (s t : W.State)
      → ((c : W.Client) (u : W.State) → BucketsSame bucket s u → (rest c u).0 ≡ ok a)
      → (o : ClientOption W.Creds) → BucketsSame bucket s t
      → (bind (new_client W o t) rest).0 ≡ ok a
  unfolding new_client
  behind_client_ok rest s t good o same =
      let (c, made) = client_up o t in
      bind_ok _ rest (relabel_ok_of _ _ made)
        (good c _ (λ m. new_client-Keeps W apart o t m ∙ same m))

  -- A handler succeeds if it does so behind its client.
  pub with_client_ok :
      {A : Type 0} {a : A} (secrets : Dict String) (rest : W.Client → M W.State A) (s : W.State)
      → HasCredentials secrets
      → ((c : W.Client) (u : W.State) → BucketsSame bucket s u → (rest c u).0 ≡ ok a)
      → (with_client W secrets rest s).0 ≡ ok a
  unfolding with_client
  with_client_ok secrets rest s (inl none_given) good =
      let (creds, found) = credentials_up s in
      rw none_given (
        bind_ok _ _ found
          (behind_client_ok rest s _ good (with_credentials creds) (credentials_keeps s)))
  with_client_ok [] rest s (inr (key, given, found)) good = cc
  with_client_ok (secret ∷ secrets) rest s (inr (key, given, found)) good =
      let (p, saved) = get_key_ok (secret ∷ secrets) key s found in
      bind_ok _ _ saved (
        behind_client_ok rest s _ good (with_credentials_file p)
          (get_key-Keeps W apart (secret ∷ secrets) key_storage_path s))

  pub existing_capacity-BucketsSame :
      (c : W.Client) (n : String) (t : W.State) → BucketsSame bucket t (existing_capacity W c n t).1
  existing_capacity-BucketsSame c n t =
      existing_capacity_post W bucket storage (λ r. BucketsSame bucket t r.1) c n t
        (λ _ _ _ same _ _. same) (λ _ _ same. same)

  pub existing_capacity_ok :
      (c : W.Client) (n : String) (t : W.State) (a : Attrs) (i : ℤ)
      → bucket t n ≡ some a
      → bucket_capacity a ≡ ok i
      → (existing_capacity W c n t).0 ≡ ok i
  unfolding existing_capacity
  existing_capacity_ok c n t a i there stated =
      bind_ok _ _ (relabel_ok_of _ _ (attrs_up c n t a there)) (relabel_ok_of _ _ stated)

  check_capacity_ok :
      (c : W.Client) (n : String) (i new : ℤ) (t : W.State) (a : Attrs)
      → bucket t n ≡ some a
      → ((i =ℤ pos 0) || not (ltb_ℤ i new)) ≡ true
      → (check_capacity W c n i new t).0 ≡ ok tt
  unfolding check_capacity write_capacity set_bucket_capacity reject
  check_capacity_ok c n i new t a there fits = elim (Bool-cases (i =ℤ pos 0)) [
    | inl zero_stated ↦
        let (b, done) = set_label_up c n _ _ t a there in
        rw zero_stated (bind_ok _ _ (relabel_ok_of _ _ done) refl)
    | inr stated ↦
        let enough : not (ltb_ℤ i new) ≡ true = rw stated at fits in
        rw stated (elim (Bool-cases (ltb_ℤ i new)) [
          | inl small ↦ let bad : false ≡ true = rw small at enough in cc
          | inr large ↦ rw large refl
        ])
  ]

  -- What `create_in` does behind the bucket.
  from_bucket_ok :
      (c : W.Client) (n : String) (new : ℤ) (v : Volume) (t : W.State)
      → Suits (bucket t n) new
      → (bind
          (existing_capacity W c n t)
          (λ i u. bind (check_capacity W c n i new u) (λ _ w. (ok v, w)))).0
        ≡ ok v
  from_bucket_ok c n new v t (a, i, there, stated, fits) =
      bind_ok _ _ (existing_capacity_ok c n t a i there stated) (
        bind_ok _ _
          (check_capacity_ok c n i new _ a (existing_capacity-BucketsSame c n t n ∙ there) fits)
          refl)

  nothing_stated : bucket_capacity (record { labels = [] }) ≡ ok (pos 0)
  unfolding bucket_capacity capacity_loop
  nothing_stated = refl

  ensure_bucket_ok :
      (options : Dict String) (new : ℤ) (c : W.Client) (n : String) (s : W.State)
      → CanCreate (bucket s n) options new
      → ((ensure_bucket W c n options s).0 ≡ ok tt)
        × Suits (bucket (ensure_bucket W c n options s).1 n) new
  unfolding ensure_bucket unless_exists create_bucket bind
  ensure_bucket_ok options new c n s (inl (a, i, there, stated, fits)) =
      rw (attrs_up c n s a there) (refl, (a, i, attrs_keeps c n s n ∙ there, stated, fits))
  ensure_bucket_ok options new c n s (inr (missing, (p, given))) =
      elim (Outcome-cases (W.bucket_attrs c n s).0) [
        | inl (a, read) ↦ let there = attrs_ok c n s a read in cc
        | inr (e, failed) ↦
            let done = create_up c n p _ (W.bucket_attrs c n s).1 (attrs_keeps c n s n ∙ missing) in
            rw (failed, given)
              (
                relabel_ok_of _ _ done,
                (
                  record { labels = [] },
                  pos 0,
                  ap (λ u. bucket u n) (relabel_state _ _) ∙ create_ok c n p _ _ done,
                  nothing_stated,
                  refl,
                ),
              )
      ]

  create_in_ok :
      (options : Dict String) (new : ℤ) (c : W.Client) (s : W.State)
      → CanCreate (bucket s (text_or_empty (lookup flag_bucket options))) options new
      → (create_in W options new c s).0
        ≡ ok (record {
          volume_id = text_or_empty (lookup flag_bucket options);
          volume_context = options;
          capacity_bytes = new;
        })
  unfolding create_in
  create_in_ok options new c s can =
      let (made, suits) = ensure_bucket_ok options new c _ s can in
      bind_ok _ _ made (from_bucket_ok c _ new _ _ suits)

  module _ (claim : W.State → String × String → Option (Dict String))
      (cluster : IsClusterUp W claim) where
    -- On a day on which all calls are answered, `CreateVolume` succeeds: for a request with a name,
    -- with capabilities that are all mounts, and with no secrets or a key among them, if the claim
    -- that its parameters name is there, or they do not name one, and if the bucket of the options
    -- states no capacity or enough of it, or does not exist while the options have a project. The
    -- volume is the bucket, with the options, in which the annotations of that claim are merged, and
    -- the capacity. The hypotheses are `IsStorage`, `IsApart`, `IsUp` and `IsClusterUp`.
    pub create_volume_of_CanCreate :
        (req : CreateVolumeRequest) (s : W.State) (annotations : Dict String)
        → (req.name == "") ≡ false
        → is_empty req.volume_capabilities ≡ false
        → only_mounts req.volume_capabilities ≡ true
        → HasClaim W bucket storage apart claim cluster req s annotations
        → HasCredentials req.secrets
        → CanCreate
            (bucket s (text_or_empty (lookup flag_bucket (volume_options W req annotations))))
            (volume_options W req annotations)
            (required_or_zero req.required_bytes)
        → (create_volume W req s).0
          ≡ ok (record {
            volume_id = text_or_empty (lookup flag_bucket (volume_options W req annotations));
            volume_context = volume_options W req annotations;
            capacity_bytes = required_or_zero req.required_bytes;
          })
    unfolding create_volume reject bind
    create_volume_of_CanCreate req s annotations named capable mounts there credentials can =
        let options = volume_options W req annotations in
        let new = required_or_zero req.required_bytes in
        let n = text_or_empty (lookup flag_bucket options) in
        rw (named, capable, mounts)
          (behind_claim_ok W bucket storage apart claim cluster req s annotations _ there (λ t same.
            with_client_ok req.secrets _ t credentials (λ c u same'.
              create_in_ok options new c u
                (subst (λ b. CanCreate b options new) (sym (same' n ∙ same n)) can))))
