-- ===== src/Util/Endpoint/Laws.antt =====
-- Which endpoints `ParseEndpoint` accepts.
use csi_gcs.Base.{
  String, Bool, true, false, ◌==◌, eq_iff, ◌≡◌, refl, Bool-cases, inl, inr, if◌then◌else◌,
}
use csi_gcs.Go.{Outcome, ok, err, Error, is_not_exist, bind, relabel}
use csi_gcs.Go.Path.{path_join}
use csi_gcs.World.{World}
use csi_gcs.Util.BucketName.{lower_text}
use csi_gcs.Util.Endpoint.{Url, removed, parse_endpoint}

abbrev pub address_of : Url → String
address_of u = if u.host == "" then u.path else path_join u.host u.path

-- There is no socket behind the removal.
abbrev pub is_cleared : Outcome (Unit {0}) → Bool
is_cleared (ok _) = true
is_cleared (err e) = is_not_exist e

module _ (W : World) (parse_url : String → Outcome Url) (quote : String → String) where
  -- The state behind the removal of a socket that was left.
  abbrev pub free : Url → W.State → W.State
  free u s = (W.remove (address_of u) s).1

  -- How `ParseEndpoint` ends.
  pub data Endpoint (endpoint : String) (s : W.State)
      : Outcome (String × String) × W.State → Type 0 where
    malformed : {e f : Error} → parse_url endpoint ≡ err f → Endpoint endpoint s (err e, s)
    no_socket :
        {e : Error} (u : Url)
        → parse_url endpoint ≡ ok u
        → (lower_text u.scheme == "unix") ≡ false
        → Endpoint endpoint s (err e, s)
    occupied :
        {e : Error} (u : Url)
        → parse_url endpoint ≡ ok u
        → is_cleared (W.remove (address_of u) s).0 ≡ false
        → Endpoint endpoint s (err e, free u s)
    accepted :
        (u : Url)
        → parse_url endpoint ≡ ok u
        → lower_text u.scheme ≡ "unix"
        → is_cleared (W.remove (address_of u) s).0 ≡ true
        → Endpoint endpoint s (ok (lower_text u.scheme, address_of u), free u s)

  abbrev try_remove :
      String → String → W.State → Outcome (Unit {0}) → Outcome (String × String) × W.State
  try_remove scheme address t r =
      bind (removed W parse_url quote address r t) (λ _ s. (ok (scheme, address), s))

  removed-Endpoint :
      (endpoint : String) (s : W.State) (u : Url) (r : Outcome (Unit {0}))
      → parse_url endpoint ≡ ok u
      → lower_text u.scheme ≡ "unix"
      → (W.remove (address_of u) s).0 ≡ r
      → Endpoint endpoint s (try_remove (lower_text u.scheme) (address_of u) (free u s) r)
  unfolding removed bind
  removed-Endpoint endpoint s u (ok _) found unix e = accepted u found unix (rw e refl)
  removed-Endpoint endpoint s u (err f) found unix e = elim (Bool-cases (is_not_exist f)) [
    | inl missing ↦ rw missing (accepted u found unix (rw e missing))
    | inr there ↦ rw there (occupied u found (rw e there))
  ]

  url-Endpoint :
      (endpoint : String) (s : W.State) (x : Outcome Url)
      → parse_url endpoint ≡ x
      → Endpoint endpoint s (parse_endpoint W parse_url quote endpoint s)
  unfolding parse_endpoint bind relabel
  url-Endpoint endpoint s (err f) e = rw e (malformed e)
  url-Endpoint endpoint s (ok u) e = rw e (elim (Bool-cases (lower_text u.scheme == "unix")) [
    | inl unix ↦ rw unix (
        removed-Endpoint endpoint s u (W.remove (address_of u) s).0 e
          ((eq_iff (lower_text u.scheme) "unix").0 unix) refl)
    | inr other ↦ rw other (no_socket u e other)
  ])

  -- `ParseEndpoint` accepts an endpoint if it is a URL whose scheme is "unix" in any case, and the
  -- socket that was left at its address is removed or was not there; it gives that address. On every
  -- other way it fails: before any call, if there is no such URL, and else behind the removal.
  pub parse_endpoint-Endpoint :
      (endpoint : String) (s : W.State)
      → Endpoint endpoint s (parse_endpoint W parse_url quote endpoint s)
  parse_endpoint-Endpoint endpoint s = url-Endpoint endpoint s (parse_url endpoint) refl
