-- ===== src/Driver/Server/Laws.antt =====
-- How `Run` ends, from the endpoint to the server.
use csi_gcs.Base.{String, true, false, ◌==◌, ◌≡◌, refl, Bool-cases, inl, inr, if◌then◌else◌}
use csi_gcs.Go.{Outcome, ok, err, Error, bind, reject}
use csi_gcs.World.{World}
use csi_gcs.Util.BucketName.{lower_text}
use csi_gcs.Util.Endpoint.{Url}
use csi_gcs.Util.Endpoint.Laws.{
  address_of, is_cleared, free, Endpoint, malformed, no_socket, occupied, accepted,
  parse_endpoint-Endpoint,
}
use csi_gcs.Driver.Types.{GcsDriver}
use csi_gcs.Driver.Cleanup.{run_pod_cleanup}
use csi_gcs.Driver.Server.{Network, services, clean_up, run}

module _ (W : World) (net : Network W) where
  -- Behind the cleanup, whatever it returned.
  abbrev pub cleaned : GcsDriver → W.State → W.State
  cleaned d s = if d.delete_orphaned_pods then (run_pod_cleanup W d s).1 else s

  abbrev freed : Url → W.State → W.State
  freed u s = free W net.parse_url net.quote u s

  abbrev pub listening : Url → W.State → Outcome net.Listener × W.State
  listening u s = net.listen "unix" (address_of u) (freed u s)

  -- How `Run` ends: nothing listens, or the server serves.
  pub data Course (d : GcsDriver) (s : W.State) : Outcome (Unit {0}) × W.State → Type 0 where
    no_address :
        {e : Error} {t : W.State}
        → Endpoint W net.parse_url net.quote d.endpoint s (err e, t)
        → Course d s (err e, t)
    no_listener :
        {e : Error} (u : Url)
        → net.parse_url d.endpoint ≡ ok u
        → (listening u s).0 ≡ err e
        → Course d s (err e, (listening u s).1)
    serving :
        (u : Url) (l : net.Listener)
        → net.parse_url d.endpoint ≡ ok u
        → lower_text u.scheme ≡ "unix"
        → is_cleared (W.remove (address_of u) s).0 ≡ true
        → (listening u s).0 ≡ ok l
        → Course d s (net.serve d services l (cleaned d (listening u s).1))

  clean_up_lem :
      (d : GcsDriver) (l : net.Listener) (s : W.State)
      → bind (clean_up W net d s) (λ _. net.serve d services l)
        ≡ net.serve d services l (cleaned d s)
  unfolding clean_up bind
  clean_up_lem d l s = elim (Bool-cases d.delete_orphaned_pods) [
    | inl asked ↦ rw asked refl
    | inr other ↦ rw other refl
  ]

  listening-Course :
      (d : GcsDriver) (s : W.State) (u : Url) (r : Outcome net.Listener)
      → net.parse_url d.endpoint ≡ ok u
      → lower_text u.scheme ≡ "unix"
      → is_cleared (W.remove (address_of u) s).0 ≡ true
      → (listening u s).0 ≡ r
      → Course d s (
          bind
            (r, (listening u s).1)
            (λ l t. bind (clean_up W net d t) (λ _. net.serve d services l)))
  unfolding bind
  listening-Course d s u (ok l) found unix there e =
      rw (clean_up_lem d l (listening u s).1) (serving u l found unix there e)
  listening-Course d s u (err f) found unix there e = no_listener u found e

  endpoint-Course :
      (d : GcsDriver) (s : W.State) {r : Outcome (String × String) × W.State}
      → Endpoint W net.parse_url net.quote d.endpoint s r
      → Course d s (
          bind r (λ (scheme, address) t.
            bind
              (net.listen scheme address t)
              (λ l t. bind (clean_up W net d t) (λ _. net.serve d services l))))
  unfolding bind
  endpoint-Course d s (malformed e) = no_address (malformed e)
  endpoint-Course d s (no_socket u found other) = no_address (no_socket u found other)
  endpoint-Course d s (occupied u found there) = no_address (occupied u found there)
  endpoint-Course d s (accepted u found unix there) =
      rw unix (listening-Course d s u (listening u s).0 found unix there refl)

  -- `Run` serves the three services on the socket that the endpoint names, behind the removal of an
  -- old socket and, if the driver is to delete orphaned pods, behind the cleanup, whatever the
  -- cleanup returns; its result is the server's. It fails before that only if `ParseEndpoint` or
  -- `net.Listen` does, and then no pod is deleted. The driver has a mount point.
  pub run-Course :
      (d : GcsDriver) (s : W.State) → (d.mount_point == "") ≡ false → Course d s (run W net d s)
  unfolding run bind reject
  run-Course d s m =
      rw m (endpoint-Course d s (parse_endpoint-Endpoint W net.parse_url net.quote d.endpoint s))
