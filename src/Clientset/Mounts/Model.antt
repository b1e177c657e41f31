-- ===== src/Clientset/Mounts/Model.antt =====
-- What the small API server does to the mount points of its site.
use csi_gcs.Base.{String, ◌≡◌, refl, Bool, true, false, Option, none, some, if◌then◌else◌}
use csi_gcs.Api.{PublishedVolume}
use csi_gcs.World.Laws.Model.{Site, found}
use csi_gcs.World.Laws.Model.Mounting.{mounted_at}
use csi_gcs.Clientset.Request.{
  Verb, post, put, get, delete, patch, Body, volume_body, delete_body, bytes_body, Request,
}
use csi_gcs.Clientset.Server.{collection}
use csi_gcs.Clientset.Server.Model.{
  is_mounts, posted, served_post, served_put, read, served_get, served, served_delete, server_go,
}
use csi_gcs.Clientset.Mounts.{IsMountless}

module _ (s : Site) (path : String) where
  -- A reply behind which the mount points are those of `s`.
  abbrev Still : {A : Type 0} → A × Site → Type 0
  Still reply = mounted_at reply.1 path ≡ mounted_at s path

  served_post-Still : (b : Option Body) (into : PublishedVolume) → Still (served_post b into s)
  served_post-Still none into = refl
  served_post-Still (some (volume_body v)) into = by_found (found v.name s.records)
    where
      by_found : (x : Option PublishedVolume) → Still (posted x v into s)
      by_found none = refl
      by_found (some w) = refl
  served_post-Still (some (delete_body o)) into = refl
  served_post-Still (some (bytes_body b)) into = refl

  served_put-Still : (b : Option Body) (into : PublishedVolume) → Still (served_put b into s)
  served_put-Still none into = refl
  served_put-Still (some (volume_body v)) into = refl
  served_put-Still (some (delete_body o)) into = refl
  served_put-Still (some (bytes_body b)) into = refl

  read-Still : (x : Option PublishedVolume) (into : PublishedVolume) → Still (read x into s)
  read-Still none into = refl
  read-Still (some v) into = refl

  served_get-Still : (n : Option String) (into : PublishedVolume) → Still (served_get n into s)
  served_get-Still none into = refl
  served_get-Still (some n) into = read-Still (found n s.records) into

  served-Still : (v : Verb) (r : Request) (into : PublishedVolume) → Still (served v r into s)
  served-Still post r into = served_post-Still r.body into
  served-Still put r into = served_put-Still r.body into
  served-Still get r into = served_get-Still r.name into
  served-Still delete r into = refl
  served-Still patch r into = refl

  served_delete-Still : (v : Verb) (n : Option String) → Still (served_delete v n s)
  served_delete-Still post n = refl
  served_delete-Still put n = refl
  served_delete-Still get n = refl
  served_delete-Still patch n = refl
  served_delete-Still delete none = refl
  served_delete-Still delete (some n) = refl

  either-Still :
      {A : Type 0} (b : Bool) (x y : A × Site) → Still x → Still y → Still (if b then x else y)
  either-Still true x y first second = first
  either-Still false x y first second = second

pub server_go-IsMountless : IsMountless server_go mounted_at
server_go-IsMountless = record {
  rest_client_keeps = λ c s p. refl;
  discovery_keeps = λ c s p. refl;
  limiter_keeps = λ q b s p. refl;
  volume_keeps = λ h r into s p.
      either-Still s p (is_mounts (collection h r)) _ _ (served-Still s p r.verb r into) refl;
  error_keeps = λ h r s p.
      either-Still s p (is_mounts (collection h r)) _ _ (served_delete-Still s p r.verb r.name)
        refl;
}
