-- ===== src/Clientset/Server/Model.antt =====
-- A small API server over the records of the site of `World.Laws.Model`, which keeps one collection.
use csi_gcs.Base.{String, ◌==◌, ◌&&◌, Bool, Option, none, some, ◌∷◌, if◌then◌else◌}
use csi_gcs.Api.{PublishedVolume}
use csi_gcs.Api.Register.{GroupVersion}
use csi_gcs.Go.{Error, errorf, Outcome, ok, err, pure}
use csi_gcs.World.Laws.Model.{Site, found, without}
use csi_gcs.Clientset.Request.{
  Verb, post, put, get, delete, patch, Body, volume_body, Request, Rest,
}
use csi_gcs.Clientset.ClientGo.{ClientGo}
use csi_gcs.Clientset.Server.{Root, Collection, collection}
use csi_gcs.Clientset.Server.Group.{group_root, mounts}

abbrev pub is_mounts : Collection → Bool
is_mounts k =
    (k.root.api_path == mounts.root.api_path)
    && (k.root.group_version.group == mounts.root.group_version.group)
    && (k.root.group_version.version == mounts.root.group_version.version)
    && (k.resource == mounts.resource)

abbrev pub Reply : Type 0
Reply = (PublishedVolume × Option Error) × Site

abbrev pub refused : String → PublishedVolume → Site → Reply
refused text into s = ((into, some (errorf text)), s)

abbrev pub posted : Option PublishedVolume → PublishedVolume → PublishedVolume → Site → Reply
posted none v into s = ((v, none), record s { records = v ∷ s.records })
posted (some w) v into s = refused "already exists" into s

abbrev pub served_post : Option Body → PublishedVolume → Site → Reply
served_post (some (volume_body v)) into s = posted (found v.name s.records) v into s
served_post _ into s = refused "bad request" into s

abbrev pub served_put : Option Body → PublishedVolume → Site → Reply
served_put (some (volume_body v)) into s =
    ((v, none), record s { records = v ∷ without v.name s.records })
served_put _ into s = refused "bad request" into s

abbrev pub read : Option PublishedVolume → PublishedVolume → Site → Reply
read none into s = refused "not found" into s
read (some v) into s = ((v, none), s)

abbrev pub served_get : Option String → PublishedVolume → Site → Reply
served_get none into s = refused "bad request" into s
served_get (some n) into s = read (found n s.records) into s

abbrev pub served : Verb → Request → PublishedVolume → Site → Reply
served post r into s = served_post r.body into s
served put r into s = served_put r.body into s
served get r into s = served_get r.name into s
served delete r into s = refused "not supported" into s
served patch r into s = refused "not supported" into s

abbrev pub served_delete : Verb → Option String → Site → Option Error × Site
served_delete delete (some n) s = (none, record s { records = without n s.records })
served_delete _ _ s = (some (errorf "not supported"), s)

abbrev pub server_rest : Rest Site
server_rest = record {
  Interface = Root;
  WatchInterface = Unit {0};
  into_volume = λ h r into s.
      if is_mounts (collection h r) then served r.verb r into s else refused "not found" into s;
  into_list = λ h r into s. (
    (
      record into { items = s.records },
      if is_mounts (collection h r) then none else some (errorf "not found"),
    ),
    s,
  );
  do_error = λ h r s.
      if is_mounts (collection h r)
      then served_delete r.verb r.name s
      else (some (errorf "not found"), s);
  watch_request = λ h r. pure tt;
}

abbrev pub rooted : String → Option GroupVersion → Outcome Root
rooted path none = err (errorf "GroupVersion is required when initializing a RESTClient")
rooted path (some gv) = ok (record { api_path = path; group_version = gv })

abbrev pub server_go : ClientGo Site
server_go = record {
  rest = server_rest;
  schemes = record {
    Scheme = Unit {0};
    new_scheme = tt;
    add_known_types = λ gv types scheme. scheme;
    add_to_group_version = λ gv scheme. scheme;
  };
  Float = Bool;
  RateLimiter = Unit {0};
  Serializer = Unit {0};
  Other = Unit {0};
  DiscoveryClient = Unit {0};
  is_positive = λ q. q;
  nil = group_root;
  new_token_bucket_rate_limiter = λ q b s. (tt, s);
  without_conversion = λ scheme. tt;
  default_kubernetes_user_agent = "csi-gcs";
  rest_client_for = λ c s. (rooted c.api_path c.group_version, s);
  new_discovery_client_for_config = λ c. pure tt;
  new_discovery_client = λ h. tt;
}

abbrev pub live_at : Site → Collection → String → Option PublishedVolume
live_at s k n = if is_mounts k then found n s.records else none
