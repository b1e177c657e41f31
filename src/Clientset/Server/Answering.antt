-- ===== src/Clientset/Server/Answering.antt =====
-- What the client set relies on, of the small API server.
use mathlib.Core.List.{Memᴰ}
use csi_gcs.Base.{
  String, eq_iff, ◌≡◌, refl, Bool, true, false, Option, none, some, Dict, if◌then◌else◌,
}
use csi_gcs.Api.{PublishedVolume}
use csi_gcs.Api.Register.{GroupVersion}
use csi_gcs.Go.{Error, ok}
use csi_gcs.World.Laws.Model.{Site, found}
use csi_gcs.World.Laws.Model.Registry.{found-Mem, found-without}
use csi_gcs.Clientset.Request.{post, put, get, delete, volume_body, Request}
use csi_gcs.Clientset.Server.{Root, collection, IsServer}
use csi_gcs.Clientset.Server.Model.{
  is_mounts, posted, served, served_delete, rooted, server_go, live_at,
}

posted-found :
    (x : Option PublishedVolume) (v into : PublishedVolume) (s : Site)
    → (posted x v into s).0.1 ≡ none
    → found v.name (posted x v into s).1.records ≡ some v
posted-found none v into s e = rw ((eq_iff v.name v.name).1 refl) refl
posted-found (some w) v into s e = cc

post_lem :
    (b : Bool) (r : Request) (v into : PublishedVolume) (s : Site) (e : Error)
    → r.verb ≡ post
    → r.body ≡ some (volume_body v)
    → (if b then served r.verb r into s else ((into, some e), s)).0.1 ≡ none
    → (if b
        then found v.name (if b then served r.verb r into s else ((into, some e), s)).1.records
        else none)
      ≡ some v
post_lem true r v into s e posts body answer =
    rw (posts, body) (posted-found (found v.name s.records) v into s (rw (posts, body) at answer))
post_lem false r v into s e posts body answer = cc

put_lem :
    (b : Bool) (r : Request) (v into : PublishedVolume) (s : Site) (e : Error)
    → r.verb ≡ put
    → r.body ≡ some (volume_body v)
    → (if b then served r.verb r into s else ((into, some e), s)).0.1 ≡ none
    → (if b
        then found v.name (if b then served r.verb r into s else ((into, some e), s)).1.records
        else none)
      ≡ some v
put_lem true r v into s e puts body answer =
    rw (puts, body) (rw ((eq_iff v.name v.name).1 refl) refl)
put_lem false r v into s e puts body answer = cc

get_lem :
    (b : Bool) (r : Request) (n : String) (v into : PublishedVolume) (s : Site) (e : Error)
    → r.verb ≡ get
    → r.name ≡ some n
    → (if b then found n s.records else none) ≡ some v
    → (if b then served r.verb r into s else ((into, some e), s)).0.0 ≡ v
get_lem true r n v into s e gets name there = rw (gets, name) (rw there refl)
get_lem false r n v into s e gets name there = cc

delete_lem :
    (b : Bool) (r : Request) (n : String) (s : Site) (e : Error)
    → r.verb ≡ delete
    → r.name ≡ some n
    → (if b
        then found n (if b then served_delete r.verb r.name s else (some e, s)).1.records
        else none)
      ≡ none
delete_lem true r n s e deletes name = rw (deletes, name) (found-without s.records n)
delete_lem false r n s e deletes name = refl

there-Memᴰ :
    (b : Bool) (v : PublishedVolume) (s : Site)
    → (if b then found v.name s.records else none) ≡ some v
    → Memᴰ v s.records
there-Memᴰ true v s there = found-Mem s.records v.name v there
there-Memᴰ false v s there = cc

rooted_ok :
    (path : String) (group : Option GroupVersion) (h : Root) (gv : GroupVersion)
    → rooted path group ≡ ok h
    → group ≡ some gv
    → h ≡ record { api_path = path; group_version = gv }
rooted_ok path none h gv made is_set = cc
rooted_ok path (some old) h gv made is_set = let same : old ≡ gv = cc in rw (← same) (cc)

-- The server behaves as the client set relies on.
pub server_go-IsServer :
    (selector : Dict String → String) → IsServer server_go (λ h. h) selector live_at
server_go-IsServer selector = record {
  root_of_config = λ c s h gv made is_set. rooted_ok c.api_path c.group_version h gv made is_set;
  rest_client_keeps = λ c s k n. refl;
  discovery_keeps = λ c s k n. refl;
  limiter_keeps = λ q b s k n. refl;
  post_ok = λ h r v into s posts no_name no_sub body answer.
      post_lem (is_mounts (collection h r)) r v into s _ posts body answer;
  put_ok = λ h r v old into s puts name no_sub body there answer.
      put_lem (is_mounts (collection h r)) r v into s _ puts body answer;
  get_ok = λ h r o n v into s gets name no_sub options newest there answer.
      get_lem (is_mounts (collection h r)) r n v into s _ gets name there;
  delete_ok = λ h r o n s deletes name no_sub body wet answer.
      delete_lem (is_mounts (collection h r)) r n s _ deletes name;
  list_keeps = λ h r into s k n gets no_name. refl;
  list_ok = λ h r o labels v into s gets no_name no_sub options asks answer there carries.
      there-Memᴰ (is_mounts (collection h r)) v s there;
}
