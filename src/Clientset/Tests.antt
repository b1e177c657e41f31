-- ===== src/Clientset/Tests.antt =====
-- The client set at concrete inputs, with the small API server behind it.
use csi_gcs.Base.{
  String, ◌≡◌, refl, Bool, false, pos, negsuc, IsInt64, ◌↔◌, none, some, [], ◌∷◌, Dict,
}
use csi_gcs.Api.{PublishedVolume}
use csi_gcs.World.Laws.Model.{Site}
use csi_gcs.Clientset.Request.{GetOptions}
use csi_gcs.Clientset.Typed.{RestConfig}
use csi_gcs.Clientset.PublishedVolumes.{PublishedVolumes, get_volume, update}
use csi_gcs.Clientset.PublishedVolumes.Timeout.{
  timeout, times_second, nanoseconds, IsShort, timeout_bounds,
}
use csi_gcs.Clientset.Server.Group.{group_root}
use csi_gcs.Clientset.Server.Model.{server_go, server_rest, live_at}
use csi_gcs.Clientset.Server.Answering.{server_go-IsServer}
use csi_gcs.Clientset.Server.Updates.{update-get_volume}

-- The config in the cluster, here with a limiter to share if `qps` is positive.
abbrev cluster_config : Bool → RestConfig server_go
cluster_config qps = record {
  group_version = none;
  api_path = "";
  negotiated_serializer = none;
  user_agent = "";
  rate_limiter = none;
  qps = qps;
  burst = pos 10;
  other = tt;
}

abbrev first_label : Dict String → String
first_label [] = ""
first_label ((key, value) ∷ labels) = value

abbrev volume : String → PublishedVolume
volume node = record {
  name = "3c6d35";
  labels = ("gcs.csi.ofek.dev/node", node) ∷ [];
  owner_references = [];
  spec = record {
    node = node;
    target_path = "/var/lib/kubelet/pods/1/mount";
    volume_handle = "bucket";
    options = [];
    pod = record { name = "app"; namespace = "default" };
  };
}

abbrev one_record : Site
one_record = record {
  bucket = λ _. none;
  exists = λ _. false;
  is_mounted = λ _. false;
  records = volume "node-1" ∷ [];
  running = λ _. false;
}

abbrev client : PublishedVolumes server_rest
client = record { client = group_root }

abbrev newest : GetOptions
newest = record { resource_version = "" }

update-get_volume_example :
    (get_volume server_rest client "3c6d35" newest
      (update server_rest client (volume "node-2") one_record).1).0.0
    ≡ volume "node-2"
unfolding get_volume update
update-get_volume_example =
    update-get_volume server_go (λ h. h) live_at (server_go-IsServer first_label) client
      (volume "node-2") (volume "node-1") newest one_record refl refl refl refl

timeout_bounds_example :
    IsInt64 (timeout (some (pos 9223372037)))
    × ((timeout (some (pos 9223372037)) ≡ nanoseconds (pos 9223372037)) ↔ IsShort (pos 9223372037))
timeout_bounds_example = timeout_bounds (pos 9223372037)

timeout_wraps : timeout (some (pos 9223372037)) ≡ negsuc 9223372036709551615
unfolding timeout times_second
timeout_wraps = refl
