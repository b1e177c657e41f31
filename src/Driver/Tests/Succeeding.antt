-- ===== src/Driver/Tests/Succeeding.antt =====
-- Handlers that succeed, at a site that answers all calls.
use csi_gcs.Base.{
  String, ◌≡◌, refl, true, false, some, or_else, [], ◌∷◌, pos, Dict, List, eq_iff, arith, lookup,
  inl, inr,
}
use csi_gcs.Strconv.{parse_int, parse_uint, scan, digit_value, underscore_ok}
use csi_gcs.Go.{ok}
use csi_gcs.Flags.Names.{flag_bucket}
use csi_gcs.Flags.Switches.{is_flag}
use csi_gcs.Flags.Switches.Laws.{annotation_of_flag}
use csi_gcs.World.Laws.Model.{Site}
use csi_gcs.World.Laws.Model.Storage.{bucket_of}
use csi_gcs.World.Laws.Answering.{
  answering, answering-IsStorage, answering-IsAtomic, answering-IsApart, answering-IsUp,
  answering-IsNodeUp, claim_bucket, claim_at, answering-IsClusterUp,
}
use csi_gcs.Util.Capacity.{bucket_capacity, capacity_loop, parsed_capacity}
use csi_gcs.Driver.Types.{GcsDriver, new_gcs_driver, mount, only_mounts, text_or_empty}
use csi_gcs.Driver.Controller.{
  CreateVolumeRequest, Volume, volume_options, create_volume, controller_expand_volume,
}
use csi_gcs.Driver.Volumes.{AtLeast}
use csi_gcs.Driver.Volumes.Buckets.{volumes}
use csi_gcs.Driver.Volumes.Requests.{
  Request, create_volume_request, delete_volume_request, expand_volume_request, run,
}
use csi_gcs.Driver.Volumes.Kept.{AllSpare, run-create_volume}
use csi_gcs.Driver.Controller.Options.{HasMaps, lookup-volume_options}
use csi_gcs.Driver.Controller.Claims.{HasClaim}
use csi_gcs.Driver.Controller.Succeeds.{HasCredentials, CanCreate, create_volume_of_CanCreate}
use csi_gcs.Driver.Controller.Succeeds.Existing.{controller_expand_volume_of_HasCredentials}
use csi_gcs.Driver.Node.{node_unpublish_volume}
use csi_gcs.Driver.Node.Succeeds.{node_unpublish_volume_of_IsNodeUp}
use csi_gcs.Driver.Tests.{start, expand_request}

abbrev named_bucket : CreateVolumeRequest
named_bucket = record {
  name = "pv-one";
  volume_capabilities = mount [] ∷ [];
  secrets = ("key", "{}") ∷ [];
  parameters = some (
      ("csi.storage.k8s.io/pvc/name", "data")
      ∷ ("csi.storage.k8s.io/pvc/namespace", "default")
      ∷ ("gcs.csi.ofek.dev/gid", "1000")
      ∷ []);
  required_bytes = some (pos 512);
}

abbrev options : Dict String
options = volume_options answering named_bucket claim_bucket

named_bucket-HasMaps : HasMaps named_bucket claim_bucket
unfolding lookup
named_bucket-HasMaps = record {
  secrets = (refl, tt);
  parameters = ground arith;
  claim = (refl, tt);
}

bucket_found : lookup flag_bucket options ≡ some "pv"
unfolding is_flag annotation_of_flag lookup or_else
bucket_found =
    lookup-volume_options answering named_bucket claim_bucket named_bucket-HasMaps "bucket"

capacity_stated : bucket_capacity (record { labels = ("capacity", "1024") ∷ [] }) ≡ ok (pos 1024)
unfolding bucket_capacity capacity_loop parsed_capacity parse_int parse_uint scan digit_value
    underscore_ok
capacity_stated = refl

key-HasCredentials : HasCredentials (("key", "{}") ∷ [])
unfolding lookup
key-HasCredentials = inr ("{}", refl, refl)

named_bucket-CanCreate :
    CanCreate (bucket_of start (text_or_empty (lookup flag_bucket options))) options (pos 512)
named_bucket-CanCreate =
    rw bucket_found
      (inl (record { labels = ("capacity", "1024") ∷ [] }, pos 1024, refl, capacity_stated, refl))

claimed :
    (s : Site)
    → HasClaim answering bucket_of answering-IsStorage answering-IsApart claim_at
        answering-IsClusterUp named_bucket s claim_bucket
unfolding lookup
claimed s = refl

all_mounts : only_mounts named_bucket.volume_capabilities ≡ true
unfolding only_mounts
all_mounts = refl

create_volume_of_CanCreate_example :
    (create_volume answering named_bucket start).0
    ≡ ok (record {
      volume_id = text_or_empty (lookup flag_bucket options);
      volume_context = options;
      capacity_bytes = pos 512;
    })
create_volume_of_CanCreate_example =
    create_volume_of_CanCreate answering bucket_of answering-IsStorage answering-IsApart
      answering-IsUp claim_at answering-IsClusterUp named_bucket start claim_bucket refl refl
      all_mounts (claimed start) key-HasCredentials named_bucket-CanCreate

abbrev created : Volume
created = record {
  volume_id = text_or_empty (lookup flag_bucket options);
  volume_context = options;
  capacity_bytes = pos 512;
}

abbrev later : List Request
later =
    expand_volume_request expand_request
    ∷ create_volume_request named_bucket
    ∷ delete_volume_request "other" []
    ∷ []

later-AllSpare : AllSpare (text_or_empty (lookup flag_bucket options)) later
later-AllSpare =
    rw bucket_found
      (omega arith, ((omega arith, refl), ((λ e. cc ((eq_iff "other" "pv").1 e)), tt)))

run-create_volume_example : AtLeast (pos 512) (
    volumes answering bucket_of
      (run answering later (create_volume answering named_bucket start).1)
      created.volume_id)
run-create_volume_example =
    run-create_volume answering bucket_of answering-IsStorage answering-IsAtomic answering-IsApart
      named_bucket start created later (omega arith)
      (create_volume_of_CanCreate answering bucket_of answering-IsStorage answering-IsApart
        answering-IsUp claim_at answering-IsClusterUp named_bucket start claim_bucket refl refl
        all_mounts (claimed start) key-HasCredentials named_bucket-CanCreate)
      later-AllSpare

controller_expand_volume_of_HasCredentials_example :
    (controller_expand_volume answering expand_request start).0
    ≡ ok (record { capacity_bytes = pos 4096; node_expansion_required = false })
controller_expand_volume_of_HasCredentials_example =
    controller_expand_volume_of_HasCredentials answering bucket_of answering-IsStorage
      answering-IsApart answering-IsUp expand_request start
      (record { labels = ("capacity", "1024") ∷ [] }) (pos 1024) refl key-HasCredentials refl
      capacity_stated

abbrev driver : GcsDriver
driver = new_gcs_driver "gcs.csi.ofek.dev" "node" "unix:///csi.sock" "1.0" true

node_unpublish_volume_of_IsNodeUp_example :
    (node_unpublish_volume answering driver "pv" "/pods/one" start).0 ≡ ok tt
node_unpublish_volume_of_IsNodeUp_example =
    node_unpublish_volume_of_IsNodeUp answering bucket_of answering-IsStorage answering-IsApart
      answering-IsUp answering-IsNodeUp driver "pv" "/pods/one" start refl refl
