-- ===== src/Clientset/PublishedVolumes.antt =====
-- pkg/client/clientset/clientset/typed/published-volume/v1beta1/publishedvolume.go: the requests for
-- the records of mounts.
pub mod Timeout
use csi_gcs.Base.{String, true, ℤ, Option, none, some, List, [], ℕ}
use csi_gcs.Api.{PublishedVolume, PublishedVolumeList}
use csi_gcs.Go.{M, Error}
use csi_gcs.Clientset.Request.{
  Verb, post, put, get, delete, patch, GetOptions, ListOptions, DeleteOptions, Parameters,
  get_options, list_options, Body, volume_body, delete_body, bytes_body, Request, Rest,
}
use csi_gcs.Clientset.PublishedVolumes.Timeout.{timeout}

-- `&v1beta1.PublishedVolume{}`
abbrev pub empty_volume : PublishedVolume
empty_volume = record {
  name = "";
  labels = [];
  owner_references = [];
  spec = record {
    node = "";
    target_path = "";
    volume_handle = "";
    options = [];
    pod = record { name = ""; namespace = "" };
  };
}

-- `&v1beta1.PublishedVolumeList{}`
abbrev pub empty_list : PublishedVolumeList
empty_list = record { list_meta = record { resource_version = ""; continue = "" }; items = [] }

-- A request as the builder starts it, for the resource.
abbrev pub request : Verb → Request
request v = record {
  verb = v;
  patch_type = none;
  resource = "publishedvolumes";
  name = none;
  subresources = [];
  parameters = none;
  timeout = none;
  body = none;
}

module _ {S : Type 0} (R : Rest S) where
  -- `publishedVolumes` implements `PublishedVolumeInterface`.
  pub record PublishedVolumes : Type 0 where
    pub client : R.Interface

  unfoldable pub get_volume :
      PublishedVolumes → String → GetOptions → S → (PublishedVolume × Option Error) × S
  get_volume c name options =
      R.into_volume c.client
        (record (request get) { name = some name; parameters = some (get_options options) })
        empty_volume

  unfoldable pub list :
      PublishedVolumes → ListOptions → S → (PublishedVolumeList × Option Error) × S
  list c opts =
      R.into_list c.client
        (record (request get) {
          parameters = some (list_options opts);
          timeout = some (timeout opts.timeout_seconds);
        })
        empty_list

  unfoldable pub watch : PublishedVolumes → ListOptions → M S R.WatchInterface
  watch c opts = R.watch_request c.client (record (request get) {
    parameters = some (list_options (record opts { watch = true }));
    timeout = some (timeout opts.timeout_seconds);
  })

  unfoldable pub create :
      PublishedVolumes → PublishedVolume → S → (PublishedVolume × Option Error) × S
  create c published_volume =
      R.into_volume c.client (record (request post) { body = some (volume_body published_volume) })
        empty_volume

  unfoldable pub update :
      PublishedVolumes → PublishedVolume → S → (PublishedVolume × Option Error) × S
  update c published_volume =
      R.into_volume c.client
        (record (request put) {
          name = some published_volume.name;
          body = some (volume_body published_volume);
        })
        empty_volume

  unfoldable pub delete_volume :
      PublishedVolumes → String → Option DeleteOptions → S → Option Error × S
  delete_volume c name options =
      R.do_error c.client
        (record (request delete) { name = some name; body = some (delete_body options) })

  unfoldable pub delete_collection :
      PublishedVolumes → Option DeleteOptions → ListOptions → S → Option Error × S
  delete_collection c options list_opts = R.do_error c.client (record (request delete) {
    parameters = some (list_options list_opts);
    timeout = some (timeout list_opts.timeout_seconds);
    body = some (delete_body options);
  })

  unfoldable pub patch_volume :
      PublishedVolumes
      → String
      → String
      → List ℕ
      → List String
      → S
      → (PublishedVolume × Option Error) × S
  patch_volume c name pt bytes subresources =
      R.into_volume c.client
        (record (request patch) {
          patch_type = some pt;
          subresources = subresources;
          name = some name;
          body = some (bytes_body bytes);
        })
        empty_volume
