-- ===== src/Api/Register.antt =====
-- pkg/apis/published-volume/v1beta1/register.go and the scheme/register.go of the client set: the
-- group of the custom resource, and its types in a scheme of k8s.io/apimachinery.
use csi_gcs.Base.{String, List, [], ◌∷◌}

pub record GroupVersion : Type 0 where
  pub group : String
  pub version : String

pub record GroupResource : Type 0 where
  pub group : String
  pub resource : String

abbrev pub scheme_group_version : GroupVersion
scheme_group_version = record { group = "gcs.csi.ofek.dev"; version = "v1beta1" }

-- `WithResource` and `GroupResource` put the two names side by side.
unfoldable pub resource : String → GroupResource
resource r = record { group = scheme_group_version.group; resource = r }

-- The types that are registered: the record of a mount, a list of them, and `metav1.Status`.
pub data KnownType : Type 0 where
  published_volume published_volume_list status : KnownType

-- `runtime.Scheme`, with `metav1.AddToGroupVersion`
pub record Schemes : Type 1 where
  pub Scheme : Type 0
  pub new_scheme : Scheme
  pub add_known_types : GroupVersion → List KnownType → Scheme → Scheme
  pub add_to_group_version : GroupVersion → Scheme → Scheme

module _ (K : Schemes) where
  -- It returns no error, and it is all that `AddToScheme` runs.
  unfoldable pub add_known_types : K.Scheme → K.Scheme
  add_known_types scheme =
      let first =
        K.add_known_types scheme_group_version (published_volume ∷ published_volume_list ∷ [])
          scheme in
      let second = K.add_known_types scheme_group_version (status ∷ []) first in
      K.add_to_group_version scheme_group_version second

  -- The scheme of the client set, behind its `init`.
  unfoldable pub client_scheme : K.Scheme
  client_scheme =
      add_known_types (K.add_to_group_version (record { group = ""; version = "v1" }) K.new_scheme)
