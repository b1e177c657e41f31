-- ===== src/Driver/Version.antt =====
-- pkg/driver/version.go. What package runtime says of the build is a parameter, as is how
-- encoding/json writes a text, with its quotation marks.
use csi_gcs.Base.{String, ◌<>◌, [], ◌∷◌, Dict}
use csi_gcs.Go.{Outcome, ok}

-- `runtime.Version()`, `runtime.Compiler`, `runtime.GOOS` and `runtime.GOARCH`
pub record Runtime : Type 0 where
  pub version : String
  pub compiler : String
  pub goos : String
  pub goarch : String

pub record VersionInfo : Type 0 where
  pub driver_version : String
  pub go_version : String
  pub compiler : String
  pub platform : String

-- `driverVersion` is set by the build.
unfoldable pub get_version : String → Runtime → VersionInfo
get_version driver_version r = record {
  driver_version = driver_version;
  go_version = r.version;
  compiler = r.compiler;
  platform = r.goos <> ("/" <> r.goarch);
}

-- The tags of the fields, in their order.
unfoldable pub version_fields : VersionInfo → Dict String
version_fields v =
    ("driverVersion", v.driver_version)
    ∷ ("goVersion", v.go_version)
    ∷ ("compiler", v.compiler)
    ∷ ("platform", v.platform)
    ∷ []

-- `json.MarshalIndent(&versionInfo, "", "  ")` of a struct of texts, which has no error.
module _ (json_text : String → String) where
  unfoldable pub json_field : String → String → String
  json_field key value = "  " <> (json_text key <> (": " <> json_text value))

  unfoldable pub json_fields : Dict String → String
  json_fields [] = ""
  json_fields ((key, value) ∷ []) = json_field key value <> "\n"
  json_fields ((key, value) ∷ next ∷ fields) =
      json_field key value <> (",\n" <> json_fields (next ∷ fields))

  unfoldable pub marshal_indent : Dict String → Outcome String
  marshal_indent fields = ok ("{\n" <> (json_fields fields <> "}"))

  unfoldable pub get_version_json : String → Runtime → Outcome String
  get_version_json driver_version r = marshal_indent (version_fields (get_version driver_version r))
