-- ===== src/Driver/Tests/Sparing.antt =====
-- A cleanup beside a record of another node, at a site whose lists go by the labels.
use mathlib.Core.List.{Memᴰ}
use csi_gcs.Base.{
  String, ◌==◌, eq_iff, ◌≡◌, ◌≢◌, refl, sym, ap, subst, ◌∙◌, arith, Bool, true, false, ◌&&◌,
  Bool-cases, inl, inr, Option, none, some, List, [], ◌∷◌, Dict, lookup, if◌then◌else◌,
}
use csi_gcs.Api.{PublishedVolume}
use csi_gcs.Go.{ok}
use csi_gcs.World.{World}
use csi_gcs.World.Registry.{Carries}
use csi_gcs.World.Laws.Model.{Site, site, stopped}
use csi_gcs.World.Laws.Model.Registry.{running_at}
use csi_gcs.Driver.Types.{GcsDriver, new_gcs_driver}
use csi_gcs.Driver.Cleanup.{run_pod_cleanup}
use csi_gcs.Driver.Cleanup.Spared.{IsExact, pod_named, node_label, run_pod_cleanup-spared}
use csi_gcs.Driver.Tests.{start}

abbrev has_value : Option String → String → Bool
has_value none value = false
has_value (some old) value = old == value

abbrev carries : Dict String → PublishedVolume → Bool
carries [] v = true
carries ((key, value) ∷ labels) v = has_value (lookup key v.labels) value && carries labels v

abbrev carrying : Dict String → List PublishedVolume → List PublishedVolume
carrying labels [] = []
carrying labels (v ∷ vs) = if carries labels v then v ∷ carrying labels vs else carrying labels vs

abbrev tidy : World
tidy = record site { list_published_volumes = λ c labels s. (ok (carrying labels s.records), s) }

has_value-some : (o : Option String) (value : String) → has_value o value ≡ true → o ≡ some value
has_value-some none value h = cc
has_value-some (some old) value h = ap some ((eq_iff old value).0 h)

both : (a b : Bool) → (a && b) ≡ true → (a ≡ true) × (b ≡ true)
both true b h = (refl, h)
both false b h = cc

carries-Carries :
    (labels : Dict String) (v : PublishedVolume) → carries labels v ≡ true → Carries labels v
carries-Carries [] v h = tt
carries-Carries ((key, value) ∷ labels) v h =
    let (first, rest) = both (has_value (lookup key v.labels) value) (carries labels v) h in
    (has_value-some _ value first, carries-Carries labels v rest)

carrying-Memᴰ :
    (labels : Dict String) (vs : List PublishedVolume) (v : PublishedVolume)
    → Memᴰ v (carrying labels vs)
    → Memᴰ v vs × Carries labels v
carrying-Memᴰ labels [] v m = elim m [ ]
carrying-Memᴰ labels (w ∷ vs) v m = elim (Bool-cases (carries labels w)) [
  | inl fits ↦ first (rw fits at m) (carries-Carries labels w fits) (carrying-Memᴰ labels vs v)
  | inr other ↦
      (let (there, found) = carrying-Memᴰ labels vs v (rw other at m) in (Memᴰ.tail there, found))
]
  where
    first :
        Memᴰ v (w ∷ carrying labels vs)
        → Carries labels w
        → (Memᴰ v (carrying labels vs) → Memᴰ v vs × Carries labels v)
        → Memᴰ v (w ∷ vs) × Carries labels v
    first (Memᴰ.head e) known rest = (Memᴰ.head e, subst (Carries labels) (sym e) known)
    first (Memᴰ.tail there) known rest = (Memᴰ.tail (rest there).0, (rest there).1)

stopped_other :
    (namespace name n m : String) (running : String × String → Bool)
    → ◌≢◌ {A = String × String} (namespace, name) (n, m)
    → stopped (namespace, name) running (n, m) ≡ running (n, m)
stopped_other namespace name n m running other = ground (arith, eq_iff namespace n, eq_iff name m)

tidy-IsExact : IsExact tidy running_at (λ s v. Memᴰ v s.records)
tidy-IsExact = record {
  list_sound = λ c labels s vs v listed m.
      carrying-Memᴰ labels s.records v
        (let same : carrying labels s.records ≡ vs = cc in subst (Memᴰ v) (sym same) m);
  config_kept = λ s v m. m;
  gcs_kept = λ c s v m. m;
  config_keeps = λ s pod. refl;
  core_keeps = λ c s pod. refl;
  gcs_keeps = λ c s pod. refl;
  list_keeps = λ c labels s pod. refl;
  delete_other =
      λ c namespace name s (n, m) other. stopped_other namespace name n m s.running other;
}

abbrev mount_of : String → String → String → PublishedVolume
mount_of record_name node pod = record {
  name = record_name;
  labels = ("gcs.csi.ofek.dev/node", node) ∷ [];
  owner_references = [];
  spec = record {
    node = node;
    target_path = "/pods/one";
    volume_handle = "pv";
    options = [];
    pod = record { name = pod; namespace = "default" };
  };
}

abbrev two_nodes : Site
two_nodes = record start { records = mount_of "1a" "node" "web" ∷ mount_of "2b" "other" "db" ∷ [] }

abbrev driver : GcsDriver
driver = new_gcs_driver "gcs.csi.ofek.dev" "node" "unix:///csi.sock" "1.0" true

differing : (a b : String) → (a == b) ≡ false → a ≢ b
differing a b differs same = cc ((eq_iff a b).1 same)

others_named :
    (v : PublishedVolume)
    → Memᴰ v two_nodes.records
    → Carries (node_label "node") v
    → pod_named v ≢ ("default", "db")
unfolding lookup
others_named v (Memᴰ.head e) known same = differing "web" "db" refl (
    ap (λ (w : PublishedVolume). w.spec.pod.name) (sym e)
    ∙ ap (λ (pod : String × String). pod.1) same)
others_named v (Memᴰ.tail (Memᴰ.head e)) known same =
    let labelled : ◌≡◌ {A = Option String} (some "other") (some "node") =
      ap (λ (w : PublishedVolume). lookup "gcs.csi.ofek.dev/node" w.labels) (sym e) ∙ known.0 in
    differing "other" "node" refl (cc labelled)
others_named v (Memᴰ.tail (Memᴰ.tail m)) known same = elim m [ ]

run_pod_cleanup-spared_example :
    running_at (run_pod_cleanup tidy driver two_nodes).1 ("default", "db") ≡ true
unfolding new_gcs_driver
run_pod_cleanup-spared_example =
    run_pod_cleanup-spared tidy running_at (λ s v. Memᴰ v s.records) tidy-IsExact ("default", "db")
      driver two_nodes others_named
