-- ===== src/Driver/Tests/Serving.antt =====
-- The driver that serves at the small site.
use csi_gcs.Base.{refl, true}
use csi_gcs.World.Laws.Model.{site}
use csi_gcs.Driver.Types.{GcsDriver, new_gcs_driver}
use csi_gcs.Driver.Server.{run}
use csi_gcs.Driver.Server.Model.{network}
use csi_gcs.Driver.Server.Laws.{Course, run-Course}
use csi_gcs.Driver.Tests.{start}

abbrev driver : GcsDriver
driver = new_gcs_driver "gcs.csi.ofek.dev" "node" "unix:///csi/csi.sock" "1.0" true

run-Course_example : Course site network driver start (run site network driver start)
unfolding new_gcs_driver
run-Course_example = run-Course site network driver start refl
