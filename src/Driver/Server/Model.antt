-- ===== src/Driver/Server/Model.antt =====
-- A small network for the examples.
use csi_gcs.Go.{ok, pure}
use csi_gcs.World.Laws.Model.{site}
use csi_gcs.Driver.Server.{Network}

-- A network on which every endpoint names one socket, and the server stops at once.
abbrev pub network : Network site
network = record {
  Listener = Unit {0};
  listen = λ scheme address. pure tt;
  serve = λ d services l. pure tt;
  stop_server = λ s. s;
  parse_url = λ endpoint. ok (record { scheme = "unix"; host = ""; path = "/csi/csi.sock" });
  quote = λ text. text;
}
