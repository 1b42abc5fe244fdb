-- ===== src/Witnesses/Data.antt =====
-- A small topology: one VIM, one network, one PDU.
use e_pem.Prelude.{String, true, false, none, some, [], ◌∷◌}
use e_pem.Network.{
  NetworkTypeEnum, IPv4Pool, IPv4ReservedRange, IPv4Network, NetworkModel, PduType, PduModel,
}
use e_pem.Vim.{VimModel}
use e_pem.TopologyModel.{TopologyModel}
use e_pem.Topology.{Topology}
use e_pem.PduProvider.{PduProvider}

abbrev pub cidr : IPv4Network
cidr = record { network_address = 2560; prefixlen = 24 }

abbrev pub pool : IPv4Pool
pool = record { start = 2600; end = 2610 }

abbrev pub held_pool : IPv4Pool
held_pool = record { start = 2620; end = 2630 }

abbrev pub held : IPv4ReservedRange
held = record { pool = held_pool; owner = "b1" }

abbrev pub mgmt : NetworkModel
mgmt = record {
  name = "mgmt";
  external = false;
  type = NetworkTypeEnum.flat;
  ids = [];
  cidr = cidr;
  allocation_pool = pool ∷ [];
  reserved_ranges = held ∷ [];
}

abbrev pub new_pool : IPv4Pool
new_pool = record { start = 2564; end = 2584 }

abbrev pub new_range : IPv4ReservedRange
new_range = record { pool = new_pool; owner = "b2" }

abbrev pub vim : VimModel
vim = record {
  name = "vim0";
  use_floating_ip = false;
  networks = "mgmt" ∷ [];
  routers = [];
  areas = 0 ∷ [];
}

abbrev pub gnb : PduModel
gnb = record {
  name = "gnb0";
  area = 0;
  type = PduType.gnb;
  instance_type = "UERANSIM";
  network_interfaces = [];
  locked_by = none;
}

abbrev pub topology_model : TopologyModel
topology_model = record {
  vims = vim ∷ [];
  kubernetes = [];
  networks = mgmt ∷ [];
  routers = [];
  pdus = gnb ∷ [];
  prometheus_srv = [];
}

abbrev pub service : Topology
service = record {
  model = some topology_model;
  data_dump = some topology_model;
  db = some topology_model;
  lock = 0;
  events = [];
  redis = λ type dump. true;
}

abbrev pub provider : String → PduProvider
provider id = record { blueprint_id = id; locked_pdus = []; saved = []; db = some topology_model }
