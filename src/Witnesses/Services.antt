-- ===== src/Witnesses/Services.antt =====
-- The theorems on the topology service and its worker at concrete inputs.
use e_pem.Prelude.{
  ◌≡◌, ◌≢◌, refl, subst, arith, Bool, true, false, Option, none, some, List, [], ◌∷◌,
}
use e_pem.Result.{Error, Result, ok, err, type_error, value_error, attribute_error, redis_error}
use e_pem.Exec.{◌>>=◌, pure, reads, lift, modify, raise}
use e_pem.PyList.{contains, pop_at, find_index, index_or, get_at, set_at}
use e_pem.Network
use e_pem.Network.{IPv4ReservedRange, NetworkModel}
use e_pem.Vim.{UpdateVimModel}
use e_pem.TopologyModel.{TopologyModel, find_net_index}
use e_pem.TopologyModel.Networks as NetList
use e_pem.TopologyModel.Vims as VimList
use e_pem.TopologyModel.Contracts.{servers-IsRegistry, server_protected}
use e_pem.TopologyModel.WellFormed.{IsWellFormed}
use e_pem.TopologyMessage.{TopologyWorkerMessage, TopologyWorkerOperation}
use e_pem.Topology.{
  Topology, TopologyEventType, Dump, build_topology, locked, acquire, release, on_model, read_model,
  save_topology_from_model, trigger_redis_event,
}
use e_pem.Topology.Persistence.{IsSynced}
use e_pem.TopologyWorker.Persistence.{start_operation-IsSynced}
use e_pem.Topology.Networks.{del_network_by_name, get_network_model}
use e_pem.Topology.Vims.{add_vim}
use e_pem.Topology.Ranges.{reserved_ips, reserve_in, set_reserved_ip_range, reserve_range}
use e_pem.Topology.Lifecycle.{delete}
use e_pem.Topology.Deletion.{delete-fails}
use e_pem.Topology.Reserving.{IsReserved, reserve_range-IsReserved}
use e_pem.Topology.Soundness.{AllSome}
use e_pem.TopologyModel.Servers.{
  add_prometheus_srv, find_prom_srv, upd_prometheus_srv, del_prometheus_srv,
}
use e_pem.TopologyModel.Registry.{IsRegistry}
use e_pem.TopologyWorker.{Outside, start_operation, operation, handle, listen}
use e_pem.TopologyWorker.Requests.{BringsUnique, listen-IsWellFormed}
use e_pem.TopologyWorker.Failures.{failed-handle, add_net-fails}
use e_pem.Witnesses.Networks.{pools-HasNoNesting, pools_end, pool_chosen}
use e_pem.Witnesses.Data.{mgmt, held, new_range, vim, gnb, topology_model, service}

abbrev reserved_model : TopologyModel
reserved_model = record topology_model {
  networks = record mgmt { reserved_ranges = held ∷ new_range ∷ [] } ∷ [];
}

abbrev after_reserving : Topology
after_reserving = record service {
  model = some reserved_model;
  data_dump = some reserved_model;
  db = some reserved_model;
  events = (TopologyEventType.topo_create_range_res, Dump.of_range new_range) ∷ [];
}

mgmt_found : NetList.get_network "mgmt" topology_model ≡ ok mgmt
unfolding NetList.get_network find_net_index index_or find_index get_at
mgmt_found = refl

range_reserved : reserve_range "mgmt" 20 "b2" none service ≡ (ok new_range, after_reserving)
unfolding reserve_range get_network_model NetList.get_network find_net_index index_or find_index
    get_at set_at reserved_ips reserve_in set_reserved_ip_range Network.add_reserved_range contains
    Network.overlaps locked acquire release on_model read_model reads lift raise pure modify
    save_topology_from_model trigger_redis_event ◌>>=◌
range_reserved = rw pool_chosen refl

reserve_range-IsReserved_example :
    IsReserved service after_reserving topology_model "mgmt" mgmt 20 "b2" new_range
unfolding reserved_ips
reserve_range-IsReserved_example =
    reserve_range-IsReserved service after_reserving topology_model "mgmt" "b2" mgmt 20 new_range
      refl mgmt_found pools-HasNoNesting pools_end range_reserved

delete-fails_example :
    (after : Topology) × (delete false service ≡ (err attribute_error, after))
    × (after.model ≡ none)
    × (after.db ≡ none)
delete-fails_example = delete-fails service topology_model (λ dump. refl) refl

-- Dictionaries that hold one Boolean.
abbrev read_flag : Option Bool → Result Bool
read_flag none = err type_error
read_flag (some b) = ok b

abbrev update : UpdateVimModel
update = record {
  name = "vim0";
  networks_to_add = [];
  networks_to_del = "mgmt" ∷ [];
  routers_to_add = [];
  routers_to_del = [];
  areas_to_add = 1 ∷ [];
  areas_to_del = [];
}

abbrev outside : Outside Bool
outside = record {
  topology = λ d. ok topology_model;
  vim = λ d. ok vim;
  vim_update = λ d. ok update;
  network = λ d. ok mgmt;
  router = λ d. err value_error;
  pdu = λ d. ok gnb;
  cluster = λ d. err value_error;
  server = λ d. err value_error;
  field = λ k d. ok "mgmt";
  terraform = read_flag;
  remove_files = λ id. ok tt;
  update_remote_sd_file = λ p. ok tt;
  redis = λ type dump. true;
}

topology_model-IsWellFormed : IsWellFormed topology_model
topology_model-IsWellFormed = record {
  vims = (tt, tt);
  kubernetes = tt;
  networks = (tt, tt);
  routers = tt;
  pdus = (tt, tt);
  prometheus_srv = tt;
}

brings : (d : Bool) → BringsUnique outside d
brings d topo e =
    subst (λ t. IsWellFormed (record t { vims = [] }))
      (let same : topology_model ≡ topo = ground arith in same)
      (record {
        vims = tt;
        kubernetes = tt;
        networks = (tt, tt);
        routers = tt;
        pdus = (tt, tt);
        prometheus_srv = tt;
      })

abbrev request : TopologyWorkerOperation → TopologyWorkerMessage Bool
request o = record { ops_type = o; data_dict = false; optional_data = some false }

abbrev requests : List (TopologyWorkerMessage Bool)
requests =
    request TopologyWorkerOperation.add_topology
    ∷ request TopologyWorkerOperation.del_net
    ∷ request TopologyWorkerOperation.update_vim
    ∷ []

listen-IsWellFormed_example : AllSome IsWellFormed (listen outside requests none)
listen-IsWellFormed_example =
    listen-IsWellFormed outside requests none (brings false, (brings false, (brings false, tt))) tt

unset : outside.terraform (some false) ≢ ok true
unset h = ground arith

vim_refused :
    (start_operation outside
      (request TopologyWorkerOperation.add_vim)
      (build_topology outside.redis (some topology_model))).0
    ≡ err value_error
unfolding start_operation operation build_topology locked acquire release on_model read_model reads
    lift add_vim VimList.add_vim contains ◌>>=◌
vim_refused = refl

not_redis : value_error ≢ redis_error
not_redis h = ground (arith, h)

failed-handle_example :
    handle outside (request TopologyWorkerOperation.add_vim) (some topology_model)
    ≡ some topology_model
failed-handle_example =
    failed-handle outside (some topology_model) (request TopologyWorkerOperation.add_vim)
      value_error not_redis tt unset vim_refused

abbrev terraformed : TopologyWorkerMessage Bool
terraformed = record {
  ops_type = TopologyWorkerOperation.add_net;
  data_dict = false;
  optional_data = some true;
}

add_net-fails_example :
    (e : Error) × ((start_operation outside terraformed
        (build_topology outside.redis (some topology_model))).0
      ≡ err e)
    × (handle outside terraformed (some topology_model) ≡ some topology_model)
add_net-fails_example = add_net-fails outside (some topology_model) false (some true) refl

servers-IsRegistry_example :
    IsRegistry
      (λ p. p.id)
      (λ m. m.prometheus_srv)
      (λ l m. record m { prometheus_srv = l })
      value_error
      (server_protected true)
      add_prometheus_srv
      find_prom_srv
      upd_prometheus_srv
      (λ k m. del_prometheus_srv k true m)
servers-IsRegistry_example = servers-IsRegistry true

network_deleted :
    (start_operation outside
      (request TopologyWorkerOperation.del_net)
      (build_topology outside.redis (some topology_model))).0
    ≡ ok tt
unfolding start_operation operation build_topology locked acquire release on_model read_model reads
    lift pure modify del_network_by_name NetList.del_network find_net_index index_or find_index
    pop_at save_topology_from_model trigger_redis_event ◌>>=◌
network_deleted = refl

start_operation-IsSynced_example :
    IsSynced
      (start_operation outside
        (request TopologyWorkerOperation.del_net)
        (build_topology outside.redis (some topology_model))).1
start_operation-IsSynced_example =
    start_operation-IsSynced outside (request TopologyWorkerOperation.del_net) (some topology_model)
      network_deleted
