-- ===== src/Topology/Ranges.antt =====
-- Reservations of address ranges in topology/topology.py.
use e_pem.Prelude.{ℕ, String, Option, none, some, List, [], ◌∷◌, ◌++◌, if◌then◌else◌, map}
use e_pem.Result.{Error, Result, ok, err, value_error, type_error, attribute_error, index_error}
use e_pem.Exec.{Exec, ◌>>=◌, ◌>>◌, pure, raise, lift}
use e_pem.PyList.{get_at, set_at}
use e_pem.Network
use e_pem.Network.{
  NetworkModel, RouterModel, RouterPortModel, PduModel, IPv4Pool, IPv4ReservedRange, GatewayInfo,
}
use e_pem.Ipam.{get_range_in_cidr}
use e_pem.TopologyModel.{TopologyModel, find_net_index}
use e_pem.Topology.{
  Topology, locked, on_model, read_model, save_topology_from_model, trigger_redis_event,
  TopologyEventType, Dump,
}
use e_pem.TopologyModel.Networks as NetList
use e_pem.Topology.Networks.{get_network_model}
use e_pem.Result

-- what is reserved in a network: the pools of the VIM, then the ranges of the blueprints
unfoldable pub reserved_ips : NetworkModel → List IPv4Pool
reserved_ips net = net.allocation_pool ++ map (λ r. r.pool) net.reserved_ranges

-- topo_net.add_reserved_range(ip_range), on the network of the topology
unfoldable pub reserve_in :
    String → IPv4ReservedRange → TopologyModel → Result (Unit {0} × TopologyModel)
reserve_in net_name ip_range m = Result.◌>>=◌ (find_net_index net_name m) (λ i.
    Result.◌>>=◌ (get_at m.networks i) (λ net.
      Result.◌>>=◌ (Network.add_reserved_range ip_range net) (λ net'.
        Result.◌>>=◌ (set_at m.networks i net')
          (λ networks. ok (tt, record m { networks = networks })))))

unfoldable pub set_reserved_ip_range : IPv4Pool → String → String → Exec Topology IPv4ReservedRange
unfolding reserve_in read_model on_model save_topology_from_model trigger_redis_event raise
set_reserved_ip_range ip_range net_name owner = do
  topo_net ← read_model (NetList.get_network net_name)
  if topo_net.external then raise value_error else pure tt
  let reserved : IPv4ReservedRange = record { pool = ip_range; owner = owner }
  on_model (reserve_in net_name reserved)
  save_topology_from_model
  trigger_redis_event TopologyEventType.topo_create_range_res (Dump.of_range reserved)
  pure reserved

unfoldable pub reserve_range : String → ℕ → String → Option String → Exec Topology IPv4ReservedRange
unfolding get_network_model reserved_ips lift set_reserved_ip_range locked
reserve_range net_name range_length owner vim_name = locked (do
  net ← get_network_model net_name vim_name
  ip_range ← lift (get_range_in_cidr net.cidr (reserved_ips net) range_length)
  set_reserved_ip_range ip_range net_name owner)

-- models/k8s/common_k8s_model.py: the two fields of a pool that are read
unfoldable pub reserve_range_lb_pool : String → ℕ → String → Exec Topology IPv4ReservedRange
unfolding reserve_range
reserve_range_lb_pool net_name range_length owner = reserve_range net_name range_length owner none

-- the loop over all networks, up to the first that releases a range
unfoldable pub release_in_all :
    String
    → Option IPv4ReservedRange
    → List NetworkModel
    → Result (Option IPv4ReservedRange × List NetworkModel)
release_in_all owner ip_range [] = ok (none, [])
release_in_all owner ip_range (network ∷ networks) =
    let rest = release_in_all owner ip_range networks in
    elim (Network.release_range owner ip_range network) [
      | err e ↦ err e
      | ok (some removed, network') ↦ ok (some removed, network' ∷ networks)
      | ok (none, network') ↦ elim rest [
        | err e ↦ err e
        | ok (removed, networks') ↦ ok (removed, network' ∷ networks')
      ]
    ]

unfoldable pub release_everywhere :
    String
    → Option IPv4ReservedRange
    → TopologyModel
    → Result (Option IPv4ReservedRange × TopologyModel)
unfolding release_in_all
release_everywhere owner ip_range m =
    Result.◌>>=◌ (release_in_all owner ip_range m.networks)
      (λ r. ok (r.0, record m { networks = r.1 }))

unfoldable pub release_in :
    String
    → String
    → Option IPv4ReservedRange
    → TopologyModel
    → Result (Option IPv4ReservedRange × TopologyModel)
release_in net_name owner ip_range m = Result.◌>>=◌ (find_net_index net_name m) (λ i.
    Result.◌>>=◌ (get_at m.networks i) (λ net.
      Result.◌>>=◌ (Network.release_range owner ip_range net) (λ r.
        Result.◌>>=◌ (set_at m.networks i r.1)
          (λ networks. ok (r.0, record m { networks = networks })))))

-- A range that is not found is logged.
unfoldable pub released : Option IPv4ReservedRange → Exec Topology (Option IPv4ReservedRange)
unfolding save_topology_from_model trigger_redis_event pure
released none = pure none
released (some removed_range) = do
  save_topology_from_model
  trigger_redis_event TopologyEventType.topo_delete_range_res (Dump.of_range removed_range)
  pure (some removed_range)

unfoldable pub release_ranges :
    String → Option IPv4ReservedRange → Option String → Exec Topology (Option IPv4ReservedRange)
unfolding release_everywhere release_in released locked on_model
release_ranges owner ip_range none =
    locked (do removed_range ← on_model (release_everywhere owner ip_range); released removed_range)
release_ranges owner ip_range (some net_name) =
    locked
      (do removed_range ← on_model (release_in net_name owner ip_range); released removed_range)
