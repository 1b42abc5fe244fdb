-- ===== src/Topology/Reserving.antt =====
-- topology/topology.py, `reserve_range` and what it calls (utils/ipam.py and the network model), taken
-- together: which range a blueprint gets, and what is stored of it.
use e_pem.Prelude.{
  ℕ, String, ◌≡◌, ap, subst, none, some, [], ◌∷◌, ◌++◌, ◌==◌, arith, inl, inr, Bool-cases,
  Option-cases,
}
use e_pem.Result.{Result, Result-cases, ok, value_error}
use e_pem.Exec.{◌>>=◌, pure, raise, reads, lift, modify}
use e_pem.PyList.{All, index_or, find_first}
use e_pem.PyList.Search.{IsLocated, find_index-some, index-get_at, replace_first}
use e_pem.Network
use e_pem.Network.{NetworkModel, IPv4Pool, IPv4ReservedRange, overlaps}
use e_pem.Ipam.{get_range_in_cidr}
use e_pem.Ipam.Safety.{HasNoNesting, StartsAtLast}
use e_pem.Ipam.Choice.{IsFree, get_range_in_cidr-IsFree}
use e_pem.TopologyModel.{TopologyModel, find_net_index}
use e_pem.TopologyModel.Networks as NetList
use e_pem.Topology.{
  Topology, TopologyEventType, Dump, locked, acquire, release, on_model, read_model,
  save_topology_from_model, trigger_redis_event,
}
use e_pem.Topology.Networks.{get_network_model}
use e_pem.Topology.Ranges.{reserved_ips, reserve_in, set_reserved_ip_range, reserve_range}

-- The network with one more reservation, at its place in the topology.
abbrev with_reserved : IPv4ReservedRange → NetworkModel → NetworkModel
with_reserved r net = record net { reserved_ranges = net.reserved_ranges ++ r ∷ [] }

net_name-IsLocated :
    (net_name : String) (m : TopologyModel) (net : NetworkModel)
    → NetList.get_network net_name m ≡ ok net
    → (i : ℕ) × IsLocated (λ x. x.name == net_name) m.networks net i
unfolding NetList.get_network find_net_index
net_name-IsLocated net_name m net found =
    elim (Option-cases (find_first (λ x. x.name == net_name) m.networks)) [
      | inl h ↦
          absurd (ground (arith, index-get_at (λ x. x.name == net_name) value_error m.networks))
      | inr (y, h) ↦
          let (i, at) = find_index-some (λ x. x.name == net_name) m.networks y h in
          let same : y ≡ net =
            ground (arith, index-get_at (λ x. x.name == net_name) value_error m.networks) in
          (i, subst (λ z. IsLocated (λ x. x.name == net_name) m.networks z i) same at)
    ]

reserve_in-writes :
    (net_name : String) (r : IPv4ReservedRange) (m m' : TopologyModel) (net : NetworkModel)
    (u : Unit {0})
    → NetList.get_network net_name m ≡ ok net
    → reserve_in net_name r m ≡ ok (u, m')
    → m' ≡ record m {
      networks = replace_first (λ x. x.name == net_name) (with_reserved r net) m.networks;
    }
unfolding reserve_in Network.add_reserved_range find_net_index index_or
reserve_in-writes net_name r m m' net u found e =
    let (i, at) = net_name-IsLocated net_name m net found in
    ground (arith, at.found, at.read, at.written (with_reserved r net))

-- A call of set_reserved_ip_range that returns, on a network that is there.
pub record IsStored (s after : Topology) (m : TopologyModel) (net_name : String)
    (net : NetworkModel) (r : IPv4ReservedRange) : Type 0 where
  pub model : TopologyModel
  pub networks : model ≡ record m {
    networks = replace_first (λ x. x.name == net_name) (with_reserved r net) m.networks;
  }
  pub result : after ≡ record s {
    model = some model;
    data_dump = some model;
    db = some model;
    events = (TopologyEventType.topo_create_range_res, Dump.of_range r) ∷ s.events;
  }

set_reserved_ip_range-stores :
    (s after : Topology) (m : TopologyModel) (net_name owner : String) (net : NetworkModel)
    (p : IPv4Pool) (r : IPv4ReservedRange)
    → s.model ≡ some m
    → NetList.get_network net_name m ≡ ok net
    → set_reserved_ip_range p net_name owner s ≡ (ok r, after)
    → (r ≡ record { pool = p; owner = owner }) × IsStored s after m net_name net r
unfolding set_reserved_ip_range read_model reads raise pure on_model save_topology_from_model
    trigger_redis_event modify ◌>>=◌
set_reserved_ip_range-stores s after m net_name owner net p r e found done =
    elim (Bool-cases net.external) [
      | inl ext ↦ absurd (ground arith)
      | inr int ↦ elim (Result-cases (reserve_in net_name (record { pool = p; owner = owner }) m)) [
        | inr (x, bad) ↦ absurd (ground arith)
        | inl ((u, m'), ran) ↦
            let same : record { pool = p; owner = owner } ≡ r = ground arith in
            (
              ground arith,
              record {
                model = m';
                networks = ground (
                  arith,
                  reserve_in-writes net_name (record { pool = p; owner = owner }) m m' net u found
                      ran,
                );
                result = ground arith;
              },
            )
      ]
    ]

-- What a reservation leaves: the range is free, the owner has it, and it is stored with the network,
-- in memory and in the database, with the event as the newest; the lock is as it was.
pub record IsReserved (s after : Topology) (m : TopologyModel) (net_name : String)
    (net : NetworkModel) (n : ℕ) (owner : String) (r : IPv4ReservedRange) : Type 0 where
  pub free : IsFree net.cidr (reserved_ips net) n r.pool
  pub owned : r.owner ≡ owner
  pub stored : IsStored s after m net_name net r

-- A reservation that returns gives its owner a range of the length asked for, inside the network and
-- apart from everything that the VIM or another blueprint holds there, and appends it to the
-- reservations of that network alone, in memory and in the stored topology. The held ranges must not
-- be nested, and none may start at the last address before the broadcast address.
pub reserve_range-IsReserved :
    (s after : Topology) (m : TopologyModel) (net_name owner : String) (net : NetworkModel) (n : ℕ)
    (r : IPv4ReservedRange)
    → s.model ≡ some m
    → NetList.get_network net_name m ≡ ok net
    → HasNoNesting (reserved_ips net)
    → All (λ p. ¬ StartsAtLast net.cidr p) (reserved_ips net)
    → reserve_range net_name n owner none s ≡ (ok r, after)
    → IsReserved s after m net_name net n owner r
unfolding reserve_range get_network_model lift read_model reads locked acquire release ◌>>=◌
reserve_range-IsReserved s after m net_name owner net n r e found flat ends done =
    elim (Result-cases (get_range_in_cidr net.cidr (reserved_ips net) n)) [
      | inr (x, bad) ↦ absurd (ground arith)
      | inl (p, chosen) ↦
          let run : Result IPv4ReservedRange × Topology =
            set_reserved_ip_range p net_name owner (acquire s) in
          let returned : run.0 ≡ ok r = ground arith in
          let (made, kept) =
            set_reserved_ip_range-stores (acquire s) run.1 m net_name owner net p r e found
              (ap (λ z. (z, run.1)) returned) in
          record {
            free =
                subst (IsFree net.cidr (reserved_ips net) n) (ground arith)
                  (get_range_in_cidr-IsFree net.cidr (reserved_ips net) n flat ends chosen);
            owned = ground arith;
            stored = record {
              model = kept.model;
              networks = kept.networks;
              result = ground (arith, kept.result);
            };
          }
    ]
