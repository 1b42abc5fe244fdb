-- ===== src/TopologyWorker/Requests.antt =====
-- topology/topology_worker.py: what a sequence of requests does to the stored topology.
use e_pem.Prelude.{◌≡◌, refl, Bool, Option, List, [], ◌∷◌}
use e_pem.Result.{Result, ok, err}
use e_pem.Exec.{Exec, lift, ◌>>=◌}
use e_pem.Exec.Rules.{Keeps, Keeps-bind, keeps_rules}
use e_pem.PyList.{All}
use e_pem.Network.{NetworkModel}
use e_pem.TopologyModel.{TopologyModel}
use e_pem.TopologyModel.WellFormed.{IsWellFormed}
use e_pem.Topology.{Topology, build_topology}
use e_pem.Topology.Networks.{VimNames}
use e_pem.Topology.Soundness.{AllSome, IsSound}
use e_pem.Topology.Soundness.VimMethods.{add_vim-IsSound, del_vim-IsSound, update_vim-IsSound}
use e_pem.Topology.Soundness.NetMethods.{
  add_network_model-IsSound, del_network_by_name-IsSound, add_router-IsSound, del_router-IsSound,
}
use e_pem.Topology.Soundness.ItemMethods.{
  add_pdu-IsSound, del_pdu-IsSound, add_k8scluster-IsSound, del_k8scluster-IsSound,
  update_k8scluster-IsSound, add_prometheus_server-IsSound, del_prometheus_server-IsSound,
  update_prometheus_server-IsSound,
}
use e_pem.Topology.Soundness.LifecycleMethods.{create-IsSound, delete-IsSound}
use e_pem.TopologyMessage.{TopologyWorkerMessage, TopologyWorkerOperation}
use e_pem.TopologyWorker.{Outside, add_network, operation, start_operation, handle, listen}

add_network-IsSound :
    (n : NetworkModel) (l : VimNames) (t : Bool) → Keeps IsSound (add_network n l t)
unfolding add_network
add_network-IsSound n l t = search (keeps_rules, add_network_model-IsSound)

ruleset request_rules = (
  keeps_rules, create-IsSound, delete-IsSound, add_vim-IsSound, del_vim-IsSound, update_vim-IsSound,
  add_network-IsSound, del_network_by_name-IsSound, add_router-IsSound, del_router-IsSound,
  add_pdu-IsSound, del_pdu-IsSound, add_k8scluster-IsSound, del_k8scluster-IsSound,
  update_k8scluster-IsSound, add_prometheus_server-IsSound, del_prometheus_server-IsSound,
  update_prometheus_server-IsSound,
)

module _ {D : Type 0} (outside : Outside D) where
  -- A topology that a request brings has each name once, apart from its VIMs.
  abbrev pub BringsUnique : D → Type 0
  BringsUnique d =
      (topo : TopologyModel)
      → outside.topology d ≡ ok topo
      → IsWellFormed (record topo { vims = [] })

  lift-then :
      {A B : Type 0} (r : Result A) (f : A → Exec Topology B)
      → ((a : A) → r ≡ ok a → Keeps IsSound (f a))
      → Keeps IsSound (lift r >>= f)
  unfolding lift ◌>>=◌
  lift-then (ok a) f h = record { at = λ s p. (h a refl).at s p }
  lift-then (err e) f h = record { at = λ s p. p }

  operation-IsSound :
      (o : TopologyWorkerOperation) (d : D) (opt : Option D)
      → BringsUnique d
      → Keeps IsSound (operation outside o d opt)
  unfolding operation
  operation-IsSound TopologyWorkerOperation.add_topology d opt u =
      lift-then (outside.topology d) _
        λ topo e. Keeps-bind _ _ (search keeps_rules) (λ t. create-IsSound topo t (u topo e))
  operation-IsSound TopologyWorkerOperation.del_topology d opt u = search request_rules depth 8
  operation-IsSound TopologyWorkerOperation.add_vim d opt u = search request_rules depth 8
  operation-IsSound TopologyWorkerOperation.del_vim d opt u = search request_rules depth 8
  operation-IsSound TopologyWorkerOperation.update_vim d opt u = search request_rules depth 8
  operation-IsSound TopologyWorkerOperation.add_net d opt u = search request_rules depth 8
  operation-IsSound TopologyWorkerOperation.del_net d opt u = search request_rules depth 8
  operation-IsSound TopologyWorkerOperation.add_router d opt u = search request_rules depth 8
  operation-IsSound TopologyWorkerOperation.del_router d opt u = search request_rules depth 8
  operation-IsSound TopologyWorkerOperation.add_pdu d opt u = search request_rules depth 8
  operation-IsSound TopologyWorkerOperation.del_pdu d opt u = search request_rules depth 8
  operation-IsSound TopologyWorkerOperation.add_k8s d opt u = search request_rules depth 8
  operation-IsSound TopologyWorkerOperation.del_k8s d opt u = search request_rules depth 8
  operation-IsSound TopologyWorkerOperation.update_k8s d opt u = search request_rules depth 8
  operation-IsSound TopologyWorkerOperation.add_prom d opt u = search request_rules depth 8
  operation-IsSound TopologyWorkerOperation.del_prom d opt u = search request_rules depth 8
  operation-IsSound TopologyWorkerOperation.upd_prom d opt u = search request_rules depth 8

  handle-IsWellFormed :
      (msg : TopologyWorkerMessage D) (db : Option TopologyModel)
      → BringsUnique msg.data_dict
      → AllSome IsWellFormed db
      → AllSome IsWellFormed (handle outside msg db)
  unfolding handle start_operation build_topology
  handle-IsWellFormed msg db u w =
      ((operation-IsSound msg.ops_type msg.data_dict msg.optional_data u).at
        (build_topology outside.redis db) (record { in_memory = w; stored = w })).stored

  -- Whatever requests the worker gets, and whichever of them fail, the stored topology keeps each
  -- name once in each of its lists, if it did at the start and the topologies that are added do.
  pub listen-IsWellFormed :
      (messages : List (TopologyWorkerMessage D)) (db : Option TopologyModel)
      → All (λ msg. BringsUnique msg.data_dict) messages
      → AllSome IsWellFormed db
      → AllSome IsWellFormed (listen outside messages db)
  unfolding listen
  listen-IsWellFormed [] db u w = w
  listen-IsWellFormed (msg ∷ messages) db (u, us) w =
      listen-IsWellFormed messages (handle outside msg db) us (handle-IsWellFormed msg db u w)
