-- ===== src/TopologyModel/Contracts.antt =====
-- The operations of the topology model against the contract of a registry, list by list.
use e_pem.Prelude.{refl, Bool, not, ◌&&◌, ltb}
use e_pem.Result.{Result, ok, raise_if, value_error, topo_k8s_not_found, topo_k8s_has_blueprint}
use e_pem.PyList.{length}
use e_pem.Kubernetes.{TopologyK8sModel}
use e_pem.Prometheus.{PrometheusServerModel}
use e_pem.TopologyModel.Registry.{
  IsRegistry, items-IsRegistry, pop_item-IsDeletable, pop_guarded-IsDeletable,
}
use e_pem.TopologyModel.Vims.{add_vim, get_vim, upd_vim, del_vim}
use e_pem.TopologyModel.Networks.{add_network, get_network, upd_network, del_network}
use e_pem.TopologyModel.Pdus.{add_pdu, get_pdu, upd_pdu, del_pdu}
use e_pem.TopologyModel.Clusters.{
  add_k8s_cluster, find_k8s_cluster, upd_k8s_cluster, del_k8s_cluster,
}
use e_pem.TopologyModel.Servers.{
  add_prometheus_srv, find_prom_srv, upd_prometheus_srv, del_prometheus_srv,
}

abbrev pub unprotected : {A : Type 0} → A → Result (Unit {0})
unprotected x = ok tt

-- The VIMs are a finite map from names to VIMs: adding, reading, updating and deleting by name
-- succeed and fail as the contract `IsRegistry` says, with ValueError for a missing name, and change
-- nothing but the list of VIMs.
pub vims-IsRegistry :
    IsRegistry
      (λ v. v.name)
      (λ m. m.vims)
      (λ l m. record m { vims = l })
      value_error
      unprotected
      add_vim
      get_vim
      upd_vim
      del_vim
unfolding add_vim get_vim upd_vim del_vim
vims-IsRegistry = items-IsRegistry _ _ _ _ _ (pop_item-IsDeletable _ _ _ _ _ (λ x. refl))

-- The networks are a finite map from names to networks, as the contract `IsRegistry` says, with
-- ValueError for a missing name; no other list changes.
pub networks-IsRegistry :
    IsRegistry
      (λ n. n.name)
      (λ m. m.networks)
      (λ l m. record m { networks = l })
      value_error
      unprotected
      add_network
      get_network
      upd_network
      del_network
unfolding add_network get_network upd_network del_network
networks-IsRegistry = items-IsRegistry _ _ _ _ _ (pop_item-IsDeletable _ _ _ _ _ (λ x. refl))

-- The PDUs are a finite map from names to PDUs, as the contract `IsRegistry` says, with ValueError
-- for a missing name; no other list changes.
pub pdus-IsRegistry :
    IsRegistry
      (λ p. p.name)
      (λ m. m.pdus)
      (λ l m. record m { pdus = l })
      value_error
      unprotected
      add_pdu
      get_pdu
      upd_pdu
      del_pdu
unfolding add_pdu get_pdu upd_pdu del_pdu
pdus-IsRegistry = items-IsRegistry _ _ _ _ _ (pop_item-IsDeletable _ _ _ _ _ (λ x. refl))

abbrev pub k8s_protected : TopologyK8sModel → Result (Unit {0})
k8s_protected c = raise_if (ltb 0 (length c.deployed_blueprints)) topo_k8s_has_blueprint

-- The Kubernetes clusters are a finite map from names to clusters, as the contract `IsRegistry`
-- says: a missing name raises TopoK8SNotFoundException, and a cluster with deployed blueprints is not
-- deleted but raises TopoK8SHasBlueprintException; no other list changes.
pub clusters-IsRegistry :
    IsRegistry
      (λ c. c.name)
      (λ m. m.kubernetes)
      (λ l m. record m { kubernetes = l })
      topo_k8s_not_found
      k8s_protected
      add_k8s_cluster
      find_k8s_cluster
      upd_k8s_cluster
      del_k8s_cluster
unfolding add_k8s_cluster find_k8s_cluster upd_k8s_cluster del_k8s_cluster
clusters-IsRegistry = items-IsRegistry _ _ _ _ _ (pop_guarded-IsDeletable _ _ _ _ _)

abbrev pub server_protected : Bool → PrometheusServerModel → Result (Unit {0})
server_protected force p = raise_if (ltb 0 (length p.targets) && not force) value_error

-- The Prometheus servers are a finite map from identifiers to servers, as the contract `IsRegistry`
-- says: a server with targets is deleted only by force, and raises ValueError otherwise, as a
-- missing identifier does; no other list changes.
pub servers-IsRegistry :
    (force : Bool)
    → IsRegistry
        (λ p. p.id)
        (λ m. m.prometheus_srv)
        (λ l m. record m { prometheus_srv = l })
        value_error
        (server_protected force)
        add_prometheus_srv
        find_prom_srv
        upd_prometheus_srv
        (λ k m. del_prometheus_srv k force m)
unfolding add_prometheus_srv find_prom_srv upd_prometheus_srv del_prometheus_srv
servers-IsRegistry force = items-IsRegistry _ _ _ _ _ (pop_guarded-IsDeletable _ _ _ _ _)
