-- ===== src/TopologyModel/Preservation.antt =====
-- The operations of the topology model keep each name once in every list.
use e_pem.Prelude.{
  String, sym, subst, Bool, false, [], ◌∷◌, ◌++◌, ◌==◌, arith, Bool-cases, inl, inr,
}
use e_pem.Result.{Result-cases}
use e_pem.PyList.{contains, pop_at}
use e_pem.PyList.Keyed.{HasUniqueKeys-append}
use e_pem.PyList.Keys.{HasUniqueKeys-pop_at}
use e_pem.Network.{NetworkModel, RouterModel, PduModel}
use e_pem.Vim.{VimModel}
use e_pem.Kubernetes.{TopologyK8sModel}
use e_pem.Prometheus.{PrometheusServerModel}
use e_pem.TopologyModel.{find_router_index}
use e_pem.TopologyModel.Registry.{add-Replaced, upd-Replaced, del-Replaced}
use e_pem.TopologyModel.Contracts.{
  vims-IsRegistry, networks-IsRegistry, pdus-IsRegistry, clusters-IsRegistry, servers-IsRegistry,
}
use e_pem.TopologyModel.Vims.{add_vim, del_vim}
use e_pem.TopologyModel.Networks.{add_network, del_network}
use e_pem.TopologyModel.Routers.{add_router, del_router}
use e_pem.TopologyModel.Pdus.{add_pdu, upd_pdu, del_pdu}
use e_pem.TopologyModel.Clusters.{add_k8s_cluster, upd_k8s_cluster, del_k8s_cluster}
use e_pem.TopologyModel.Servers.{add_prometheus_srv, upd_prometheus_srv, del_prometheus_srv}
use e_pem.TopologyModel.WellFormed.{
  IsWellFormed, Preserves, with_vims, with_kubernetes, with_networks, with_routers, with_pdus,
  with_prometheus_srv,
}

pub add_vim-Preserves : (x : VimModel) → Preserves (add_vim x)
add_vim-Preserves x = record {
  at = λ m m' a w e.
      let (l, same, u) = add-Replaced vims-IsRegistry x a m m' w.vims e in
      subst IsWellFormed (sym same) (with_vims m w l u);
}

pub del_vim-Preserves : (k : String) → Preserves (del_vim k)
del_vim-Preserves k = record {
  at = λ m m' a w e.
      let (l, same, u) = del-Replaced vims-IsRegistry k a m m' w.vims e in
      subst IsWellFormed (sym same) (with_vims m w l u);
}

pub add_network-Preserves : (x : NetworkModel) → Preserves (add_network x)
add_network-Preserves x = record {
  at = λ m m' a w e.
      let (l, same, u) = add-Replaced networks-IsRegistry x a m m' w.networks e in
      subst IsWellFormed (sym same) (with_networks m w l u);
}

pub del_network-Preserves : (k : String) → Preserves (del_network k)
del_network-Preserves k = record {
  at = λ m m' a w e.
      let (l, same, u) = del-Replaced networks-IsRegistry k a m m' w.networks e in
      subst IsWellFormed (sym same) (with_networks m w l u);
}

pub add_pdu-Preserves : (x : PduModel) → Preserves (add_pdu x)
add_pdu-Preserves x = record {
  at = λ m m' a w e.
      let (l, same, u) = add-Replaced pdus-IsRegistry x a m m' w.pdus e in
      subst IsWellFormed (sym same) (with_pdus m w l u);
}

pub upd_pdu-Preserves : (x : PduModel) → Preserves (upd_pdu x)
upd_pdu-Preserves x = record {
  at = λ m m' a w e.
      let (l, same, u) = upd-Replaced pdus-IsRegistry x a m m' w.pdus e in
      subst IsWellFormed (sym same) (with_pdus m w l u);
}

pub del_pdu-Preserves : (k : String) → Preserves (del_pdu k)
del_pdu-Preserves k = record {
  at = λ m m' a w e.
      let (l, same, u) = del-Replaced pdus-IsRegistry k a m m' w.pdus e in
      subst IsWellFormed (sym same) (with_pdus m w l u);
}

pub add_k8s_cluster-Preserves : (x : TopologyK8sModel) → Preserves (add_k8s_cluster x)
add_k8s_cluster-Preserves x = record {
  at = λ m m' a w e.
      let (l, same, u) = add-Replaced clusters-IsRegistry x a m m' w.kubernetes e in
      subst IsWellFormed (sym same) (with_kubernetes m w l u);
}

pub upd_k8s_cluster-Preserves : (x : TopologyK8sModel) → Preserves (upd_k8s_cluster x)
upd_k8s_cluster-Preserves x = record {
  at = λ m m' a w e.
      let (l, same, u) = upd-Replaced clusters-IsRegistry x a m m' w.kubernetes e in
      subst IsWellFormed (sym same) (with_kubernetes m w l u);
}

pub del_k8s_cluster-Preserves : (k : String) → Preserves (del_k8s_cluster k)
del_k8s_cluster-Preserves k = record {
  at = λ m m' a w e.
      let (l, same, u) = del-Replaced clusters-IsRegistry k a m m' w.kubernetes e in
      subst IsWellFormed (sym same) (with_kubernetes m w l u);
}

pub add_prometheus_srv-Preserves : (x : PrometheusServerModel) → Preserves (add_prometheus_srv x)
add_prometheus_srv-Preserves x = record {
  at = λ m m' a w e.
      let (l, same, u) = add-Replaced (servers-IsRegistry false) x a m m' w.prometheus_srv e in
      subst IsWellFormed (sym same) (with_prometheus_srv m w l u);
}

pub upd_prometheus_srv-Preserves : (x : PrometheusServerModel) → Preserves (upd_prometheus_srv x)
upd_prometheus_srv-Preserves x = record {
  at = λ m m' a w e.
      let (l, same, u) = upd-Replaced (servers-IsRegistry false) x a m m' w.prometheus_srv e in
      subst IsWellFormed (sym same) (with_prometheus_srv m w l u);
}

pub del_prometheus_srv-Preserves :
    (k : String) (force : Bool) → Preserves (del_prometheus_srv k force)
del_prometheus_srv-Preserves k force = record {
  at = λ m m' a w e.
      let (l, same, u) = del-Replaced (servers-IsRegistry force) k a m m' w.prometheus_srv e in
      subst IsWellFormed (sym same) (with_prometheus_srv m w l u);
}

pub add_router-Preserves : (x : RouterModel) → Preserves (add_router x)
unfolding add_router
add_router-Preserves x = record {
  at = λ m m' a w e. elim (Bool-cases (contains (λ item. item.name == x.name) m.routers)) [
    | inl there ↦ absurd (ground arith)
    | inr absent ↦ subst IsWellFormed (ground arith) (
        with_routers m w (m.routers ++ x ∷ [])
          (HasUniqueKeys-append (λ r. r.name) m.routers x absent w.routers))
  ];
}

pub del_router-Preserves : (k : String) → Preserves (del_router k)
unfolding del_router
del_router-Preserves k = record {
  at = λ m m' a w e. elim (Result-cases (find_router_index k m)) [
    | inr (x, missing) ↦ absurd (ground arith)
    | inl (i, found) ↦ elim (Result-cases (pop_at m.routers i)) [
      | inr (x, outside) ↦ absurd (ground arith)
      | inl ((y, l), popped) ↦
          subst IsWellFormed (ground arith) (
            with_routers m w l
              (HasUniqueKeys-pop_at (λ r. r.name) m.routers i y l popped w.routers))
    ]
  ];
}
