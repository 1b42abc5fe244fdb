-- ===== src/TopologyModel/WellFormed.antt =====
-- Each name once, in every list of the topology model: what the operations keep.
use e_pem.Prelude.{◌≡◌, List}
use e_pem.Result.{Result, ok}
use e_pem.PyList.Keyed.{HasUniqueKeys}
use e_pem.Network.{NetworkModel, RouterModel, PduModel}
use e_pem.Vim.{VimModel}
use e_pem.Kubernetes.{TopologyK8sModel}
use e_pem.Prometheus.{PrometheusServerModel}
use e_pem.TopologyModel.{TopologyModel}

pub record IsWellFormed (m : TopologyModel) : Type 0 where
  pub vims : HasUniqueKeys (λ v. v.name) m.vims
  pub kubernetes : HasUniqueKeys (λ c. c.name) m.kubernetes
  pub networks : HasUniqueKeys (λ n. n.name) m.networks
  pub routers : HasUniqueKeys (λ r. r.name) m.routers
  pub pdus : HasUniqueKeys (λ p. p.name) m.pdus
  pub prometheus_srv : HasUniqueKeys (λ p. p.id) m.prometheus_srv

-- an operation that, where it returns, leaves a well-formed model well-formed
pub record Preserves {A : Type 0} (f : TopologyModel → Result (A × TopologyModel)) : Type 0 where
  pub at : (m m' : TopologyModel) (a : A) → IsWellFormed m → f m ≡ ok (a, m') → IsWellFormed m'

-- One list replaced by another with unique names.
module _ (m : TopologyModel) (w : IsWellFormed m) where
  pub with_vims :
      (l : List VimModel) → HasUniqueKeys (λ x. x.name) l → IsWellFormed (record m { vims = l })
  with_vims l u = record {
    vims = u;
    kubernetes = w.kubernetes;
    networks = w.networks;
    routers = w.routers;
    pdus = w.pdus;
    prometheus_srv = w.prometheus_srv;
  }

  pub with_kubernetes :
      (l : List TopologyK8sModel)
      → HasUniqueKeys (λ x. x.name) l
      → IsWellFormed (record m { kubernetes = l })
  with_kubernetes l u = record {
    vims = w.vims;
    kubernetes = u;
    networks = w.networks;
    routers = w.routers;
    pdus = w.pdus;
    prometheus_srv = w.prometheus_srv;
  }

  pub with_networks :
      (l : List NetworkModel)
      → HasUniqueKeys (λ x. x.name) l
      → IsWellFormed (record m { networks = l })
  with_networks l u = record {
    vims = w.vims;
    kubernetes = w.kubernetes;
    networks = u;
    routers = w.routers;
    pdus = w.pdus;
    prometheus_srv = w.prometheus_srv;
  }

  pub with_routers :
      (l : List RouterModel)
      → HasUniqueKeys (λ x. x.name) l
      → IsWellFormed (record m { routers = l })
  with_routers l u = record {
    vims = w.vims;
    kubernetes = w.kubernetes;
    networks = w.networks;
    routers = u;
    pdus = w.pdus;
    prometheus_srv = w.prometheus_srv;
  }

  pub with_pdus :
      (l : List PduModel) → HasUniqueKeys (λ x. x.name) l → IsWellFormed (record m { pdus = l })
  with_pdus l u = record {
    vims = w.vims;
    kubernetes = w.kubernetes;
    networks = w.networks;
    routers = w.routers;
    pdus = u;
    prometheus_srv = w.prometheus_srv;
  }

  pub with_prometheus_srv :
      (l : List PrometheusServerModel)
      → HasUniqueKeys (λ x. x.id) l
      → IsWellFormed (record m { prometheus_srv = l })
  with_prometheus_srv l u = record {
    vims = w.vims;
    kubernetes = w.kubernetes;
    networks = w.networks;
    routers = w.routers;
    pdus = w.pdus;
    prometheus_srv = u;
  }
