-- ===== src/TopologyModel/Servers.antt =====
-- Prometheus servers of the topology model.
use e_pem.Prelude.{String, Bool, [], ◌∷◌, ◌++◌, ◌==◌, not, ltb, ◌&&◌, if◌then◌else◌}
use e_pem.Result.{Result, ok, err, raise_if, value_error, ◌>>=◌, ◌>>◌}
use e_pem.PyList.{contains, get_at, set_at, pop_at, length}
use e_pem.Prometheus.{PrometheusServerModel}
use e_pem.TopologyModel.{TopologyModel, find_prom_srv_index}

unfoldable pub add_prometheus_srv :
    PrometheusServerModel → TopologyModel → Result (PrometheusServerModel × TopologyModel)
add_prometheus_srv prom_srv self =
    if contains (λ item. item.id == prom_srv.id) self.prometheus_srv
    then err value_error
    else ok (prom_srv, record self { prometheus_srv = self.prometheus_srv ++ prom_srv ∷ [] })

unfoldable pub del_prometheus_srv :
    String → Bool → TopologyModel → Result (PrometheusServerModel × TopologyModel)
unfolding find_prom_srv_index
del_prometheus_srv prom_srv_id force self = do
  index ← find_prom_srv_index prom_srv_id self
  prom_srv_to_del ← get_at self.prometheus_srv index
  raise_if (ltb 0 (length prom_srv_to_del.targets) && not force) value_error
  (removed, rest) ← pop_at self.prometheus_srv index
  ok (removed, record self { prometheus_srv = rest })

unfoldable pub upd_prometheus_srv :
    PrometheusServerModel → TopologyModel → Result (PrometheusServerModel × TopologyModel)
unfolding find_prom_srv_index
upd_prometheus_srv prom_srv self = do
  index ← find_prom_srv_index prom_srv.id self
  items ← set_at self.prometheus_srv index prom_srv
  ok (prom_srv, record self { prometheus_srv = items })

unfoldable pub find_prom_srv : String → TopologyModel → Result PrometheusServerModel
unfolding find_prom_srv_index
find_prom_srv name self = do index ← find_prom_srv_index name self; get_at self.prometheus_srv index
