-- ===== src/TopologyModel/Routers.antt =====
-- Routers of the topology model: their index is searched among the VIMs, as in the source.
use e_pem.Prelude.{String, [], ◌∷◌, ◌++◌, ◌==◌, if◌then◌else◌}
use e_pem.Result.{Result, ok, err, value_error, ◌>>=◌}
use e_pem.PyList.{contains, get_at, set_at, pop_at}
use e_pem.Network.{RouterModel}
use e_pem.TopologyModel.{TopologyModel, find_router_index}

unfoldable pub add_router : RouterModel → TopologyModel → Result (RouterModel × TopologyModel)
add_router router self =
    if contains (λ item. item.name == router.name) self.routers
    then err value_error
    else ok (router, record self { routers = self.routers ++ router ∷ [] })

unfoldable pub del_router : String → TopologyModel → Result (RouterModel × TopologyModel)
unfolding find_router_index
del_router name self = do
  index ← find_router_index name self
  (removed, rest) ← pop_at self.routers index
  ok (removed, record self { routers = rest })

unfoldable pub upd_router : RouterModel → TopologyModel → Result (RouterModel × TopologyModel)
unfolding find_router_index
upd_router router self = do
  index ← find_router_index router.name self
  items ← set_at self.routers index router
  ok (router, record self { routers = items })

unfoldable pub get_router : String → TopologyModel → Result RouterModel
unfolding find_router_index
get_router name self = do index ← find_router_index name self; get_at self.routers index
