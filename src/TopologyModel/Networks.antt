-- ===== src/TopologyModel/Networks.antt =====
-- Networks of the topology model.
use e_pem.Prelude.{String, [], ◌∷◌, ◌++◌, ◌==◌, if◌then◌else◌}
use e_pem.Result.{Result, ok, err, value_error, ◌>>=◌}
use e_pem.PyList.{contains, get_at, set_at, pop_at}
use e_pem.Network.{NetworkModel}
use e_pem.TopologyModel.{TopologyModel, find_net_index}

unfoldable pub add_network : NetworkModel → TopologyModel → Result (NetworkModel × TopologyModel)
add_network network self =
    if contains (λ item. item.name == network.name) self.networks
    then err value_error
    else ok (network, record self { networks = self.networks ++ network ∷ [] })

unfoldable pub del_network : String → TopologyModel → Result (NetworkModel × TopologyModel)
unfolding find_net_index
del_network name self = do
  index ← find_net_index name self
  (removed, rest) ← pop_at self.networks index
  ok (removed, record self { networks = rest })

unfoldable pub upd_network : NetworkModel → TopologyModel → Result (NetworkModel × TopologyModel)
unfolding find_net_index
upd_network network self = do
  index ← find_net_index network.name self
  items ← set_at self.networks index network
  ok (network, record self { networks = items })

unfoldable pub get_network : String → TopologyModel → Result NetworkModel
unfolding find_net_index
get_network name self = do index ← find_net_index name self; get_at self.networks index
