-- ===== src/TopologyModel/Pdus.antt =====
-- PDUs of the topology model.
use e_pem.Prelude.{String, [], ◌∷◌, ◌++◌, ◌==◌, if◌then◌else◌}
use e_pem.Result.{Result, ok, err, value_error, ◌>>=◌}
use e_pem.PyList.{contains, get_at, set_at, pop_at}
use e_pem.Network.{PduModel}
use e_pem.TopologyModel.{TopologyModel, find_pdu_index}

unfoldable pub add_pdu : PduModel → TopologyModel → Result (PduModel × TopologyModel)
add_pdu pdu self =
    if contains (λ item. item.name == pdu.name) self.pdus
    then err value_error
    else ok (pdu, record self { pdus = self.pdus ++ pdu ∷ [] })

unfoldable pub del_pdu : String → TopologyModel → Result (PduModel × TopologyModel)
unfolding find_pdu_index
del_pdu name self = do
  index ← find_pdu_index name self
  (removed, rest) ← pop_at self.pdus index
  ok (removed, record self { pdus = rest })

unfoldable pub upd_pdu : PduModel → TopologyModel → Result (PduModel × TopologyModel)
unfolding find_pdu_index
upd_pdu pdu self = do
  index ← find_pdu_index pdu.name self
  items ← set_at self.pdus index pdu
  ok (pdu, record self { pdus = items })

unfoldable pub get_pdu : String → TopologyModel → Result PduModel
unfolding find_pdu_index
get_pdu name self = do index ← find_pdu_index name self; get_at self.pdus index
