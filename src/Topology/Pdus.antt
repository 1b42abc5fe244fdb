-- ===== src/Topology/Pdus.antt =====
-- PDUs in topology/topology.py.
use e_pem.Prelude.{String}
use e_pem.Exec.{Exec, ◌>>=◌, ◌>>◌, pure, except_value_error}
use e_pem.Network.{PduModel}
use e_pem.Topology.{
  Topology, locked, on_model, read_model, save_topology_from_model, trigger_redis_event,
  TopologyEventType, Dump,
}
use e_pem.TopologyModel.Pdus as PduList

-- ValueError is logged, wherever in the block it was raised.
unfoldable pub add_pdu : PduModel → Exec Topology (Unit {0})
unfolding locked except_value_error on_model save_topology_from_model trigger_redis_event pure
add_pdu pdu_input = locked (do
  except_value_error (do
    on_model (PduList.add_pdu pdu_input)
    save_topology_from_model
    trigger_redis_event TopologyEventType.topo_create_pdu (Dump.of_pdu pdu_input))
  pure tt)

unfoldable pub upd_pdu : PduModel → Exec Topology (Unit {0})
unfolding locked on_model save_topology_from_model trigger_redis_event
upd_pdu pdu_input = locked (do
  on_model (PduList.upd_pdu pdu_input)
  save_topology_from_model
  trigger_redis_event TopologyEventType.topo_create_pdu (Dump.of_pdu pdu_input))

unfoldable pub del_pdu : String → Exec Topology (Unit {0})
unfolding locked on_model read_model save_topology_from_model trigger_redis_event
del_pdu pdu_name = locked (do
  pdu ← read_model (PduList.get_pdu pdu_name)
  deleted_pdu ← on_model (PduList.del_pdu pdu_name)
  trigger_redis_event TopologyEventType.topo_delete_pdu (Dump.of_pdu deleted_pdu)
  save_topology_from_model)
