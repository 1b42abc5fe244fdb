-- ===== src/Topology/Lifecycle.antt =====
-- Creation and deletion of the whole topology in topology/topology.py.
use e_pem.Prelude.{ℕ, zero, suc, Bool, none, some, []}
use e_pem.Result.{Result, ok, err, value_error, index_error}
use e_pem.Exec.{Exec, ◌>>=◌, ◌>>◌, pure, raise, for_each, modify}
use e_pem.PyList.{get_at, length}
use e_pem.TopologyModel.{TopologyModel}
use e_pem.Topology.{
  Topology, locked, read_model, save_topology_from_model, trigger_topology_event, TopologyEventType,
}
use e_pem.Topology.Vims.{add_vim, del_vim}

-- `self._model = topo`, with the VIMs moved out
unfoldable pub start_model : TopologyModel → Topology → Result (Unit {0}) × Topology
start_model topo self = elim self.model [
  | some m ↦ (err value_error, self)
  | none ↦ (ok tt, record self { model = some (record topo { vims = [] }) })
]

unfoldable pub create : TopologyModel → Bool → Exec Topology (Unit {0})
unfolding start_model add_vim locked for_each save_topology_from_model trigger_topology_event
create topo terraform = locked (do
  start_model topo
  for_each topo.vims (λ vim. add_vim vim terraform)
  save_topology_from_model
  trigger_topology_event TopologyEventType.topo_create)

-- the next element of a list iterator, where there is one
unfoldable pub if_there :
    {A : Type 0} → Result A → (A → Exec Topology (Unit {0})) → Exec Topology (Unit {0})
unfolding pure
if_there (err e) body = pure tt
if_there (ok a) body = body a

-- The `for` loop over `self._model.vims`, which `del_vim` shortens: Python goes on at the next
-- position until that is past the end. The fuel is one more than the VIMs at the start; the error
-- that stands for running out of it is never raised (module Topology.Deletion).
unfoldable pub delete_vims : ℕ → ℕ → Bool → Exec Topology (Unit {0})
unfolding read_model raise if_there del_vim
delete_vims zero i terraform = raise index_error
delete_vims (suc fuel) i terraform = do
  vims ← read_model (λ m. ok m.vims)
  if_there (get_at vims i)
      (λ vim. do del_vim vim.name terraform; delete_vims fuel (suc i) terraform)

-- delete_topology(), self._model = None
unfoldable pub drop_model : Topology → Topology
drop_model self = record self { model = none; db = none }

unfoldable pub require_model : Topology → Result (Unit {0}) × Topology
require_model self = elim self.model [ none ↦ (err value_error, self) | some m ↦ (ok tt, self) ]

-- The event is triggered with the dump of the model, which is None by then.
unfoldable pub delete : Bool → Exec Topology (Unit {0})
unfolding require_model delete_vims drop_model locked read_model modify trigger_topology_event
delete terraform = locked (do
  require_model
  vims ← read_model (λ m. ok m.vims)
  delete_vims (suc (length vims)) 0 terraform
  modify drop_model
  trigger_topology_event TopologyEventType.topo_delete)
