-- ===== src/Lib.antt =====
-- A verification library for ePEM, the NFVCL service that manages network topologies and blueprints.
--
-- The program. `src/nfvcl/topology/topology.py` is the service that holds the topology: the VIMs
-- (OpenStack sites), the networks with their reserved address ranges, the routers, the physical units
-- (PDUs), the Kubernetes clusters and the Prometheus servers of an installation. It keeps them in a
-- model (`src/nfvcl/models/topology/topology_models.py`), which it loads from a database and stores
-- there after each change, and it publishes an event for each change. Requests reach it through a
-- queue and one worker (`src/nfvcl/topology/topology_worker.py`), or as calls of the blueprints'
-- providers, of which `src/nfvcl/blueprints_ng/providers/pdu/pdu_provider.py` locks PDUs. Addresses
-- for blueprints are chosen by `src/nfvcl/utils/ipam.py`.
-- Blueprints are network services that are deployed on the topology. The manager of blueprints
-- (`src/nfvcl/blueprints_ng/lcm/blueprint_manager.py`) keeps a worker with a thread for each
-- (`blueprint_worker.py` beside it), which creates, changes and destroys it as its messages say; the
-- functions of a blueprint are found by the path of a request (`blueprint_type_manager.py`). The base
-- class `src/nfvcl/blueprints_ng/blueprint_ng.py` keeps the resources of a blueprint and takes them
-- down at its end, and the performance manager measures the operations. The HORSE endpoints
-- (`src/nfvcl/rest_endpoints/HORSE/horse.py`) apply a mitigation to a machine of a blueprint or
-- forward it to another module.
--
-- The files, each with its children:
--   Prelude, Result, Exec, PyList: names, errors, actions that may raise, and what the program uses of
--     Python's lists. An action gives back its state beside an exception, since what Python has written
--     before an exception stays written.
--   Network: `src/nfvcl/models/network/network_models.py`.
--   Ipam: `src/nfvcl/utils/ipam.py`.
--   Vim: `src/nfvcl/models/vim/vim_models.py`.
--   Kubernetes: `src/nfvcl/models/k8s/topology_k8s_model.py`.
--   Prometheus: `src/nfvcl/models/prometheus/prometheus_model.py`.
--   TopologyModel: `src/nfvcl/models/topology/topology_models.py`. The operations on each list stand in
--     a child of its name; TopologyModel.Registry is the contract of a finite map that they meet.
--   Topology: `src/nfvcl/topology/topology.py`, with the lock of `src/nfvcl/utils/decorators.py`. The
--     record Topology has the model, its dump, the stored document, the depth of the lock and the
--     published events; each method is an action on it, in the child for its subject.
--   TopologyMessage, TopologyWorker: `src/nfvcl/models/topology/topology_worker_model.py` and
--     `src/nfvcl/topology/topology_worker.py`.
--   PduProvider: `src/nfvcl/blueprints_ng/providers/pdu/pdu_provider.py`.
--   PyDict, Performance: `src/nfvcl/blueprints_ng/lcm/performance_manager.py` and
--     `src/nfvcl/models/performance.py`. Objects that two tables share are one entry of a table, to
--     which identifiers refer.
--   Text, Resources: Python's `split`, and `src/nfvcl/blueprints_ng/resources.py`.
--   Blueprint: `src/nfvcl/blueprints_ng/blueprint_ng.py`; Blueprint.Destruction has `destroy` over a
--     record of what the providers do, and Blueprint.Loading the registration of a loaded blueprint.
--   References: `__find_field_occurrences` and `__override_variables_in_dict(_ref)` of the same class,
--     on trees of named members that stand for objects and their dumps.
--   BlueprintType: `src/nfvcl/blueprints_ng/lcm/blueprint_type_manager.py`.
--   BlueprintWorker: `src/nfvcl/blueprints_ng/lcm/blueprint_worker.py`; BlueprintWorker.Listening is
--     `_listen`, over a record with the blueprint, the document, the performance manager, the events,
--     the answers to callers and the state of the thread.
--   BlueprintManager: `src/nfvcl/blueprints_ng/lcm/blueprint_manager.py`; BlueprintManager.Traces has
--     the requests to it and the progress of the threads as steps in any order.
--   Core5g: `src/nfvcl/models/blueprint_ng/core5g/common.py`, and in Core5g.Day2 the day-2 functions of
--     `src/nfvcl/blueprints_ng/modules/generic_5g/generic_5g.py` over the state of the blueprint; what
--     the class of a core overrides is a record of methods that may change this state in any way.
--   Horse: `src/nfvcl/rest_endpoints/HORSE/horse.py` and `src/nfvcl/models/HORSE/horse_models.py`.
--   Witnesses: the theorems at concrete inputs.
--
-- Choices. An IPv4 address is a number below 2 ^ 32, and arithmetic on addresses raises outside that
-- range, as the standard library does. Of each model the fields that some operation reads or writes
-- are kept. A reference to a VIM or a network inside the model is its position in the list. The loop
-- of `delete` goes over a list that it shortens, and is recursion on fuel, one more than the number of
-- VIMs, which is enough (Topology.Deletion). The inner loop of `get_available_network_ip` stops at the
-- first range that it changes, and is a search followed by a change. Validation of models, access to
-- the dictionaries of a request, the upload of files and the class of a PDU's configurator are
-- parameters, since they are code of other packages or output.
--
-- The functions of a blueprint are parameters that may change its model in any way. In Blueprint a
-- resource inside a state is its identifier, so what is checked when a blueprint is stored is that
-- these are registered; References has the states themselves, with the sorted paths and the changes of
-- the dump along them. A caller that waits is a callback, which is called or not. The manager's
-- requests do not wait for the workers; what the threads do in between is a step of its own.
--
-- Redis may refuse an event, which raises: a topology has the events that it takes as a field, and the
-- worker of a blueprint has these, and the models that its database takes, in the record Services. In
-- PduProvider Redis is taken to be reached, and so are the database of the topology and, inside the
-- methods of Blueprint and BlueprintManager, the database of the blueprints.
--
-- Not modelled: text and serialisation of models, the calls of OpenStack (the program never fills the
-- table of their clients, so the branches that use it raise KeyError), logging, the kinds
-- of blueprints but for the common part of the 5G cores, the other providers and the other REST endpoints.
pub mod Blueprint
pub mod BlueprintManager
pub mod BlueprintType
pub mod BlueprintWorker
pub mod Core5g
pub mod Exec
pub mod Horse
pub mod Ipam
pub mod Kubernetes
pub mod Network
pub mod PduProvider
pub mod Performance
pub mod Prelude
pub mod Prometheus
pub mod PyDict
pub mod PyList
pub mod References
pub mod Resources
pub mod Result
pub mod Text
pub mod Topology
pub mod TopologyMessage
pub mod TopologyModel
pub mod TopologyWorker
pub mod Vim
pub mod Witnesses
