-- ===== src/TopologyWorker.antt =====
-- topology/topology_worker.py: the worker that takes
-- the requests on the topology from a queue, one at a time.
pub mod Requests
pub mod Failures
pub mod Persistence
use e_pem.Prelude.{String, Bool, true, false, Option, none, some, List, [], ◌∷◌}
use e_pem.Result.{Error, Result, ok, err}
use e_pem.Exec.{Exec, ◌>>=◌, ◌>>◌, pure, lift}
use e_pem.Network.{NetworkModel, RouterModel, PduModel}
use e_pem.Vim.{VimModel, UpdateVimModel}
use e_pem.Kubernetes.{TopologyK8sModel}
use e_pem.Prometheus.{PrometheusServerModel}
use e_pem.TopologyModel.{TopologyModel}
use e_pem.TopologyMessage.{TopologyWorkerMessage, TopologyWorkerOperation}
use e_pem.Topology.{Topology, TopologyEventType, Dump, build_topology}
use e_pem.Topology.Vims.{add_vim, del_vim, update_vim}
use e_pem.Topology.Networks.{VimNames, no_names, flag, add_network_model, del_network_by_name}
use e_pem.Topology.Routers.{add_router, del_router}
use e_pem.Topology.Pdus.{add_pdu, del_pdu}
use e_pem.Topology.Clusters.{add_k8scluster, del_k8scluster, update_k8scluster}
use e_pem.Topology.Servers.{add_prometheus_server, del_prometheus_server, update_prometheus_server}
use e_pem.Topology.Lifecycle.{create, delete}

-- What the worker calls outside the package, or on the file system and the network: `model_validate`
-- of pydantic for each model, the access to a dictionary, `remove_files_by_pattern` and the upload to
-- a Prometheus server, and Redis, which takes an event or does not.
pub record Outside (D : Type 0) : Type 0 where
  pub topology : D → Result TopologyModel
  pub vim : D → Result VimModel
  pub vim_update : D → Result UpdateVimModel
  pub network : D → Result NetworkModel
  pub router : D → Result RouterModel
  pub pdu : D → Result PduModel
  pub cluster : D → Result TopologyK8sModel
  pub server : D → Result PrometheusServerModel
  pub field : String → D → Result String
  pub terraform : Option D → Result Bool
  pub remove_files : String → Result (Unit {0})
  pub update_remote_sd_file : PrometheusServerModel → Result (Unit {0})
  pub redis : TopologyEventType → Dump → Bool

-- `add_network` of the topology
unfoldable pub add_network : NetworkModel → VimNames → Bool → Exec Topology (Unit {0})
unfolding add_network_model pure
add_network network vim_names_list terraform = do
  added ← add_network_model network vim_names_list terraform
  pure tt

module _ {D : Type 0} (outside : Outside D) where
  -- The cases of start_operation. ADD_NET passes `terraform` in the place of `vim_names_list`.
  unfoldable pub operation : TopologyWorkerOperation → D → Option D → Exec Topology (Unit {0})
  unfolding lift pure create delete add_vim update_vim del_vim add_network del_network_by_name
  operation TopologyWorkerOperation.add_topology data_dict optional_data = do
    topo ← lift (outside.topology data_dict)
    terraform ← lift (outside.terraform optional_data)
    create topo terraform
  operation TopologyWorkerOperation.del_topology data_dict optional_data = do
    terraform ← lift (outside.terraform optional_data)
    delete terraform
  operation TopologyWorkerOperation.add_vim data_dict optional_data = do
    vim_model ← lift (outside.vim data_dict)
    terraform ← lift (outside.terraform optional_data)
    add_vim vim_model terraform
  operation TopologyWorkerOperation.update_vim data_dict optional_data = do
    update_msg ← lift (outside.vim_update data_dict)
    terraform ← lift (outside.terraform optional_data)
    update_vim update_msg terraform
  operation TopologyWorkerOperation.del_vim data_dict optional_data = do
    vim_name ← lift (outside.field "vim_name" data_dict)
    terraform ← lift (outside.terraform optional_data)
    del_vim vim_name terraform
  operation TopologyWorkerOperation.add_net data_dict optional_data = do
    network ← lift (outside.network data_dict)
    terraform ← lift (outside.terraform optional_data)
    add_network network (flag terraform) false
  operation TopologyWorkerOperation.del_net data_dict optional_data = do
    network_id ← lift (outside.field "network_id" data_dict)
    terraform ← lift (outside.terraform optional_data)
    del_network_by_name network_id terraform
  operation TopologyWorkerOperation.add_router data_dict optional_data = do
    router ← lift (outside.router data_dict)
    add_router router
  operation TopologyWorkerOperation.del_router data_dict optional_data = do
    router_id ← lift (outside.field "router_id" data_dict)
    del_router router_id no_names
  operation TopologyWorkerOperation.add_pdu data_dict optional_data = do
    pdu_model ← lift (outside.pdu data_dict)
    add_pdu pdu_model
  operation TopologyWorkerOperation.del_pdu data_dict optional_data = do
    pdu_id ← lift (outside.field "pdu_id" data_dict)
    del_pdu pdu_id
  operation TopologyWorkerOperation.add_k8s data_dict optional_data = do
    cluster ← lift (outside.cluster data_dict)
    add_k8scluster cluster
  operation TopologyWorkerOperation.del_k8s data_dict optional_data = do
    cluster_name ← lift (outside.field "cluster_name" data_dict)
    del_k8scluster cluster_name
  operation TopologyWorkerOperation.update_k8s data_dict optional_data = do
    cluster ← lift (outside.cluster data_dict)
    update_k8scluster cluster
  operation TopologyWorkerOperation.add_prom data_dict optional_data = do
    prom_server ← lift (outside.server data_dict)
    add_prometheus_server prom_server
  operation TopologyWorkerOperation.del_prom data_dict optional_data = do
    prom_srv_id ← lift (outside.field "prom_srv_id" data_dict)
    del_prometheus_server outside.remove_files prom_srv_id false
    pure tt
  operation TopologyWorkerOperation.upd_prom data_dict optional_data = do
    prom_server ← lift (outside.server data_dict)
    update_prometheus_server outside.update_remote_sd_file prom_server

  unfoldable pub start_operation : TopologyWorkerMessage D → Exec Topology (Unit {0})
  unfolding operation
  start_operation worker_message =
      operation worker_message.ops_type worker_message.data_dict worker_message.optional_data

  -- One turn of the loop, from a stored document to the next: the object is built anew, and an
  -- exception only clears `success`.
  unfoldable pub handle : TopologyWorkerMessage D → Option TopologyModel → Option TopologyModel
  unfolding start_operation
  handle worker_message db = (start_operation worker_message (build_topology outside.redis db)).1.db

  unfoldable pub listen :
      List (TopologyWorkerMessage D) → Option TopologyModel → Option TopologyModel
  unfolding handle
  listen [] db = db
  listen (worker_message ∷ messages) db = listen messages (handle worker_message db)
