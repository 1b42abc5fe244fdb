-- ===== src/Witnesses/Pdus.antt =====
-- The theorems on PDUs, VIMs, routers and Prometheus servers at concrete inputs.
use e_pem.Prelude.{String, ◌≡◌, ◌≢◌, refl, arith, true, false, none, some, [], ◌∷◌, eq_iff, ◌==◌}
use e_pem.Result.{ok, err, value_error, pdu_provider_exception}
use e_pem.Exec.{◌>>=◌}
use e_pem.PyList.{contains, find_first, find_index, select, index_or, pop_at}
use e_pem.Network.{PduModel, PduType, RouterModel}
use e_pem.Vim.{VimModel, is_in, pop_name, del_net, add_router, del_router, get_router}
use e_pem.Vim.Names.{del_router-add_router}
use e_pem.TopologyModel.{TopologyModel}
use e_pem.TopologyModel.Routers as RouterList
use e_pem.TopologyModel.RouterIndex.{router-unreachable}
use e_pem.Prometheus.{
  PrometheusTargetModel, PrometheusServerModel, lists, conflict, first_conflict, add_target,
}
use e_pem.PduProvider.{final_cleanup, PduProvider, find_by_name, lock_pdu, unlock_pdu, find_pdu}
use e_pem.PduProvider.Locking.{
  lock_pdu-locks, lock_pdu-excludes, lock-unlock_pdu, stored, IsWritten, Changed,
}
use e_pem.PduProvider.Cleanup.{freed, knows, final_cleanup-frees}
use e_pem.PduProvider.Finding.{find_pdu-fits, fits, single}
use e_pem.Witnesses.Data.{gnb, vim, topology_model, provider}

gnb_stored : stored (some topology_model) gnb.name ≡ some gnb
unfolding find_first
gnb_stored = refl

not_known : contains (λ x. x.name == gnb.name) (provider "b1").locked_pdus ≡ false
unfolding contains
not_known = refl

lock_pdu-locks_example :
    (after : PduProvider) × (locked : PduModel) × (locked ≡ record gnb { locked_by = some "b1" })
    × (lock_pdu gnb (provider "b1") ≡ (ok locked, after))
    × IsWritten (some topology_model) after.db locked
    × Changed (provider "b1") after (locked ∷ [])
lock_pdu-locks_example = lock_pdu-locks (provider "b1") gnb gnb refl gnb_stored

abbrev late : PduProvider
late = record (provider "b2") { db = (lock_pdu gnb (provider "b1")).1.db }

different : ◌≢◌ {A = String} "b1" "b2"
different = λ h. ground (arith, (eq_iff "b1" "b2").1 h)

lock_pdu-excludes_example :
    ((find_by_name "gnb0" >>= lock_pdu) late ≡ (err pdu_provider_exception, late))
    × ((find_by_name "gnb0" >>= unlock_pdu) late ≡ (err pdu_provider_exception, late))
lock_pdu-excludes_example =
    lock_pdu-excludes (provider "b1") late gnb gnb refl gnb_stored refl different

lock-unlock_pdu_example :
    (after : PduProvider) × ((lock_pdu gnb >>= unlock_pdu) (provider "b1") ≡ (ok gnb, after))
    × IsWritten (some topology_model) after.db gnb
    × Changed (provider "b1") after []
lock-unlock_pdu_example = lock-unlock_pdu (provider "b1") gnb gnb refl gnb_stored not_known

find_pdu-fits_example :
    find_pdu 0 PduType.gnb none (some "gnb0") (provider "b1")
    ≡ (single (select (fits 0 PduType.gnb none (some "gnb0")) (gnb ∷ [])), provider "b1")
find_pdu-fits_example =
    find_pdu-fits 0 PduType.gnb none (some "gnb0") (provider "b1") topology_model refl

data_new : is_in "data" vim.networks ≡ false
unfolding contains
data_new = refl

data_named : ◌≢◌ {A = String} "data" ""
data_named = λ h. ground (arith, (eq_iff "data" "").1 h)

del_router-add_router_example :
    (del_router "data" (add_router "data" vim) ≡ ok (none, add_router "data" vim))
    × (get_router "data" (add_router "data" vim) ≡ some "data")
del_router-add_router_example = del_router-add_router "data" vim data_new data_named

abbrev vim_without : VimModel
vim_without = record vim { networks = [] }

mgmt_removed : del_net "mgmt" vim ≡ ok (some "mgmt", vim_without)
unfolding del_net pop_name contains find_index index_or pop_at
mgmt_removed = refl

abbrev router : RouterModel
router = record { name = "r0"; ports = []; external_gateway_info = none }

abbrev routed : TopologyModel
routed = record topology_model { routers = router ∷ [] }

router_added : RouterList.add_router router topology_model ≡ ok (router, routed)
unfolding RouterList.add_router contains
router_added = refl

no_such_vim : find_first (λ v. v.name == router.name) topology_model.vims ≡ none
unfolding find_first
no_such_vim = refl

router-unreachable_example :
    (contains (λ item. item.name == "r0") routed.routers ≡ true)
    × (RouterList.get_router "r0" routed ≡ err value_error)
    × (RouterList.del_router "r0" routed ≡ err value_error)
router-unreachable_example =
    router-unreachable router topology_model routed router router_added no_such_vim

abbrev job : PrometheusTargetModel
job = record { targets = "10.0.0.1" ∷ []; labels = [] }

abbrev new_job : PrometheusTargetModel
new_job = record { targets = "10.0.0.2" ∷ []; labels = [] }

abbrev server : PrometheusServerModel
server = record { id = "p0"; targets = job ∷ [] }

abbrev grown : PrometheusServerModel
grown = record { id = "p0"; targets = job ∷ new_job ∷ [] }

no_shared_address : first_conflict new_job server.targets ≡ none
unfolding first_conflict conflict find_index contains
no_shared_address = refl

new_listed : lists new_job "10.0.0.2" ≡ true
unfolding contains
new_listed = refl

job_added : add_target new_job server ≡ ok grown
unfolding add_target first_conflict conflict find_index contains
job_added = refl

abbrev held_gnb : PduModel
held_gnb = record gnb { locked_by = some "b1" }

abbrev holder : PduProvider
holder = record {
  blueprint_id = "b1";
  locked_pdus = held_gnb ∷ [];
  saved = held_gnb ∷ [];
  db = some (record topology_model { pdus = held_gnb ∷ [] });
}

final_cleanup-frees_example :
    (after : PduProvider) × (final_cleanup holder ≡ (ok tt, after))
    × (stored after.db "gnb0"
        ≡ freed "b1" (knows "gnb0" holder.locked_pdus) (stored holder.db "gnb0"))
final_cleanup-frees_example = final_cleanup-frees holder "gnb0"
