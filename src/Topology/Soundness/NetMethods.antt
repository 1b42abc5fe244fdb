-- ===== src/Topology/Soundness/NetMethods.antt =====
-- topology/topology.py, the uniqueness of names: networks and routers.
use e_pem.Prelude.{ℕ, suc, String, Bool, List, [], ◌∷◌}
use e_pem.Exec.{Exec}
use e_pem.Exec.Rules.{Keeps, Keeps-bind}
use e_pem.Network.{NetworkModel, RouterModel}
use e_pem.Vim.{VimModel}
use e_pem.TopologyModel.Preservation.{
  add_network-Preserves, del_network-Preserves, add_router-Preserves, del_router-Preserves,
}
use e_pem.Topology.{Topology}
use e_pem.Topology.Soundness.{IsSound, sound_rules}
use e_pem.Topology.Networks.{
  VimNames, no_names, flag, names, for_each_name, add_network_model, del_network, del_net_on_vims,
  del_network_by_name,
}
use e_pem.Topology.Routers.{add_router, del_router}
use e_pem.Topology.Soundness.VimMethods.{vim_rules, add_vim_net-IsSound, del_vim_net-IsSound}

for_each_name-IsSound :
    (l : VimNames) (body : String → Exec Topology (Unit {0}))
    → ((name : String) → Keeps IsSound (body name))
    → Keeps IsSound (for_each_name l body)
unfolding for_each_name
for_each_name-IsSound no_names body h = search sound_rules
for_each_name-IsSound (flag b) body h = search sound_rules
for_each_name-IsSound (names l) body h = search sound_rules

pub add_network_model-IsSound :
    (n : NetworkModel) (l : VimNames) (t : Bool) → Keeps IsSound (add_network_model n l t)
unfolding add_network_model
add_network_model-IsSound n l t =
    search (sound_rules, add_network-Preserves, for_each_name-IsSound, add_vim_net-IsSound) depth 9

pub del_network-IsSound :
    (n : NetworkModel) (l : VimNames) (t : Bool) → Keeps IsSound (del_network n l t)
unfolding del_network
del_network-IsSound n l t =
    search (sound_rules, del_network-Preserves, for_each_name-IsSound, del_vim_net-IsSound) depth 9

del_net_on_vims-IsSound :
    (n : String) (i : ℕ) (vims : List VimModel) → Keeps IsSound (del_net_on_vims n i vims)
unfolding del_net_on_vims
del_net_on_vims-IsSound n i [] = search sound_rules
del_net_on_vims-IsSound n i (v ∷ vs) =
    Keeps-bind _ _ (search (sound_rules, del_vim_net-IsSound) depth 8)
      (λ _. del_net_on_vims-IsSound n (suc i) vs)

pub del_network_by_name-IsSound : (n : String) (t : Bool) → Keeps IsSound (del_network_by_name n t)
unfolding del_network_by_name
del_network_by_name-IsSound n t =
    search (sound_rules, del_network-Preserves, del_net_on_vims-IsSound) depth 9

pub add_router-IsSound : (r : RouterModel) → Keeps IsSound (add_router r)
unfolding add_router
add_router-IsSound r = search (sound_rules, add_router-Preserves)

pub del_router-IsSound : (name : String) (l : VimNames) → Keeps IsSound (del_router name l)
unfolding del_router
del_router-IsSound name l = search (vim_rules, del_router-Preserves, for_each_name-IsSound) depth 9
