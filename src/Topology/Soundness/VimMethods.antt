-- ===== src/Topology/Soundness/VimMethods.antt =====
-- topology/topology.py, the uniqueness of names: VIMs.
use e_pem.Prelude.{ℕ, String, Bool, Option, none, some, arith}
use e_pem.Result.{ok}
use e_pem.Exec.Rules.{Keeps}
use e_pem.Vim
use e_pem.Vim.{VimModel, UpdateVimModel}
use e_pem.TopologyModel.Preservation.{add_vim-Preserves, del_vim-Preserves}
use e_pem.Topology.Soundness.{IsSound, sound_rules, KeepsName, on_vim-IsSound}
use e_pem.Topology.VimUpdates.{add_vim_net, del_vim_net, add_vim_router, del_vim_router}
use e_pem.Topology.Vims.{
  terraform_vim, add_vim, destroy_resources, del_vim, apply_update, update_found, update_vim,
}
use e_pem.Topology.Routers.{drop_router}

-- The methods of a VIM leave its name alone.
pub add_net-KeepsName : (n : String) → KeepsName (λ v. ok (tt, Vim.add_net n v))
unfolding Vim.add_net
add_net-KeepsName n v v' a e = ground arith

pub del_net-KeepsName : (n : String) → KeepsName (Vim.del_net n)
unfolding Vim.del_net
del_net-KeepsName n v v' a e = ground arith

pub add_router-KeepsName : (n : String) → KeepsName (λ v. ok (tt, Vim.add_router n v))
unfolding Vim.add_router
add_router-KeepsName n v v' a e = ground arith

pub del_router-KeepsName : (n : String) → KeepsName (Vim.del_router n)
unfolding Vim.del_router
del_router-KeepsName n v v' a e = ground arith

pub drop_router-KeepsName : (n : String) → KeepsName (drop_router n)
unfolding drop_router Vim.get_router
drop_router-KeepsName n v v' a e = ground (arith, del_router-KeepsName n v v' a)

pub add_area-KeepsName : (n : ℕ) → KeepsName (λ v. ok (tt, Vim.add_area n v))
unfolding Vim.add_area
add_area-KeepsName n v v' a e = ground arith

pub del_area-KeepsName : (n : ℕ) → KeepsName (Vim.del_area n)
unfolding Vim.del_area
del_area-KeepsName n v v' a e = ground arith

pub ruleset vim_rules = (
  sound_rules, on_vim-IsSound, add_net-KeepsName, del_net-KeepsName, add_router-KeepsName,
  del_router-KeepsName, drop_router-KeepsName, add_area-KeepsName, del_area-KeepsName,
)

pub add_vim_net-IsSound : (n : String) (vim : ℕ) (t : Bool) → Keeps IsSound (add_vim_net n vim t)
unfolding add_vim_net
add_vim_net-IsSound n vim t = search vim_rules depth 8

pub del_vim_net-IsSound : (n : String) (vim : ℕ) (t : Bool) → Keeps IsSound (del_vim_net n vim t)
unfolding del_vim_net
del_vim_net-IsSound n vim t = search vim_rules depth 8

pub del_vim_router-IsSound :
    (n : String) (vim : ℕ) (t : Bool) → Keeps IsSound (del_vim_router n vim t)
unfolding del_vim_router
del_vim_router-IsSound n vim t = search vim_rules depth 8

pub add_vim_router-IsSound :
    (n : String) (vim : ℕ) (t : Bool) → Keeps IsSound (add_vim_router n vim t)
unfolding add_vim_router
add_vim_router-IsSound n vim t = search vim_rules depth 9

ruleset update_rules = (
  vim_rules, add_vim_net-IsSound, del_vim_net-IsSound, add_vim_router-IsSound,
  del_vim_router-IsSound,
)

terraform_vim-IsSound : (v : VimModel) (vim : ℕ) → Keeps IsSound (terraform_vim v vim)
unfolding terraform_vim
terraform_vim-IsSound v vim = search update_rules

pub add_vim-IsSound : (v : VimModel) (t : Bool) → Keeps IsSound (add_vim v t)
unfolding add_vim
add_vim-IsSound v t = search (sound_rules, add_vim-Preserves, terraform_vim-IsSound) depth 9

destroy_resources-IsSound : (v : VimModel) → Keeps IsSound (destroy_resources v)
unfolding destroy_resources
destroy_resources-IsSound v = search sound_rules depth 8

pub del_vim-IsSound : (name : String) (t : Bool) → Keeps IsSound (del_vim name t)
unfolding del_vim
del_vim-IsSound name t = search (sound_rules, del_vim-Preserves, destroy_resources-IsSound) depth 9

apply_update-IsSound :
    (u : UpdateVimModel) (vim : ℕ) (t : Bool) → Keeps IsSound (apply_update u vim t)
unfolding apply_update
apply_update-IsSound u vim t = search update_rules depth 9

update_found-IsSound :
    (u : UpdateVimModel) (t : Bool) (vim : Option ℕ) → Keeps IsSound (update_found u t vim)
unfolding update_found
update_found-IsSound u t none = search sound_rules
update_found-IsSound u t (some vim) = search (sound_rules, apply_update-IsSound) depth 8

pub update_vim-IsSound : (u : UpdateVimModel) (t : Bool) → Keeps IsSound (update_vim u t)
unfolding update_vim
update_vim-IsSound u t = search (sound_rules, update_found-IsSound) depth 8
