-- ===== src/Vim.antt =====
-- models/vim/vim_models.py: the VIM model, its networks, routers and areas, and the update message.
-- Of the fields of a VIM those that some operation reads or writes are kept.
pub mod Names
use e_pem.Prelude.{
  ℕ, String, Bool, Option, none, some, List, [], ◌∷◌, ◌++◌, ◌||◌, ◌==◌, not, nat_eq, if◌then◌else◌,
}
use e_pem.Result.{Result, ok, value_error, ◌>>=◌}
use e_pem.PyList.{contains, find_index, index_or, pop_at}

pub record VimModel : Type 0 where
  pub name : String
  pub use_floating_ip : Bool
  pub networks : List String
  pub routers : List String
  pub areas : List ℕ

-- `name in names`, for names and for area numbers
abbrev pub is_in : String → List String → Bool
is_in name names = contains (λ n. n == name) names

abbrev pub area_in : ℕ → List ℕ → Bool
area_in area areas = contains (λ a. nat_eq a area) areas

-- names.pop(names.index(name))
unfoldable pub pop_name : String → List String → Result (String × List String)
pop_name name names = do
  i ← index_or value_error (find_index (λ n. n == name) names)
  pop_at names i

unfoldable pub add_net : String → VimModel → VimModel
add_net net self =
    if is_in net self.networks || net == ""
    then self
    else record self { networks = self.networks ++ net ∷ [] }

unfoldable pub del_net : String → VimModel → Result (Option String × VimModel)
unfolding pop_name
del_net net_name self = if not (is_in net_name self.networks) then ok (none, self) else (do
  (net, rest) ← pop_name net_name self.networks
  ok (some net, record self { networks = rest }))

unfoldable pub get_net : String → VimModel → Option String
get_net net_name self = if not (is_in net_name self.networks) then none else some net_name

unfoldable pub add_router : String → VimModel → VimModel
add_router router self =
    if is_in router self.routers || router == ""
    then self
    else record self { routers = self.routers ++ router ∷ [] }

-- The test is on the networks, as in the source.
unfoldable pub del_router : String → VimModel → Result (Option String × VimModel)
unfolding pop_name
del_router router_name self = if not (is_in router_name self.networks) then ok (none, self) else (do
  (router, rest) ← pop_name router_name self.routers
  ok (some router, record self { routers = rest }))

-- `area_id == ""` is false for a number.
unfoldable pub add_area : ℕ → VimModel → VimModel
add_area area_id self =
    if area_in area_id self.areas then self else record self { areas = self.areas ++ area_id ∷ [] }

unfoldable pub del_area : ℕ → VimModel → Result (Option ℕ × VimModel)
del_area area_id self = if not (area_in area_id self.areas) then ok (none, self) else (do
  i ← index_or value_error (find_index (λ a. nat_eq a area_id) self.areas)
  (area, rest) ← pop_at self.areas i
  ok (some area, record self { areas = rest }))

unfoldable pub get_router : String → VimModel → Option String
get_router router_name self =
    if not (is_in router_name self.routers) then none else some router_name

pub record UpdateVimModel : Type 0 where
  pub name : String
  pub networks_to_add : List String
  pub networks_to_del : List String
  pub routers_to_add : List String
  pub routers_to_del : List String
  pub areas_to_add : List ℕ
  pub areas_to_del : List ℕ
