-- ===== src/TopologyModel/Vims.antt =====
-- VIMs of the topology model.
use e_pem.Prelude.{ℕ, String, none, some, List, [], ◌∷◌, ◌++◌, ◌==◌, leb, if◌then◌else◌}
use e_pem.Result.{Result, ok, err, value_error, ◌>>=◌}
use e_pem.PyList.{contains, find_first, select, get_at, set_at, pop_at, length}
use e_pem.Vim.{VimModel, area_in}
use e_pem.TopologyModel.{TopologyModel, find_vim_index}

unfoldable pub add_vim : VimModel → TopologyModel → Result (VimModel × TopologyModel)
add_vim vim self =
    if contains (λ item. item.name == vim.name) self.vims
    then err value_error
    else ok (vim, record self { vims = self.vims ++ vim ∷ [] })

unfoldable pub del_vim : String → TopologyModel → Result (VimModel × TopologyModel)
unfolding find_vim_index
del_vim name self = do
  index ← find_vim_index name self
  (removed, rest) ← pop_at self.vims index
  ok (removed, record self { vims = rest })

unfoldable pub upd_vim : VimModel → TopologyModel → Result (VimModel × TopologyModel)
unfolding find_vim_index
upd_vim vim self = do
  index ← find_vim_index vim.name self
  items ← set_at self.vims index vim
  ok (vim, record self { vims = items })

unfoldable pub get_vim : String → TopologyModel → Result VimModel
unfolding find_vim_index
get_vim name self = do index ← find_vim_index name self; get_at self.vims index

unfoldable pub get_vim_by_area : ℕ → TopologyModel → Result VimModel
get_vim_by_area area_id self = elim (find_first (λ item. area_in area_id item.areas) self.vims) [
  | none ↦ err value_error
  | some vim ↦ ok vim
]

unfoldable pub get_vim_list_by_area : ℕ → TopologyModel → Result (List VimModel)
get_vim_list_by_area area_id self =
    let vim_list = select (λ item. area_in area_id item.areas) self.vims in
    if leb (length vim_list) 0 then err value_error else ok vim_list

unfoldable pub get_vim_name_by_area : ℕ → TopologyModel → Result String
unfolding get_vim_by_area
get_vim_name_by_area area_id self = do vim ← get_vim_by_area area_id self; ok vim.name
