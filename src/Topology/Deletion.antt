-- ===== src/Topology/Deletion.antt =====
-- topology/topology.py, `delete`: the loop that deletes the VIMs while it goes over them ends, and
-- what follows it.
use e_pem.Prelude.{
  ℕ, zero, suc, ◌<◌, String, ◌≡◌, refl, true, false, none, some, List, [], ◌∷◌, ◌==◌, arith, inl,
  inr, Bool-cases, eq_refl, eq_iff,
}
use e_pem.Result.{Result-cases, ok, err, attribute_error}
use e_pem.Exec.{◌>>=◌, pure, reads, modify}
use e_pem.PyList.{get_at, pop_at, find_first, index_or, length, remove_first}
use e_pem.PyList.Search.{find_index-some}
use e_pem.Vim.{VimModel}
use e_pem.TopologyModel.{TopologyModel, find_vim_index}
use e_pem.TopologyModel.Vims as VimList
use e_pem.Topology.{
  Topology, TopologyEventType, Dump, locked, acquire, release, on_model, read_model,
  save_topology_from_model, trigger_topology_event, trigger_redis_event,
}
use e_pem.Topology.Vims.{del_vim}
use e_pem.Topology.Lifecycle.{delete_vims, delete, drop_model, require_model, if_there}

-- A VIM that is read at some position is found by its name.
find_first-at :
    (l : List VimModel) (i : ℕ) (v : VimModel)
    → get_at l i ≡ ok v
    → (w : VimModel) × (find_first (λ x. x.name == v.name) l ≡ some w) × (w.name ≡ v.name)
unfolding get_at find_first
find_first-at [] i v e = absurd (ground arith)
find_first-at (x ∷ xs) zero v e = (x, ground (arith, eq_refl v.name), ground arith)
find_first-at (x ∷ xs) (suc i) v e = elim (Bool-cases (x.name == v.name)) [
  | inl same ↦ (x, rw same refl, ground (arith, eq_iff x.name v.name))
  | inr other ↦ let (w, found, name) = find_first-at xs i v e in (w, rw other found, name)
]

length-pop_at :
    (l : List VimModel) (i : ℕ) (v : VimModel) (l' : List VimModel)
    → pop_at l i ≡ ok (v, l')
    → length l ≡ suc (length l')
unfolding pop_at
length-pop_at [] i v l' e = absurd (ground arith)
length-pop_at (x ∷ xs) zero v l' e = ground arith
length-pop_at (x ∷ xs) (suc i) v [] e = absurd (ground arith)
length-pop_at (x ∷ xs) (suc i) v (y ∷ ys) e = ground (arith, length-pop_at xs i v ys)

-- Redis takes the event of every VIM that is deleted.
abbrev pub TakesDeletions : Topology → Type 0
TakesDeletions s = (dump : Dump) → s.redis TopologyEventType.topo_vim_del dump ≡ true

del_vim-returns :
    (s : Topology) (m m' : TopologyModel) (name : String) (v w : VimModel)
    → TakesDeletions s
    → s.model ≡ some m
    → VimList.get_vim name m ≡ ok v
    → VimList.del_vim v.name m ≡ ok (w, m')
    → (after : Topology) × (del_vim name false s ≡ (ok tt, after))
      × (after.model ≡ some m')
      × TakesDeletions after
unfolding del_vim locked acquire release on_model read_model reads save_topology_from_model
    trigger_topology_event trigger_redis_event ◌>>=◌ pure
del_vim-returns s m m' name v w takes e found deleted = (
  record s {
    model = some m';
    data_dump = some m';
    db = some m';
    events = (TopologyEventType.topo_vim_del, Dump.of_topology m') ∷ s.events;
  },
  ground (arith, takes (Dump.of_topology m')),
  refl,
  takes,
)

-- Deleting a VIM that is there returns, and leaves one VIM less.
del_vim-shortens :
    (s : Topology) (m : TopologyModel) (i : ℕ) (v : VimModel)
    → TakesDeletions s
    → s.model ≡ some m
    → get_at m.vims i ≡ ok v
    → (after : Topology) × (m' : TopologyModel) × (del_vim v.name false s ≡ (ok tt, after))
      × (after.model ≡ some m')
      × (length m.vims ≡ suc (length m'.vims))
      × TakesDeletions after
unfolding VimList.get_vim VimList.del_vim find_vim_index index_or
del_vim-shortens s m i v takes e read =
    let (w, first, name) = find_first-at m.vims i v read in
    let (j, at) = find_index-some (λ x. x.name == v.name) m.vims w first in
    let m' : TopologyModel = record m { vims = remove_first (λ x. x.name == v.name) m.vims } in
    let (after, ran, left, still) =
      del_vim-returns s m m' v.name w w takes e (ground (arith, at.found, at.read))
        (rw name (ground (arith, at.found, at.popped))) in
    (after, m', ran, left, length-pop_at m.vims j w _ at.popped, still)

-- The fuel suffices: the loop ends, wherever it starts.
delete_vims-ends :
    (fuel i : ℕ) (s : Topology) (m : TopologyModel)
    → TakesDeletions s
    → s.model ≡ some m
    → length m.vims < fuel
    → (after : Topology) × (delete_vims fuel i false s ≡ (ok tt, after))
unfolding delete_vims read_model reads if_there ◌>>=◌ pure
delete_vims-ends zero i s m takes e enough = absurd (ground arith)
delete_vims-ends (suc fuel) i s m takes e enough = elim (Result-cases (get_at m.vims i)) [
  | inr (x, past) ↦ (s, ground arith)
  | inl (v, read) ↦
      let (middle, m', ran, left, shorter, still) = del_vim-shortens s m i v takes e read in
      let (after, ended) = delete_vims-ends fuel (suc i) middle m' still left (ground arith) in
      (after, ground arith)
]

-- Deleting a topology that is there, without `terraform`, always ends in AttributeError, with neither
-- a model nor a stored document left, where Redis takes the events of the VIMs that are deleted.
pub delete-fails :
    (s : Topology) (m : TopologyModel)
    → TakesDeletions s
    → s.model ≡ some m
    → (after : Topology) × (delete false s ≡ (err attribute_error, after))
      × (after.model ≡ none)
      × (after.db ≡ none)
unfolding delete locked acquire release require_model read_model reads modify drop_model
    trigger_topology_event ◌>>=◌
delete-fails s m takes e =
    let (middle, ended) =
      delete_vims-ends (suc (length m.vims)) 0 (acquire s) m takes e (ground arith) in
    (release (drop_model middle), ground arith, refl, refl)
