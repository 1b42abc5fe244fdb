-- ===== src/Topology/Soundness/RangeMethods.antt =====
-- topology/topology.py, the uniqueness of names: reservations.
use e_pem.Prelude.{ℕ, String, ◌≡◌, subst, Option, none, some, List, [], ◌∷◌, map, arith, inl, inr}
use e_pem.Result.{Result-cases, ok}
use e_pem.Exec.Rules.{Keeps}
use e_pem.PyList.{get_at, set_at}
use e_pem.PyList.Keys.{HasUniqueKeys-same, map-set_at}
use e_pem.Network
use e_pem.Network.{NetworkModel, IPv4ReservedRange, IPv4Pool}
use e_pem.TopologyModel.{find_net_index}
use e_pem.TopologyModel.WellFormed.{IsWellFormed, Preserves, with_networks}
use e_pem.Topology.Networks.{get_network_model}
use e_pem.Topology.Ranges.{
  reserve_in, set_reserved_ip_range, reserve_range, release_in_all, release_everywhere, release_in,
  released, release_ranges,
}
use e_pem.Topology.Soundness.{IsSound, sound_rules}

add_reserved_range-name :
    (r : IPv4ReservedRange) (n n' : NetworkModel)
    → Network.add_reserved_range r n ≡ ok n'
    → n.name ≡ n'.name
unfolding Network.add_reserved_range
add_reserved_range-name r n n' e = ground arith

release_range-name :
    (owner : String) (r : Option IPv4ReservedRange) (n n' : NetworkModel) (a : _)
    → Network.release_range owner r n ≡ ok (a, n')
    → n.name ≡ n'.name
unfolding Network.release_range Network.release_at
release_range-name owner r n n' a e = ground arith

reserve_in-Preserves : (n : String) (r : IPv4ReservedRange) → Preserves (reserve_in n r)
unfolding reserve_in
reserve_in-Preserves n r = record {
  at = λ m m' a w e. elim (Result-cases (find_net_index n m)) [
    | inr (x, bad) ↦ absurd (ground arith)
    | inl (i, found) ↦ elim (Result-cases (get_at m.networks i)) [
      | inr (x, bad) ↦ absurd (ground arith)
      | inl (net, read) ↦ elim (Result-cases (Network.add_reserved_range r net)) [
        | inr (x, bad) ↦ absurd (ground arith)
        | inl (net', ran) ↦ elim (Result-cases (set_at m.networks i net')) [
          | inr (x, bad) ↦ absurd (ground arith)
          | inl (l, written) ↦ subst IsWellFormed (ground arith) (
              with_networks m w l (
                HasUniqueKeys-same (λ x. x.name) m.networks l
                  (map-set_at (λ x. x.name) m.networks i net net' l read
                    (add_reserved_range-name r net net' ran) written)
                  w.networks))
        ]
      ]
    ]
  ];
}

release_in-Preserves :
    (n owner : String) (r : Option IPv4ReservedRange) → Preserves (release_in n owner r)
unfolding release_in
release_in-Preserves n owner r = record {
  at = λ m m' a w e. elim (Result-cases (find_net_index n m)) [
    | inr (x, bad) ↦ absurd (ground arith)
    | inl (i, found) ↦ elim (Result-cases (get_at m.networks i)) [
      | inr (x, bad) ↦ absurd (ground arith)
      | inl (net, read) ↦ elim (Result-cases (Network.release_range owner r net)) [
        | inr (x, bad) ↦ absurd (ground arith)
        | inl ((b, net'), ran) ↦ elim (Result-cases (set_at m.networks i net')) [
          | inr (x, bad) ↦ absurd (ground arith)
          | inl (l, written) ↦ subst IsWellFormed (ground arith) (
              with_networks m w l (
                HasUniqueKeys-same (λ x. x.name) m.networks l
                  (map-set_at (λ x. x.name) m.networks i net net' l read
                    (release_range-name owner r net net' b ran) written)
                  w.networks))
        ]
      ]
    ]
  ];
}

-- The loop over all networks changes no name.
map-release_in_all :
    (owner : String) (r : Option IPv4ReservedRange) (l l' : List NetworkModel) (a : _)
    → release_in_all owner r l ≡ ok (a, l')
    → map (λ x. x.name) l ≡ map (λ x. x.name) l'
unfolding release_in_all
map-release_in_all owner r [] l' a e = ground arith
map-release_in_all owner r (n ∷ ns) l' a e = elim (Result-cases (Network.release_range owner r n)) [
  | inr (x, bad) ↦ absurd (ground arith)
  | inl ((some b, n'), ran) ↦ ground (arith, release_range-name owner r n n' _ ran)
  | inl ((none, n'), ran) ↦ elim (Result-cases (release_in_all owner r ns)) [
    | inr (x, bad) ↦ absurd (ground arith)
    | inl ((b, ns'), rest) ↦
        ground
          (arith, release_range-name owner r n n' _ ran, map-release_in_all owner r ns ns' b rest)
  ]
]

release_everywhere-Preserves :
    (owner : String) (r : Option IPv4ReservedRange) → Preserves (release_everywhere owner r)
unfolding release_everywhere
release_everywhere-Preserves owner r = record {
  at = λ m m' a w e. elim (Result-cases (release_in_all owner r m.networks)) [
    | inr (x, bad) ↦ absurd (ground arith)
    | inl ((b, l), ran) ↦ subst IsWellFormed (ground arith) (
        with_networks m w l (
          HasUniqueKeys-same (λ x. x.name) m.networks l
            (map-release_in_all owner r m.networks l b ran) w.networks))
  ];
}

get_network_model-IsSound :
    (n : String) (vim : Option String) → Keeps IsSound (get_network_model n vim)
unfolding get_network_model
get_network_model-IsSound n none = search sound_rules
get_network_model-IsSound n (some vim) = search sound_rules depth 8

set_reserved_ip_range-IsSound :
    (r : IPv4Pool) (n owner : String) → Keeps IsSound (set_reserved_ip_range r n owner)
unfolding set_reserved_ip_range
set_reserved_ip_range-IsSound r n owner = search (sound_rules, reserve_in-Preserves) depth 9

-- Reserving a range keeps each name once in each list, in memory and in the stored topology, whether
-- it returns or raises.
pub reserve_range-IsSound :
    (n : String) (long : ℕ) (owner : String) (vim : Option String)
    → Keeps IsSound (reserve_range n long owner vim)
unfolding reserve_range
reserve_range-IsSound n long owner vim =
    search (sound_rules, get_network_model-IsSound, set_reserved_ip_range-IsSound) depth 8

released-IsSound : (r : Option IPv4ReservedRange) → Keeps IsSound (released r)
unfolding released
released-IsSound none = search sound_rules
released-IsSound (some r) = search sound_rules depth 8

-- Releasing ranges keeps each name once in each list, in memory and in the stored topology, whether
-- it returns or raises.
pub release_ranges-IsSound :
    (owner : String) (r : Option IPv4ReservedRange) (net : Option String)
    → Keeps IsSound (release_ranges owner r net)
unfolding release_ranges
release_ranges-IsSound owner r none =
    search (sound_rules, release_everywhere-Preserves, released-IsSound) depth 8
release_ranges-IsSound owner r (some n) =
    search (sound_rules, release_in-Preserves, released-IsSound) depth 8
