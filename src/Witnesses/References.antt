-- ===== src/Witnesses/References.antt =====
-- The theorem on stored references at a concrete state.
use e_pem.Prelude.{String, ◌≡◌, refl, List, [], ◌∷◌}
use e_pem.Result.{ok}
use e_pem.PyDict.{lookup}
use e_pem.References.{
  Value, Members, text, scalar, node, last, member, plain, deployable, configuration,
  find_field_occurrences, get_id, is_resource, override_variables_in_dict,
  override_variables_in_dict_ref,
}
use e_pem.References.Rewriting.{has_key, HasKeysOnce}
use e_pem.References.Restoring.{IsRegistered, IsHeld, override_ref-override}

abbrev machine : Members
machine = member "id" (text "r2") (member "name" (text "amf") last)

abbrev playbook : Members
playbook = member "id" (text "r1") (member "vm_resource" (node deployable machine) last)

-- A list with a machine and a configuration that holds it again.
abbrev core_state : Members
core_state = member "area" scalar (
    member "parts"
      (node plain
        (member "0" (node deployable machine) (member "1" (node configuration playbook) last)))
      last)

abbrev held : List (String × Value)
held = ("r2", node deployable machine) ∷ ("r1", node configuration playbook) ∷ []

core_state-HasKeysOnce : HasKeysOnce (node plain core_state)
unfolding HasKeysOnce has_key
core_state-HasKeysOnce =
    let machine_keys : HasKeysOnce (node deployable machine) = (refl, tt, (refl, tt, tt)) in
    (refl, tt, (refl, (refl, machine_keys, (refl, (refl, tt, (refl, machine_keys, tt)), tt)), tt))

core_state-IsHeld : IsHeld held (node plain core_state)
unfolding IsHeld IsRegistered get_id lookup
core_state-IsHeld = (
  tt,
  (
    tt,
    (
      (
        tt,
        (
          (("r2", refl, refl), (tt, (tt, tt))),
          ((("r1", refl, refl), (tt, ((("r2", refl, refl), (tt, (tt, tt))), tt))), tt),
        ),
      ),
      tt,
    ),
  ),
)

override_ref-override_example :
    (stored : Members) × (override_variables_in_dict held core_state ≡ ok (node plain stored))
    × (find_field_occurrences is_resource (node plain stored) [] ≡ [])
    × (override_variables_in_dict_ref held stored ≡ ok (node plain core_state))
override_ref-override_example =
    override_ref-override held core_state core_state-HasKeysOnce core_state-IsHeld
