-- ===== src/Blueprint/Order.antt =====
-- In which order `destroy` takes a blueprint apart, and what a failure leaves.
use mathlib.Core.List.{append-nil, append_assoc}
use e_pem.Prelude.{
  String, ◌≡◌, refl, sym, ap, ◌∙◌, subst, ◌⊎◌, inl, inr, Option, none, some, List, [], ◌∷◌, ◌++◌,
  map, arith, eq_refl,
}
use e_pem.Result.{Result, ok, blueprint_not_found}
use e_pem.Exec.{Exec, ◌>>=◌, pure, for_each}
use e_pem.Exec.Rules.{Ensures, Ensures-bind, bind_ok}
use e_pem.PyList.{contains, remove_first}
use e_pem.Resources.{
  Resource, ResourceValue, VmResource, HelmChartResource, vm, helm_chart, net, vm_configuration,
  other_configuration,
}
use e_pem.Blueprint.{deregister_children}
use e_pem.Blueprint.Destruction.{
  ProviderCall, delete_blueprint, destroy_vm, uninstall_helm_chart, final_cleanup, Providers,
  Running, provider, destroy_child, destroy_resource, destroy_resources, remove_document, destroy,
}

-- what is asked for one resource
unfoldable pub call_for : ResourceValue → List ProviderCall
call_for (vm r) = destroy_vm r ∷ []
call_for (helm_chart r) = uninstall_helm_chart r ∷ []
call_for (net r) = []
call_for (vm_configuration r) = []
call_for other_configuration = []

unfoldable pub calls_for : List (String × Resource) → List ProviderCall
unfolding call_for
calls_for [] = []
calls_for ((key, resource) ∷ rest) = call_for resource.value ++ calls_for rest

-- The providers do what they are asked, but a child may be gone already.
pub record DoNotFail (providers : Providers) : Type 0 where
  pub child :
      (c : String)
      → (providers.fails (delete_blueprint c) ≡ none)
        ⊎ (providers.fails (delete_blueprint c) ≡ some blueprint_not_found)
  pub machine : (r : VmResource) → providers.fails (destroy_vm r) ≡ none
  pub chart : (r : HelmChartResource) → providers.fails (uninstall_helm_chart r) ≡ none
  pub cleanup : providers.fails final_cleanup ≡ none

-- What a step leaves: its result, the calls, the children and the resources.
abbrev Leaves : Result (Unit {0}) × Running → Running → List ProviderCall → List String → Type 0
Leaves x s calls children =
    (x.0 ≡ ok tt)
    × (x.1.calls ≡ s.calls ++ calls)
    × (x.1.base_model.children_blue_ids ≡ children)
    × (x.1.base_model.registered_resources ≡ s.base_model.registered_resources)

module _ (providers : Providers) where
  abbrev IsRemoved : Running → Type 0
  IsRemoved s = s.stored ≡ none

  removal : Ensures IsRemoved (remove_document providers)
  unfolding remove_document
  removal = record { at = λ s a e. refl }

  -- The last step removes the document.
  destroy_removes :
      (s : Running) → (destroy providers s).0 ≡ ok tt → IsRemoved (destroy providers s).1
  unfolding destroy
  destroy_removes s e =
      (Ensures-bind {Q = IsRemoved}
          (for_each s.base_model.children_blue_ids (destroy_child providers)) _
          (λ x.
            Ensures-bind {Q = IsRemoved} _ _
              (λ y. Ensures-bind {Q = IsRemoved} _ _ (λ z. removal)))).at
        s tt e

module _ (providers : Providers) (h : DoNotFail providers) where
  child-Leaves :
      (c : String) (children : List String) (s : Running)
      → s.base_model.children_blue_ids ≡ c ∷ children
      → Leaves (destroy_child providers c s) s (delete_blueprint c ∷ []) children
  unfolding destroy_child ◌>>=◌ deregister_children contains remove_first
  child-Leaves c children s e = elim (h.child c) [
    | inl p ↦ ground (arith, eq_refl c)
    | inr p ↦ ground (arith, eq_refl c)
  ]

  resource-Leaves :
      (key : String) (value : ResourceValue) (id : Option String) (s : Running)
      → Leaves
          (destroy_resource providers (key, record { id = id; value = value }) s)
          s
          (call_for value)
          s.base_model.children_blue_ids
  unfolding destroy_resource call_for
  resource-Leaves key (vm r) id s = ground (arith, h.machine r)
  resource-Leaves key (helm_chart r) id s = ground (arith, h.chart r)
  resource-Leaves key (net r) id s = (refl, sym (append-nil s.calls), refl, refl)
  resource-Leaves key (vm_configuration r) id s = (refl, sym (append-nil s.calls), refl, refl)
  resource-Leaves key other_configuration id s = (refl, sym (append-nil s.calls), refl, refl)

  cleanup-Leaves :
      (s : Running)
      → Leaves
          (provider providers final_cleanup s)
          s
          (final_cleanup ∷ [])
          s.base_model.children_blue_ids
  unfolding provider
  cleanup-Leaves s = ground (arith, h.cleanup)

  -- two steps, one after the other
  Leaves-bind :
      (m : Exec Running (Unit {0})) (f : Unit {0} → Exec Running (Unit {0})) (s : Running)
      (a b : List ProviderCall) (x y : List String)
      → Leaves (m s) s a x
      → Leaves (f tt (m s).1) (m s).1 b y
      → Leaves ((m >>= f) s) s (a ++ b) y
  Leaves-bind m f s a b x y one two =
      subst (λ z. Leaves z s (a ++ b) y) (sym (bind_ok m f s (m s).1 tt (λ i. (one.0 i, (m s).1))))
        (two.0, two.1 ∙ ap (λ l. l ++ b) one.1 ∙ append_assoc s.calls a b, two.2, two.3 ∙ one.3)

  done : (s : Running) → Leaves (pure tt s) s [] s.base_model.children_blue_ids
  unfolding pure
  done s = (refl, sym (append-nil s.calls), refl, refl)

  children_leave :
      (children : List String) (s : Running)
      → s.base_model.children_blue_ids ≡ children
      → Leaves (for_each children (destroy_child providers) s) s (map delete_blueprint children) []
  unfolding for_each
  children_leave [] s e = subst (λ c. Leaves (pure tt s) s [] c) e (done s)
  children_leave (c ∷ children) s e =
      let one = child-Leaves c children s e in
      Leaves-bind _ _ s (delete_blueprint c ∷ []) (map delete_blueprint children) children [] one
        (children_leave children (destroy_child providers c s).1 one.2)

  resources_leave :
      (l : List (String × Resource)) (s : Running)
      → Leaves
          (for_each l (destroy_resource providers) s)
          s
          (calls_for l)
          s.base_model.children_blue_ids
  unfolding for_each calls_for
  resources_leave [] s = done s
  resources_leave ((key, r) ∷ l) s =
      let one = resource-Leaves key r.value r.id s in
      let next = (destroy_resource providers (key, r) s).1 in
      Leaves-bind _ _ s (call_for r.value) (calls_for l) s.base_model.children_blue_ids
        s.base_model.children_blue_ids one
        (subst (λ c. Leaves (for_each l (destroy_resource providers) next) next (calls_for l) c)
          one.2 (resources_leave l next))

  removal-Leaves :
      (s : Running) → Leaves (remove_document providers s) s [] s.base_model.children_blue_ids
  unfolding remove_document
  removal-Leaves s = (refl, sym (append-nil s.calls), refl, refl)

  last_steps : Exec Running (Unit {0})
  last_steps = provider providers final_cleanup >>= λ b. remove_document providers

  last_leave :
      (s : Running) → Leaves (last_steps s) s (final_cleanup ∷ []) s.base_model.children_blue_ids
  unfolding last_steps
  last_leave s =
      let two = cleanup-Leaves s in
      let s2 = (provider providers final_cleanup s).1 in
      Leaves-bind (provider providers final_cleanup) (λ b. remove_document providers) s
        (final_cleanup ∷ []) [] s.base_model.children_blue_ids s.base_model.children_blue_ids two
        (subst (λ c. Leaves (remove_document providers s2) s2 [] c) two.2 (removal-Leaves s2))

  ending : Exec Running (Unit {0})
  ending = destroy_resources providers >>= λ a. last_steps

  ending-Leaves :
      (s : Running) (l : List (String × Resource))
      → s.base_model.registered_resources ≡ l
      → Leaves (ending s) s (calls_for l ++ final_cleanup ∷ []) s.base_model.children_blue_ids
  unfolding ending destroy_resources
  ending-Leaves s l e =
      let children = s.base_model.children_blue_ids in
      let one = resources_leave s.base_model.registered_resources s in
      let s1 = (destroy_resources providers s).1 in
      subst (λ x. Leaves (ending s) s (calls_for x ++ final_cleanup ∷ []) children) e
        (Leaves-bind (destroy_resources providers) (λ a. last_steps) s
          (calls_for s.base_model.registered_resources) (final_cleanup ∷ []) children children one
          (subst (λ c. Leaves (last_steps s1) s1 (final_cleanup ∷ []) c) one.2 (last_leave s1)))

  destroy-Leaves :
      (s : Running)
      → Leaves
          (destroy providers s)
          s
          (map delete_blueprint s.base_model.children_blue_ids
            ++ (calls_for s.base_model.registered_resources ++ final_cleanup ∷ []))
          []
  unfolding destroy ending last_steps
  destroy-Leaves s =
      let one = children_leave s.base_model.children_blue_ids s refl in
      let s1 = (for_each s.base_model.children_blue_ids (destroy_child providers) s).1 in
      Leaves-bind (for_each s.base_model.children_blue_ids (destroy_child providers)) (λ a. ending)
        s (map delete_blueprint s.base_model.children_blue_ids)
        (calls_for s.base_model.registered_resources ++ final_cleanup ∷ []) [] [] one
        (subst
          (λ c.
            Leaves (ending s1) s1
              (calls_for s.base_model.registered_resources ++ final_cleanup ∷ []) c)
          one.2 (ending-Leaves s1 s.base_model.registered_resources one.3))

  -- Where the providers do what they are asked, `destroy` returns and leaves no document and no
  -- children. It has asked for each child's deletion, then for each machine and chart among the
  -- resources in the order of their registration, and last for the cleanup, and for nothing else; a
  -- child that is gone already is passed over.
  pub destroy-asks :
      (s : Running)
      → ((destroy providers s).0 ≡ ok tt)
        × ((destroy providers s).1.stored ≡ none)
        × ((destroy providers s).1.base_model.children_blue_ids ≡ [])
        × ((destroy providers s).1.calls
            ≡ s.calls
              ++ (map delete_blueprint s.base_model.children_blue_ids
                  ++ (calls_for s.base_model.registered_resources ++ final_cleanup ∷ [])))
  destroy-asks s =
      let left = destroy-Leaves s in (left.0, destroy_removes providers s left.0, left.2, left.1)
