-- ===== src/Core5g/Undoing.antt =====
-- Deleting what was added to a 5G core, and the slices that can never be added.
use e_pem.Prelude.{
  ℕ, String, ◌≡◌, refl, sym, ap, ◌∙◌, Bool, true, false, not, none, some, List, [], ◌∷◌, ◌++◌,
  arith, nat_eq, ◌==◌, eq_refl,
}
use e_pem.Result.{Result, ok, err}
use e_pem.Exec.{◌>>=◌, reads, modify, try_except, or_handle}
use e_pem.PyList.{select, contains, find_first}
use e_pem.Core5g.{SubDataNets, SubSubscribers, SubArea, Create5gModel, Generic5gState, get_area}
use e_pem.Core5g.Day2.{
  Method, Generic5gBlueprint, Day2Request, add_ues, del_ues, add_dnn, del_dnn, add_tac, del_tac,
  on_subscribers, on_data_nets, on_areas, unless, put_back, or_restore, change, call,
  has_subscriber, has_dnn, has_area, knows_no_slice_of, uses_dnn, day2_add_ues, day2_del_ues,
  day2_add_dnn, day2_del_dnn, day2_add_tac, day2_del_tac,
}

pub data Addition : Type 0 where
  subscriber : SubSubscribers → Addition
  data_net : SubDataNets → Addition
  area : SubArea → Addition

abbrev pub add : Addition → Day2Request
add (subscriber model) = add_ues model
add (data_net model) = add_dnn model
add (area model) = add_tac model

abbrev pub delete : Addition → Day2Request
delete (subscriber model) = del_ues model.imsi
delete (data_net model) = del_dnn model.dnn
delete (area model) = del_tac model.id

-- It is not there yet; a subscriber has a slice with a profile, and no slice names the data network.
abbrev pub IsNew : Addition → Create5gModel → Type 0
IsNew (subscriber model) c =
    (has_subscriber model.imsi c ≡ false) × (knows_no_slice_of model c ≡ ok false)
IsNew (data_net model) c = (has_dnn model.dnn c ≡ false) × (uses_dnn model.dnn c ≡ ok false)
IsNew (area model) c = has_area model.id c ≡ false

-- a method that returns and leaves the configuration
abbrev pub Returns : Method → Type 0
Returns m =
    (self : Generic5gState)
    → ((m self).0 ≡ ok tt) × ((m self).1.current_config ≡ self.current_config)

pub record Follows (blueprint : Generic5gBlueprint) : Type 0 where
  pub add_ues : (model : SubSubscribers) → Returns (blueprint.add_ues model)
  pub del_ues : (imsi : String) → Returns (blueprint.del_ues imsi)
  pub add_dnn : (model : SubDataNets) → Returns (blueprint.add_dnn model)
  pub del_dnn : (dnn : String) → Returns (blueprint.del_dnn dnn)
  pub add_tac : (model : SubArea) → Returns (blueprint.add_tac model)
  pub del_tac : (area_id : ℕ) → Returns (blueprint.del_tac area_id)

-- The run of `m` returns and leaves the configuration `c`.
abbrev Leaves : Method → Generic5gState → Create5gModel → Type 0
Leaves m self c = ((m self).0 ≡ ok tt) × ((m self).1.current_config ≡ c)

returned :
    (c d : Create5gModel) (r : Result (Unit {0}) × Generic5gState)
    → r.0 ≡ ok tt
    → r.1.current_config ≡ d
    → ((or_handle (put_back c) r).0 ≡ ok tt) × ((or_handle (put_back c) r).1.current_config ≡ d)
returned c d (ok a, s) h e = (refl, e)
returned c d (err x, s) h e = absurd (ground (arith, h))

change-Leaves :
    (f : Create5gModel → Create5gModel) (follow : Method) (self : Generic5gState)
    → Returns follow
    → Leaves (change f follow) self (f self.current_config)
unfolding change or_restore modify ◌>>=◌ try_except
change-Leaves f follow self h =
    let changed : Generic5gState = record self { current_config = f self.current_config } in
    returned self.current_config (f self.current_config) (follow changed) (h changed).0
      (h changed).1

unless-Leaves :
    (test : Create5gModel → Result Bool) (rest : Method) (self : Generic5gState) (c : Create5gModel)
    → test self.current_config ≡ ok false
    → Leaves rest self c
    → Leaves (unless test rest) self c
unfolding unless reads ◌>>=◌
unless-Leaves test rest self c h l = rw h l

refuses_known : (b : Bool) → b ≡ true → ◌≡◌ {A = Result Bool} (ok (not b)) (ok false)
refuses_known true h = refl
refuses_known false h = absurd (ground (arith, h))

module _ {A : Type 0} (p : A → Bool) where
  pub select-added :
      (l : List A) (x : A)
      → contains p l ≡ false
      → p x ≡ true
      → select (λ y. not (p y)) (l ++ x ∷ []) ≡ l
  unfolding contains select
  select-added [] x h e = rw e refl
  select-added (y ∷ l) x h e = ground (arith, select-added l x, h, e)

  contains-added : (l : List A) (x : A) → p x ≡ true → contains p (l ++ x ∷ []) ≡ true
  unfolding contains
  contains-added [] x e = rw e refl
  contains-added (y ∷ l) x e = ground (arith, contains-added l x e)

  found-contains :
      (l : List A) → (elim (find_first p l) [ none ↦ false | some x ↦ true ]) ≡ contains p l
  unfolding contains find_first
  found-contains [] = refl
  found-contains (y ∷ l) = ground (arith, found-contains l)

-- a check that passes on a configuration that is known, and the change of that
delete-Leaves :
    (present : Create5gModel → Bool) (f : Create5gModel → Create5gModel) (follow : Method)
    (self : Generic5gState) (c d : Create5gModel)
    → self.current_config ≡ c
    → present c ≡ true
    → f c ≡ d
    → Returns follow
    → Leaves (unless (λ x. ok (not (present x))) (change f follow)) self d
delete-Leaves present f follow self c d same there back k =
    let changed = change-Leaves f follow self k in
    unless-Leaves (λ x. ok (not (present x))) (change f follow) self d
      (ap (λ x. ok (not (present x))) same ∙ refuses_known (present c) there)
      (changed.0, changed.1 ∙ ap f same ∙ back)

module _ (blueprint : Generic5gBlueprint) (follows : Follows blueprint)
    (self : Generic5gState) where
  abbrev c : Create5gModel
  c = self.current_config

  -- the configuration with the addition
  abbrev extended : Addition → Create5gModel
  extended (subscriber model) = on_subscribers (λ l. l ++ model ∷ []) c
  extended (data_net model) = on_data_nets (λ l. l ++ model ∷ []) c
  extended (area model) = on_areas (λ l. l ++ model ∷ []) c

  add-Leaves : (a : Addition) → IsNew a c → Leaves (call blueprint (add a)) self (extended a)
  unfolding call day2_add_ues day2_add_dnn day2_add_tac
  add-Leaves (subscriber model) new =
      let f : Create5gModel → Create5gModel = on_subscribers (λ l. l ++ model ∷ []) in
      let follow = blueprint.add_ues model in
      let known : Create5gModel → Result Bool = knows_no_slice_of model in
      unless-Leaves (λ d. ok (has_subscriber model.imsi d)) (unless known (change f follow)) self
        (f c) (ap ok new.0)
        (unless-Leaves known (change f follow) self (f c) new.1
          (change-Leaves f follow self (follows.add_ues model)))
  add-Leaves (data_net model) new =
      let f : Create5gModel → Create5gModel = on_data_nets (λ l. l ++ model ∷ []) in
      let follow = blueprint.add_dnn model in
      unless-Leaves (λ d. ok (has_dnn model.dnn d)) (change f follow) self (f c) (ap ok new.0)
        (change-Leaves f follow self (follows.add_dnn model))
  add-Leaves (area model) new =
      let f : Create5gModel → Create5gModel = on_areas (λ l. l ++ model ∷ []) in
      let follow = blueprint.add_tac model in
      unless-Leaves (λ d. ok (has_area model.id d)) (change f follow) self (f c) (ap ok new)
        (change-Leaves f follow self (follows.add_tac model))

  delete-back :
      (a : Addition) (after_add : Generic5gState)
      → IsNew a c
      → after_add.current_config ≡ extended a
      → Leaves (call blueprint (delete a)) after_add c
  unfolding call day2_del_ues day2_del_dnn day2_del_tac get_area
  delete-back (subscriber model) s new same =
      let p : SubSubscribers → Bool = λ x. x.imsi == model.imsi in
      delete-Leaves (has_subscriber model.imsi) (on_subscribers (select (λ x. not (p x))))
        (blueprint.del_ues model.imsi) s (extended (subscriber model)) c same
        (contains-added p c.config.subscribers model (eq_refl model.imsi))
        (ap (λ l. on_subscribers (λ _. l) c)
          (select-added p c.config.subscribers model new.0 (eq_refl model.imsi)))
        (follows.del_ues model.imsi)
  delete-back (data_net model) s new same =
      let p : SubDataNets → Bool = λ x. x.dnn == model.dnn in
      let f : Create5gModel → Create5gModel = on_data_nets (select (λ x. not (p x))) in
      let follow = blueprint.del_dnn model.dnn in
      let changed = change-Leaves f follow s (follows.del_dnn model.dnn) in
      let back : f (extended (data_net model)) ≡ c =
        ap (λ l. on_data_nets (λ _. l) c)
          (select-added p c.config.network_endpoints.data_nets model new.0 (eq_refl model.dnn)) in
      unless-Leaves (λ d. ok (not (has_dnn model.dnn d)))
        (unless (uses_dnn model.dnn) (change f follow)) s c
        (ap (λ d. ok (not (has_dnn model.dnn d))) same
          ∙ refuses_known (has_dnn model.dnn (extended (data_net model)))
              (contains-added p c.config.network_endpoints.data_nets model (eq_refl model.dnn)))
        (unless-Leaves (uses_dnn model.dnn) (change f follow) s c
          (ap (uses_dnn model.dnn) same ∙ new.1) (changed.0, changed.1 ∙ ap f same ∙ back))
  delete-back (area model) s new same =
      let p : SubArea → Bool = λ x. nat_eq x.id model.id in
      let this : nat_eq model.id model.id ≡ true = ground arith in
      delete-Leaves (has_area model.id) (on_areas (select (λ x. not (p x))))
        (blueprint.del_tac model.id) s (extended (area model)) c same
        (found-contains p (c.areas ++ model ∷ []) ∙ contains-added p c.areas model this)
        (ap (λ l. on_areas (λ _. l) c)
          (select-added p c.areas model (sym (found-contains p c.areas) ∙ new) this))
        (follows.del_tac model.id)

-- Where the overriding methods return and leave the configuration alone, a subscriber, a data network or
-- an area that is new can be added and deleted again, and then the configuration is what it was.
pub delete-add :
    (blueprint : Generic5gBlueprint)
    → Follows blueprint
    → (a : Addition) (self : Generic5gState) → IsNew a self.current_config
    → ((call blueprint (add a) self).0 ≡ ok tt)
      × ((call blueprint (delete a) (call blueprint (add a) self).1).0 ≡ ok tt)
      × ((call blueprint (delete a) (call blueprint (add a) self).1).1.current_config
          ≡ self.current_config)
delete-add blueprint follows a self new =
    let added = add-Leaves blueprint follows self a new in
    let deleted =
      delete-back blueprint follows self a (call blueprint (add a) self).1 new added.1 in
    (added.0, deleted.0, deleted.1)
