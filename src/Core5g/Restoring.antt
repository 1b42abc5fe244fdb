-- ===== src/Core5g/Restoring.antt =====
-- A day-2 function that raises leaves the configuration as it was.
use e_pem.Prelude.{
  String, ◌≡◌, ◌≢◌, refl, sym, ap, ◌∙◌, ◌⊎◌, subst, Bool, true, false, not, none, List, [], ◌∷◌,
  ◌==◌, arith, inl, inr, Option-cases,
}
use e_pem.Result.{Error, Result, ok, err}
use e_pem.Exec.{after, ◌>>=◌, ◌>>◌, reads, modify, raise, try_except, or_handle}
use e_pem.Exec.Rules.{bind_ok}
use e_pem.PyList.{select}
use e_pem.Core5g.{SubArea, Create5gModel, Generic5gState}
use e_pem.Core5g.Day2.{
  Method, Core5gAddSliceModel, Generic5gBlueprint, Day2Request, add_ues, del_ues, add_dnn, del_dnn,
  add_slice_oss, add_slice_operator, del_slice, add_tac, del_tac, refusal, unless, put_back,
  filter_areas, delete_from_areas, delete_from_profiles, on_config, on_areas, on_slice_profiles,
  or_restore, change, call, day2_add_ues, day2_del_ues, day2_add_dnn, day2_del_dnn, day2_del_slice,
  day2_add_tac, day2_del_tac, day2_add_slice, day2_add_slice_generic,
}

-- Where `m` raises, the configuration is the one before.
record Restores (m : Method) : Type 0 where
  pub at :
      (self : Generic5gState) (e : Error)
      → (m self).0 ≡ err e
      → (m self).1.current_config ≡ self.current_config

handled :
    (c : Create5gModel) (r : Result (Unit {0}) × Generic5gState) (e : Error)
    → (or_handle (put_back c) r).0 ≡ err e
    → (or_handle (put_back c) r).1.current_config ≡ c
unfolding modify raise ◌>>=◌
handled c (ok a, s) e h = absurd (ground (arith, h))
handled c (err x, s) e h = refl

Restores-change : (f : Create5gModel → Create5gModel) (follow : Method) → Restores (change f follow)
unfolding change or_restore modify ◌>>=◌ try_except
Restores-change f follow = record {
  at = λ self e h.
      handled self.current_config (follow (record self { current_config = f self.current_config }))
        e h;
}

checked :
    (r : Result (Unit {0})) (rest : Method) (self : Generic5gState) (e : Error)
    → Restores rest
    → (after r (λ _. rest) self).0 ≡ err e
    → (after r (λ _. rest) self).1.current_config ≡ self.current_config
checked (ok a) rest self e k h = k.at self e h
checked (err x) rest self e k h = refl

Restores-unless :
    (test : Create5gModel → Result Bool) (rest : Method)
    → Restores rest
    → Restores (unless test rest)
unfolding unless reads ◌>>=◌
Restores-unless test rest k = record {
  at = λ self e h. checked (refusal (test self.current_config)) rest self e k h;
}

Restores-add_slice :
    (blueprint : Generic5gBlueprint) (model : Core5gAddSliceModel) (oss : Bool)
    → Restores (day2_add_slice blueprint model oss)
unfolding day2_add_slice or_restore try_except
Restores-add_slice blueprint model oss = record {
  at = λ self e h.
      handled self.current_config
        ((day2_add_slice_generic model oss >>= λ _. blueprint.add_slice model oss) self) e h;
}

-- The configuration has slice profiles, and so has each of its areas slices.
abbrev pub AllGiven : List SubArea → Type 0
AllGiven [] = Unit
AllGiven (area ∷ areas) = (area.slices ≢ none) × AllGiven areas

-- what a request asks of the configuration
abbrev pub Requires : Day2Request → Create5gModel → Type 0
Requires (del_slice slice_id) c = (c.config.slice_profiles ≢ none) × AllGiven c.areas
Requires _ c = Unit

filter_areas-ok :
    (slice_id : String) (areas : List SubArea)
    → AllGiven areas
    → (filter_areas slice_id areas).0 ≡ ok tt
unfolding filter_areas
filter_areas-ok slice_id [] g = refl
filter_areas-ok slice_id (area ∷ areas) (here, there) = elim (Option-cases area.slices) [
  | inl missing ↦ absurd (here missing)
  | inr (l, e) ↦ ground (arith, filter_areas-ok slice_id areas there)
]

delete_from_areas-runs :
    (slice_id : String) (self : Generic5gState)
    → AllGiven self.current_config.areas
    → delete_from_areas slice_id self ≡ (
      ok tt,
      on_config (on_areas (λ old. (filter_areas slice_id self.current_config.areas).1)) self,
    )
unfolding delete_from_areas
delete_from_areas-runs slice_id self g =
    ap
      (λ r.
        (r, on_config (on_areas (λ old. (filter_areas slice_id self.current_config.areas).1)) self))
      (filter_areas-ok slice_id self.current_config.areas g)

delete_from_profiles-runs :
    (slice_id : String) (self : Generic5gState)
    → self.current_config.config.slice_profiles ≢ none
    → (after : Generic5gState) × (delete_from_profiles slice_id self ≡ (ok tt, after))
unfolding delete_from_profiles
delete_from_profiles-runs slice_id self g =
    elim (Option-cases self.current_config.config.slice_profiles) [
      | inl missing ↦ absurd (g missing)
      | inr (l, e) ↦ (
        on_config (on_slice_profiles (select (λ slice. not (slice.slice_id == slice_id)))) self,
        ground arith,
      )
    ]

del_slice-restores :
    (blueprint : Generic5gBlueprint) (slice_id : String) (self : Generic5gState) (e : Error)
    → Requires (del_slice slice_id) self.current_config
    → (day2_del_slice blueprint slice_id self).0 ≡ err e
    → (day2_del_slice blueprint slice_id self).1.current_config ≡ self.current_config
unfolding day2_del_slice or_restore try_except
del_slice-restores blueprint slice_id self e (profiles, areas) h =
    let backup = self.current_config in
    let follow : Method = blueprint.del_slice slice_id in
    let middle : Generic5gState =
      on_config (on_areas (λ old. (filter_areas slice_id self.current_config.areas).1)) self in
    let (after, second) = delete_from_profiles-runs slice_id middle profiles in
    let rest : Method = try_except follow (put_back backup) in
    let runs =
      bind_ok (delete_from_areas slice_id) (λ u. delete_from_profiles slice_id >> rest) self middle
        tt (delete_from_areas-runs slice_id self areas)
      ∙ bind_ok (delete_from_profiles slice_id) (λ u. rest) middle after tt second in
    ap (λ r. r.1.current_config) runs
    ∙ handled backup (follow after) e (sym (ap (λ r. r.0) runs) ∙ h)

ruleset restores_rules = (Restores-change, Restores-unless, Restores-add_slice)

-- Every request but a deletion of a slice puts the configuration back without more ado.
Restores-call :
    (blueprint : Generic5gBlueprint) (request : Day2Request)
    → Restores (call blueprint request) ⊎ ((slice_id : String) × (request ≡ del_slice slice_id))
unfolding call day2_add_ues day2_del_ues day2_add_dnn day2_del_dnn day2_add_tac day2_del_tac
Restores-call blueprint (add_ues model) = inl (search restores_rules)
Restores-call blueprint (del_ues imsi) = inl (search restores_rules)
Restores-call blueprint (add_dnn model) = inl (search restores_rules)
Restores-call blueprint (del_dnn dnn) = inl (search restores_rules)
Restores-call blueprint (add_slice_oss model) = inl (Restores-add_slice blueprint model true)
Restores-call blueprint (add_slice_operator model) = inl (Restores-add_slice blueprint model false)
Restores-call blueprint (del_slice slice_id) = inr (slice_id, refl)
Restores-call blueprint (add_tac model) = inl (search restores_rules)
Restores-call blueprint (del_tac area_id) = inl (search restores_rules)

-- Whatever the blueprint of the core does in the methods that it overrides, a day-2 function that raises
-- leaves the configuration of the blueprint as it was before the request. For `day2_del_slice` this
-- needs slice profiles, and slices in every area, since it reads them outside its `try`.
pub call-restores :
    (blueprint : Generic5gBlueprint) (request : Day2Request) (self : Generic5gState) (e : Error)
    → Requires request self.current_config
    → (call blueprint request self).0 ≡ err e
    → (call blueprint request self).1.current_config ≡ self.current_config
call-restores blueprint request self e = elim (Restores-call blueprint request) [
  | inl simple ↦ λ given h. simple.at self e h
  | inr (slice_id, this) ↦
      subst
        (λ q.
          Requires q self.current_config
          → (call blueprint q self).0 ≡ err e
          → (call blueprint q self).1.current_config ≡ self.current_config)
        (sym this) (λ given h. unfold call in del_slice-restores blueprint slice_id self e given h)
]
