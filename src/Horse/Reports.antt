-- ===== src/Horse/Reports.antt =====
-- What the caller of a mitigation request is told.
use e_pem.Prelude.{
  String, ◌≡◌, inl, inr, Bool, true, false, not, Option, none, [], ◌∷◌, ◌++◌, arith, nat_eq,
}
use e_pem.Result.{Result, ok, err, Result-cases}
use e_pem.Exec.{◌>>=◌, raise, lift, reads}
use e_pem.Horse.{
  Horse, Outside, CallbackCode, action_applied_by_epem, action_applied_by_doc,
  action_not_applied_by_epem, action_not_applied_by_doc, RtrActionType, RtrRestAnswer, PlaybookData,
  forward_request_to_doc, build_request_for_doc, forward, rtr_request,
}

-- a code of the 2XX kind
unfoldable pub applied : CallbackCode → Bool
applied action_applied_by_epem = true
applied action_applied_by_doc = true
applied action_not_applied_by_epem = false
applied action_not_applied_by_doc = false

-- an answer that is neither an exception nor marked as an error
unfoldable pub succeeded : Result RtrRestAnswer → Bool
succeeded (ok answer) = not (nat_eq answer.status_code 500)
succeeded (err e) = false

-- One callback went out, and its code agrees with the answer.
abbrev pub ReportsOnce : String → String → Result RtrRestAnswer × Horse → Horse → Type 0
ReportsOnce url action_id x s =
    (code : CallbackCode) × (x.1.sent
      ≡ s.sent ++ (record { url = url; action_id = action_id; code = code }) ∷ [])
    × (applied code ≡ succeeded x.0)

module _ (outside : Outside) where
  -- Where no DOC module has been set, a request on a target that is not managed here raises TypeError,
  -- or what reading the playbook raises, and no callback goes out, whatever address was given.
  pub rtr_request-silent :
      (target service : String) (action_type : RtrActionType) (action_id : String)
      (payload : PlaybookData) (url : Option String) (s : Horse)
      → s.doc_module ≡ none
      → ((rtr_request outside false target service action_type action_id payload url s).1 ≡ s)
        × (succeeded
              (rtr_request outside false target service action_type action_id payload url s).0
            ≡ false)
  unfolding rtr_request forward reads lift ◌>>=◌ forward_request_to_doc raise succeeded
  rtr_request-silent target service action_type action_id payload url s d =
      elim (Result-cases (build_request_for_doc action_id target action_type service payload)) [
        | inl built ↦ (ground (arith, d, built.1), ground (arith, d, built.1))
        | inr bad ↦ (ground (arith, d, bad.1), ground (arith, d, bad.1))
      ]
