-- ===== src/Horse.antt =====
-- rest_endpoints/HORSE/horse.py and models/HORSE/horse_models.py: the requests of the HORSE project to
-- mitigate an attack, applied here by a playbook or forwarded to the DOC module.
pub mod Reports
use e_pem.Prelude.{
  ℕ, String, Bool, true, false, Option, none, some, List, [], ◌∷◌, ◌++◌, ◌==◌, nat_eq,
  if◌then◌else◌,
}
use e_pem.Text.{concat}
use e_pem.Result.{
  Error, Result, ok, err, value_error, index_error, key_error, type_error, http_exception,
  httpx_error,
}
use e_pem.Exec.{Exec, ◌>>=◌, ◌>>◌, pure, raise, lift, reads, modify}

pub data RtrActionType : Type 0 where
  dns_rate_limit dns_serv_disable dns_serv_enable test : RtrActionType

-- A limit as YAML gives it: a number, or a text with what `int` and what its leading digits give.
pub data Limit : Type 0 where
  number : ℕ → Limit
  text : (int leading_digits : Option ℕ) → Limit

-- A task of a playbook. `scalar` is one on which `in` raises TypeError.
pub data Task : Type 0 where
  iptables : Option Limit → Task
  other_task : Task
  scalar : Task

-- What `yaml.safe_load(playbook)` gives, as far as `data[0]['tasks']` tells it apart.
pub data PlaybookData : Type 0 where
  nothing empty_list without_tasks : PlaybookData
  tasks : List Task → PlaybookData

pub data DocAction : Type 0 where
  dns_limit : (zone : String) (rate : ℕ) → DocAction
  dns_status : (zone status : String) → DocAction

pub record DocActionDefinition : Type 0 where
  pub action_type : RtrActionType
  pub service : String
  pub action : DocAction

pub record DocNorthModel : Type 0 where
  pub action_id : String
  pub target : String
  pub action_definition : DocActionDefinition

pub data CallbackCode : Type 0 where
  action_applied_by_epem action_applied_by_doc : CallbackCode
  action_not_applied_by_epem action_not_applied_by_doc : CallbackCode

-- what a POST ends in: `failed` is any other exception of httpx, such as ConnectTimeout
pub data PostResult : Type 0 where
  response : (status_code : ℕ) → PostResult
  read_timeout connect_error failed : PostResult

pub record RtrRestAnswer : Type 0 where
  pub status : String
  pub status_code : ℕ

pub record CallbackModel : Type 0 where
  pub url : String
  pub action_id : String
  pub code : CallbackCode

-- `sent` are the callbacks that were posted, `forwarded` the requests posted to the DOC module, and
-- `doc_module` is the document of that name in the database, with its URL if it has one.
pub record Horse : Type 0 where
  pub doc_module : Option (Option String)
  pub forwarded : List (String × DocNorthModel)
  pub sent : List CallbackModel

-- The parts outside: HTTP, and whether a playbook that is run on a host fails.
pub record Outside : Type 0 where
  pub post_doc : String → DocNorthModel → PostResult
  pub post_callback : CallbackModel → PostResult
  pub playbook_fails : (target : String) → Bool

-- DOCActionDNSLimit.validate_limit, and the conversion of its text by the model: `[0-9]*` matches any
-- text, so a text without leading digits gives the empty text, which is no integer.
unfoldable pub validate_limit : Limit → Result ℕ
validate_limit (number n) = ok n
validate_limit (text (some n) digits) = ok n
validate_limit (text none (some n)) = ok n
validate_limit (text none none) = err value_error

-- the loop over the tasks: TypeError becomes 422
unfoldable pub limit_action : List Task → Result DocAction
unfolding validate_limit
limit_action [] = err (http_exception 422)
limit_action (other_task ∷ rest) = limit_action rest
limit_action (scalar ∷ rest) = err (http_exception 422)
limit_action (iptables none ∷ rest) = err key_error
limit_action (iptables (some limit) ∷ rest) = elim (validate_limit limit) [
  | ok rate ↦ ok (dns_limit "0.0.0.0" rate)
  | err e ↦ err e
]

unfoldable pub limit_of : PlaybookData → Result DocAction
unfolding limit_action
limit_of nothing = err (http_exception 422)
limit_of empty_list = err index_error
limit_of without_tasks = err key_error
limit_of (tasks l) = limit_action l

unfoldable pub extract_action : RtrActionType → PlaybookData → Result DocAction
unfolding limit_of
extract_action dns_rate_limit playbook = limit_of playbook
extract_action dns_serv_disable playbook = ok (dns_status "" "disabled")
extract_action dns_serv_enable playbook = ok (dns_status "" "enabled")
extract_action test playbook = ok (dns_status "TEST" "TEST")

unfoldable pub build_request_for_doc :
    (action_id target : String)
    → RtrActionType
    → (service : String) → PlaybookData
    → Result DocNorthModel
unfolding extract_action
build_request_for_doc action_id target action_type service playbook =
    elim (extract_action action_type playbook) [
      | err e ↦ err e
      | ok action ↦ ok (record {
        action_id = action_id;
        target = target;
        action_definition = record {
          action_type = action_type;
          service = service;
          action = action;
        };
      })
    ]

module _ (outside : Outside) where
  -- the end of send_callback_http, by what the POST gave
  unfoldable pub callback_outcome : PostResult → Exec Horse (Unit {0})
  unfolding pure raise
  callback_outcome (response status_code) =
      if nat_eq status_code 200 then pure tt else raise (http_exception status_code)
  callback_outcome read_timeout = raise (http_exception 408)
  callback_outcome connect_error = raise (http_exception 500)
  callback_outcome failed = raise httpx_error

  unfoldable pub send_callback_http :
      Option String → (action_id : String) → CallbackCode → Exec Horse (Unit {0})
  unfolding callback_outcome pure modify
  send_callback_http none action_id code = pure tt
  send_callback_http (some url) action_id code =
      let callback : CallbackModel = record { url = url; action_id = action_id; code = code } in
      do
        modify (λ self. record self { sent = self.sent ++ callback ∷ [] })
        callback_outcome (outside.post_callback callback)

  -- what forward_request_to_doc makes of the answer of the DOC module
  unfoldable pub doc_outcome :
      PostResult → (action_id : String) → Option String → Exec Horse RtrRestAnswer
  unfolding send_callback_http pure raise
  doc_outcome (response status_code) action_id callback_http_url =
      if nat_eq status_code 200
      then (do
        send_callback_http callback_http_url action_id action_applied_by_doc
        pure (record { status = "forwarded"; status_code = 200 }))
      else (do
        send_callback_http callback_http_url action_id action_not_applied_by_doc
        raise (http_exception status_code))
  doc_outcome read_timeout action_id callback_http_url = do
    send_callback_http callback_http_url action_id action_not_applied_by_doc
    raise (http_exception 408)
  doc_outcome connect_error action_id callback_http_url = do
    send_callback_http callback_http_url action_id action_not_applied_by_doc
    raise (http_exception 500)
  doc_outcome failed action_id callback_http_url = raise httpx_error

  -- `'url' in doc_mod_info` raises TypeError where the database has no document.
  unfoldable pub forward_request_to_doc :
      Option (Option String)
      → DocNorthModel
      → (action_id : String) → Option String
      → Exec Horse RtrRestAnswer
  unfolding doc_outcome send_callback_http pure raise modify
  forward_request_to_doc none doc_request action_id callback_http_url = raise type_error
  forward_request_to_doc (some none) doc_request action_id callback_http_url = do
    send_callback_http callback_http_url action_id action_not_applied_by_doc
    pure (record { status = "error"; status_code = 500 })
  forward_request_to_doc (some (some url)) doc_request action_id callback_http_url = do
    modify (λ self. record self { forwarded = self.forwarded ++ (url, doc_request) ∷ [] })
    doc_outcome (outside.post_doc url doc_request) action_id callback_http_url

  -- the branch in which the playbook is applied here
  unfoldable pub apply_playbook :
      (target action_id : String) → Option String → Exec Horse RtrRestAnswer
  unfolding send_callback_http pure raise
  apply_playbook target action_id callback_http_url =
      if outside.playbook_fails target
      then (do
        send_callback_http callback_http_url action_id action_not_applied_by_epem
        raise (http_exception 500))
      else (do
        send_callback_http callback_http_url action_id action_applied_by_epem
        pure (record { status = "success"; status_code = 202 }))

  -- the branch in which the request is forwarded
  unfoldable pub forward :
      (action_id target : String)
      → RtrActionType
      → (service : String) → PlaybookData
      → Option String
      → Exec Horse RtrRestAnswer
  unfolding lift build_request_for_doc forward_request_to_doc reads
  forward action_id target action_type service playbook callback_http_url = do
    doc_mod_info ← reads (λ self. ok self.doc_module)
    body ← lift (build_request_for_doc action_id target action_type service playbook)
    forward_request_to_doc doc_mod_info body action_id callback_http_url

  -- `managed` tells whether get_vm_target_by_ip finds the target.
  unfoldable pub rtr_request :
      (managed : Bool)
      → (target_ip service : String) → RtrActionType
      → (action_id : String) → PlaybookData
      → Option String
      → Exec Horse RtrRestAnswer
  unfolding apply_playbook forward
  rtr_request managed target_ip service action_type action_id payload callback_http_url =
      if managed
      then apply_playbook target_ip action_id callback_http_url
      else forward action_id target_ip action_type service payload callback_http_url

  abbrev or_new : String → Option String → String
  or_new new none = new
  or_new new (some given) = given

  -- `new_id` is what uuid4() gives. Where the playbook is applied, an action without an identifier
  -- cannot be reported: the model of the callback wants a text.
  unfoldable pub rtr_request_workaround :
      (new_id : String)
      → (target : String) → RtrActionType
      → (forward_to_doc : Bool) → PlaybookData
      → (service action_id : Option String) → Option String
      → Exec Horse RtrRestAnswer
  unfolding apply_playbook forward
  rtr_request_workaround new_id target action_type true payload service action_id url =
      forward (or_new new_id action_id) target action_type (or_new "DNS" service) payload url
  rtr_request_workaround new_id target action_type false payload service (some action_id) url =
      apply_playbook target action_id url
  rtr_request_workaround new_id target action_type false payload service none none =
      apply_playbook target "" none
  rtr_request_workaround new_id target action_type false payload service none (some url) =
      raise value_error

unfoldable pub set_doc_ip_port : (doc_ip url_path : String) → Exec Horse RtrRestAnswer
unfolding concat
set_doc_ip_port doc_ip url_path self = (
  ok (record { status = "success"; status_code = 202 }),
  record self { doc_module = some (some (concat (doc_ip ∷ url_path ∷ []))) },
)

unfoldable pub get_doc_ip_port : Horse → Option (Option String)
get_doc_ip_port self = self.doc_module
