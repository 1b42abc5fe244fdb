-- ===== src/Witnesses/Mitigations.antt =====
-- The theorems on mitigation requests at concrete inputs.
use e_pem.Prelude.{false, none, some, [], ◌∷◌}
use e_pem.Horse.{
  Horse, Outside, RtrActionType, PlaybookData, iptables, tasks, text, other_task, DocNorthModel,
  dns_limit, response,
}

abbrev outside : Outside
outside = record {
  post_doc = λ url request. response 503;
  post_callback = λ callback. response 200;
  playbook_fails = λ target. false;
}

abbrev state : Horse
state = record { doc_module = some (some "10.0.0.1:8080/doc"); forwarded = []; sent = [] }

-- the second task limits to `12/s`
abbrev playbook : PlaybookData
playbook = tasks (other_task ∷ iptables (some (text none (some 12))) ∷ [])

abbrev request : DocNorthModel
request = record {
  action_id = "a1";
  target = "10.0.0.9";
  action_definition = record {
    action_type = RtrActionType.dns_rate_limit;
    service = "DNS";
    action = dns_limit "0.0.0.0" 12;
  };
}
