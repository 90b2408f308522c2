-- ===== src/Handoff/Examples.antt =====
-- A handoff to a candidate, and instances of the theorems on it.
use notification_manager.Base.{◌≡◌, refl, true, false, none, some, [], ◌∷◌, Str, lit, dec_str}
use notification_manager.Handoff.Types.{
  Labels, SenderHandoff, active, done, fails, no_evidence, retired, handoff_intent, check_handoff,
  label, labels_match, selects_another,
}
use notification_manager.Handoff.Candidate.{
  named, Container, Deployment, deployment_ready, has, listens_for_formal, names_sources,
  has_primary, probes_primary, probes_formal, formal_candidate_contract, has_valid_port,
}
use notification_manager.Handoff.Service.{
  Service, Cluster, Manager, Api, mark, find_deployment, read_deployment, check_others,
  rollback_selector, candidate_selector, handoff_selector, write_service,
  create_managed_handoff_service,
}
use notification_manager.Handoff.Backend.{
  Leads, create_managed_handoff_service-Leads, create_managed_handoff_service-again,
}

abbrev app : Str → Labels
app v = (lit "app", v) ∷ []

abbrev sender : Container
sender = record {
  env =
      record {
        name = lit "NM_FORMAL_COMPAT_LISTEN_ADDRESS";
        value = lit ":19093";
        has_source = false;
      }
      ∷ record { name = lit "NM_FORMAL_COMPAT_SOURCE_CIDRS"; value = []; has_source = true }
      ∷ [];
  args = lit "--webhook.address" ∷ lit ":19094" ∷ [];
  probe = some (record {
    path = lit "/-/formal-ready";
    host = [];
    scheme = [];
    port = named (lit "primary");
  });
  ports =
      record { name = lit "webhook"; container_port = 19093; protocol = [] }
      ∷ record { name = lit "primary"; container_port = 19094; protocol = lit "TCP" }
      ∷ [];
}

abbrev candidate : Deployment
candidate = record {
  name = lit "new";
  uid = lit "u1";
  labels = app (lit "new");
  replicas = some 1;
  generation = 3;
  observed_generation = 3;
  ready_replicas = 1;
  updated_replicas = 1;
  containers = sender ∷ [];
}

abbrev original : Deployment
original = record candidate {
  name = lit "nm-deployment";
  uid = lit "u0";
  labels = app (lit "notification-manager");
}

abbrev manager : Manager
manager = record { name = lit "nm"; port_name = [] }

abbrev intent : SenderHandoff
intent = record {
  operation_id = lit "op";
  phase = active;
  deployment = lit "new";
  deployment_uid = lit "u1";
  selector = app (lit "new");
  drain_evidence = [];
}

abbrev answering : Api
answering r = false

abbrev before : Cluster
before = record { deployments = original ∷ candidate ∷ []; service = none }

abbrev chosen_service : Service
chosen_service = record {
  selector = app (lit "new");
  handoff = some (lit "op:active");
  port_name = lit "webhook";
}

abbrev after : Cluster
after = record before { service = some chosen_service }

whole_handoff : Unit {0}
unfolding create_managed_handoff_service write_service handoff_selector candidate_selector
    rollback_selector check_others read_deployment find_deployment has_valid_port
    formal_candidate_contract probes_formal probes_primary has_primary names_sources
    listens_for_formal has deployment_ready labels_match label check_handoff handoff_intent dec_str
whole_handoff = tt

after_lem : create_managed_handoff_service answering manager intent before ≡ done after
unfolding whole_handoff
after_lem = refl

-- A selector that another deployment has too is refused.
crowded_lem :
    create_managed_handoff_service answering manager intent (record before {
      deployments = record original { labels = app (lit "new") } ∷ candidate ∷ [];
    })
    ≡ fails (selects_another (lit "nm-deployment"))
unfolding whole_handoff
crowded_lem = refl

retired_lem :
    handoff_intent (λ s. some (record intent { phase = retired })) (lit "{}") ≡ fails no_evidence
unfolding whole_handoff
retired_lem = refl

create_managed_handoff_service-Leads_example :
    (svc : Service) × (after.service ≡ some svc)
    × (after.deployments ≡ before.deployments)
    × (svc.handoff ≡ some (mark intent))
    × Leads manager intent before svc.selector
create_managed_handoff_service-Leads_example =
    create_managed_handoff_service-Leads answering manager intent before after after_lem

create_managed_handoff_service-again_example :
    create_managed_handoff_service answering manager intent after ≡ done after
create_managed_handoff_service-again_example =
    create_managed_handoff_service-again answering answering manager intent before after after_lem
      (λ r. refl)
