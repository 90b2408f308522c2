-- ===== src/Handoff/Service.antt =====
-- The selector and the Service of a handoff (handoffSelector and createManagedHandoffService of
-- controllers/sender_handoff.go).
use notification_manager.Base.{
  Bool, Option, none, some, List, [], ◌∷◌, ◌++◌, Str, lit, str_eq, is_empty, ◌&&◌, ◌||◌, not,
  if◌then◌else◌,
}
use notification_manager.Handoff.Types.{
  Labels, HandoffPhase, active, retired, rollback, other, SenderHandoff, Answer, done, fails, ◌>>=◌,
  ◌>>◌, fail_if, is_rollback, or_fail, labels_match, overlaps_original, not_independent, api_failed,
  not_found, original_not_ready, candidate_mismatch, candidate_not_ready, no_contract,
  selects_another,
}
use notification_manager.Handoff.Candidate.{Deployment, deployment_ready, has_valid_port}

-- The fields of the Service that are written here.
pub record Service : Type 0 where
  pub selector : Labels
  pub handoff : Option Str
  pub port_name : Str

-- The objects of the namespace, of which the Service is the one of the manager.
pub record Cluster : Type 0 where
  pub deployments : List Deployment
  pub service : Option Service

pub data Request : Type 0 where
  get_deployment : Str → Request
  list_deployments get_service create_service update_service : Request

-- The NotificationManager: its name and the name of its port; a request that the API server fails.
pub record Manager : Type 0 where
  pub name : Str
  pub port_name : Str

abbrev pub Api : Type 0
Api = Request → Bool

abbrev pub common_labels : Manager → Labels
common_labels nm =
    (lit "app", lit "notification-manager") ∷ (lit "notification-manager", nm.name) ∷ []

abbrev pub owned_deployment : Manager → Str
owned_deployment nm = nm.name ++ lit "-deployment"

abbrev pub port_of : Manager → Str
port_of nm = if is_empty nm.port_name then lit "webhook" else nm.port_name

unfoldable pub find_deployment : Str → List Deployment → Option Deployment
find_deployment name [] = none
find_deployment name (d ∷ ds) =
    let rest = find_deployment name ds in if str_eq d.name name then some d else rest

unfoldable pub read_deployment : Api → Str → Cluster → Answer Deployment
unfolding find_deployment
read_deployment api name cluster = do
  fail_if (api (get_deployment name)) api_failed
  or_fail (find_deployment name cluster.deployments) not_found

unfoldable pub check_others : SenderHandoff → List Deployment → Answer (Unit {0})
unfolding labels_match
check_others h [] = done tt
check_others h (d ∷ ds) =
    let rest = check_others h ds in
    if not (str_eq d.name h.deployment) && labels_match h.selector d.labels
    then fails (selects_another d.name)
    else rest

unfoldable pub rollback_selector : Api → Manager → Cluster → Answer Labels
unfolding read_deployment deployment_ready
rollback_selector api nm cluster = do
  original ← read_deployment api (owned_deployment nm) cluster
  fail_if (not (deployment_ready original)) original_not_ready
  done (common_labels nm)

unfoldable pub candidate_selector : Api → Manager → SenderHandoff → Cluster → Answer Labels
unfolding read_deployment deployment_ready has_valid_port check_others
candidate_selector api nm h cluster = do
  candidate ← read_deployment api h.deployment cluster
  fail_if
      (not (str_eq candidate.uid h.deployment_uid)
        || not (labels_match h.selector candidate.labels))
      candidate_mismatch
  fail_if (not (deployment_ready candidate)) candidate_not_ready
  fail_if (not (has_valid_port (port_of nm) candidate.containers)) no_contract
  fail_if (api list_deployments) api_failed
  check_others h cluster.deployments
  done h.selector

unfoldable pub handoff_selector : Api → Manager → SenderHandoff → Cluster → Answer Labels
unfolding rollback_selector candidate_selector
handoff_selector api nm h cluster = do
  fail_if (labels_match h.selector (common_labels nm)) overlaps_original
  fail_if (str_eq h.deployment (owned_deployment nm)) not_independent
  if is_rollback h.phase
      then rollback_selector api nm cluster
      else candidate_selector api nm h cluster

abbrev pub phase_name : HandoffPhase → Str
phase_name active = lit "active"
phase_name retired = lit "retired"
phase_name rollback = lit "rollback"
phase_name (other s) = s

abbrev pub mark : SenderHandoff → Str
mark h = h.operation_id ++ (b':' ∷ phase_name h.phase)

unfoldable pub write_service : Api → Manager → SenderHandoff → Labels → Cluster → Answer Cluster
write_service api nm h selector cluster = elim cluster.service [
  | none ↦
      fail_if (api create_service) api_failed
      >> done (record cluster {
        service =
            some (record { selector = selector; handoff = some (mark h); port_name = port_of nm });
      })
  | some svc ↦
      fail_if (api update_service) api_failed
      >> done (record cluster {
        service = some (record svc { selector = selector; handoff = some (mark h) });
      })
]

unfoldable pub create_managed_handoff_service :
    Api → Manager → SenderHandoff → Cluster → Answer Cluster
unfolding handoff_selector write_service
create_managed_handoff_service api nm h cluster = do
  selector ← handoff_selector api nm h cluster
  fail_if (api get_service) api_failed
  write_service api nm h selector cluster
