-- ===== src/Handoff/Backend.antt =====
-- Where the Service leads after a handoff.
use mathlib.Core.List.{Memᴰ}
use notification_manager.Base.{
  ◌≡◌, ◌⊎◌, inl, inr, refl, sym, subst, true, false, some, List, [], ◌∷◌, Str, str_eq, arith,
  Option-cases, Bool-cases,
}
use notification_manager.Handoff.Types.{
  Labels, SenderHandoff, Answer, done, fails, is_rollback, labels_match, HandoffError,
}
use notification_manager.Handoff.Candidate.{Deployment, deployment_ready, has_valid_port}
use notification_manager.Handoff.Service.{
  Service, Cluster, Request, get_deployment, list_deployments, get_service, update_service, Manager,
  Api, common_labels, owned_deployment, port_of, mark, find_deployment, read_deployment,
  check_others, rollback_selector, candidate_selector, handoff_selector, write_service,
  create_managed_handoff_service,
}

Answer-cases :
    {A : Type 0} (r : Answer A) → ((a : A) × (r ≡ done a)) ⊎ ((e : HandoffError) × (r ≡ fails e))
Answer-cases (done a) = inl (a, refl)
Answer-cases (fails e) = inr (e, refl)

-- The Service leads to the original sender, which is ready.
pub record LeadsBack (nm : Manager) (c : Cluster) (selector : Labels) : Type 0 where
  pub original : Deployment
  pub found : find_deployment (owned_deployment nm) c.deployments ≡ some original
  pub ready : deployment_ready original ≡ true
  pub is_old : selector ≡ common_labels nm

-- The Service leads to the candidate, which is ready and has the contract, and to no other
-- deployment, nor to the original sender.
pub record LeadsToCandidate (nm : Manager) (h : SenderHandoff) (c : Cluster) (selector : Labels)
    : Type 0 where
  pub candidate : Deployment
  pub found : find_deployment h.deployment c.deployments ≡ some candidate
  pub same_uid : str_eq candidate.uid h.deployment_uid ≡ true
  pub selected : labels_match selector candidate.labels ≡ true
  pub ready : deployment_ready candidate ≡ true
  pub contract : has_valid_port (port_of nm) candidate.containers ≡ true
  pub not_original : labels_match selector (common_labels nm) ≡ false
  pub no_other :
      (d : Deployment)
      → Memᴰ d c.deployments
      → labels_match selector d.labels ≡ true
      → str_eq d.name h.deployment ≡ true

check_others-none :
    (h : SenderHandoff) (ds : List Deployment) (d : Deployment)
    → check_others h ds ≡ done tt
    → Memᴰ d ds
    → labels_match h.selector d.labels ≡ true
    → str_eq d.name h.deployment ≡ true
unfolding check_others
check_others-none h [] d ok x m = elim x [ ]
check_others-none h (c ∷ ds) d ok (Memᴰ.head e) m = ground arith
check_others-none h (c ∷ ds) d ok (Memᴰ.tail x) m = check_others-none h ds d (ground arith) x m

rollback_selector-LeadsBack :
    (api : Api) (nm : Manager) (c : Cluster) (selector : Labels)
    → rollback_selector api nm c ≡ done selector
    → LeadsBack nm c selector
unfolding rollback_selector read_deployment
rollback_selector-LeadsBack api nm c selector ok =
    elim (Option-cases (find_deployment (owned_deployment nm) c.deployments)) [
      | inl e ↦ absurd (ground arith)
      | inr (d, e) ↦ record { original = d; found = e; ready = ground arith; is_old = ground arith }
    ]

candidate_selector-LeadsToCandidate :
    (api : Api) (nm : Manager) (h : SenderHandoff) (c : Cluster) (selector : Labels)
    → labels_match h.selector (common_labels nm) ≡ false
    → candidate_selector api nm h c ≡ done selector
    → LeadsToCandidate nm h c selector
unfolding candidate_selector read_deployment
candidate_selector-LeadsToCandidate api nm h c selector apart ok =
    elim (Option-cases (find_deployment h.deployment c.deployments)) [
      | inl e ↦ absurd (ground arith)
      | inr (d, e) ↦ elim (Answer-cases (check_others h c.deployments)) [
        | inr (x, bad) ↦ absurd (ground arith)
        | inl (u, none_else) ↦
            subst (LeadsToCandidate nm h c) {x = h.selector} {y = selector} (ground arith) (record {
              candidate = d;
              found = e;
              same_uid = ground arith;
              selected = ground arith;
              ready = ground arith;
              contract = ground arith;
              not_original = apart;
              no_other = λ o m s. check_others-none h c.deployments o none_else m s;
            })
      ]
    ]

abbrev pub Leads : Manager → SenderHandoff → Cluster → Labels → Type 0
Leads nm h c selector =
    ((is_rollback h.phase ≡ true) × LeadsBack nm c selector)
    ⊎ ((is_rollback h.phase ≡ false) × LeadsToCandidate nm h c selector)

handoff_selector-Leads :
    (api : Api) (nm : Manager) (h : SenderHandoff) (c : Cluster) (selector : Labels)
    → handoff_selector api nm h c ≡ done selector
    → Leads nm h c selector
unfolding handoff_selector
handoff_selector-Leads api nm h c selector ok = elim (Bool-cases (is_rollback h.phase)) [
  | inl back ↦ inl (back, rollback_selector-LeadsBack api nm c selector (ground arith))
  | inr on ↦
      inr
        (on, candidate_selector-LeadsToCandidate api nm h c selector (ground arith) (ground arith))
]

write_service_lem :
    (api : Api) (nm : Manager) (h : SenderHandoff) (selector : Labels) (c c' : Cluster)
    → write_service api nm h selector c ≡ done c'
    → (svc : Service) × (c'.service ≡ some svc)
      × (c'.deployments ≡ c.deployments)
      × (svc.handoff ≡ some (mark h))
      × (svc.selector ≡ selector)
unfolding write_service
write_service_lem api nm h selector c c' ok = elim (Option-cases c.service) [
  | inl e ↦ (
    record { selector = selector; handoff = some (mark h); port_name = port_of nm },
    ground arith,
    ground arith,
    refl,
    refl,
  )
  | inr (svc, e) ↦ (
    record svc { selector = selector; handoff = some (mark h) },
    ground arith,
    ground arith,
    refl,
    refl,
  )
]

-- When a handoff succeeds, the Service has its selector and its mark, and leads, in a rollback, to
-- the original sender, or else to the candidate alone; the deployments are as they were.
pub create_managed_handoff_service-Leads :
    (api : Api) (nm : Manager) (h : SenderHandoff) (c c' : Cluster)
    → create_managed_handoff_service api nm h c ≡ done c'
    → (svc : Service) × (c'.service ≡ some svc)
      × (c'.deployments ≡ c.deployments)
      × (svc.handoff ≡ some (mark h))
      × Leads nm h c svc.selector
unfolding create_managed_handoff_service
create_managed_handoff_service-Leads api nm h c c' ok =
    elim (Answer-cases (handoff_selector api nm h c)) [
      | inr (e, bad) ↦ absurd (ground arith)
      | inl (selector, good) ↦
          let (svc, at, same, marked, chosen) =
            write_service_lem api nm h selector c c' (ground arith) in
          (
            svc,
            at,
            same,
            marked,
            subst (Leads nm h c) (sym chosen) (handoff_selector-Leads api nm h c selector good),
          )
    ]

read_deployment_again :
    (api api' : Api) (name : Str) (c c' : Cluster) (d : Deployment)
    → read_deployment api name c ≡ done d
    → c'.deployments ≡ c.deployments
    → ((r : Request) → api' r ≡ false)
    → read_deployment api' name c' ≡ done d
unfolding read_deployment
read_deployment_again api api' name c c' d ok same answers =
    elim (Option-cases (find_deployment name c.deployments)) [
      | inl e ↦ absurd (ground arith)
      | inr (x, e) ↦ ground (arith, answers (get_deployment name), same)
    ]

handoff_selector_again :
    (api api' : Api) (nm : Manager) (h : SenderHandoff) (c c' : Cluster) (selector : Labels)
    → handoff_selector api nm h c ≡ done selector
    → c'.deployments ≡ c.deployments
    → ((r : Request) → api' r ≡ false)
    → handoff_selector api' nm h c' ≡ done selector
unfolding handoff_selector rollback_selector candidate_selector
handoff_selector_again api api' nm h c c' selector ok same answers =
    elim (Bool-cases (is_rollback h.phase)) [
      | inl back ↦ elim (Answer-cases (read_deployment api (owned_deployment nm) c)) [
        | inr (x, bad) ↦ absurd (ground arith)
        | inl (d, good) ↦ ground (
          arith,
          good,
          read_deployment_again api api' (owned_deployment nm) c c' d good same answers,
        )
      ]
      | inr on ↦ elim (Answer-cases (read_deployment api h.deployment c)) [
        | inr (x, bad) ↦ absurd (ground arith)
        | inl (d, good) ↦ ground (
          arith,
          good,
          same,
          answers list_deployments,
          read_deployment_again api api' h.deployment c c' d good same answers,
        )
      ]
    ]

write_service_again :
    (api : Api) (nm : Manager) (h : SenderHandoff) (selector : Labels) (c : Cluster) (svc : Service)
    → c.service ≡ some svc
    → svc.selector ≡ selector
    → svc.handoff ≡ some (mark h)
    → api update_service ≡ false
    → write_service api nm h selector c ≡ done c
unfolding write_service
write_service_again api nm h selector c svc at chosen marked answers = ground arith

-- A handoff that succeeded may be repeated: if the API server answers, it succeeds again and changes
-- nothing.
pub create_managed_handoff_service-again :
    (api api' : Api) (nm : Manager) (h : SenderHandoff) (c c' : Cluster)
    → create_managed_handoff_service api nm h c ≡ done c'
    → ((r : Request) → api' r ≡ false)
    → create_managed_handoff_service api' nm h c' ≡ done c'
unfolding create_managed_handoff_service
create_managed_handoff_service-again api api' nm h c c' ok answers =
    elim (Answer-cases (handoff_selector api nm h c)) [
      | inr (e, bad) ↦ absurd (ground arith)
      | inl (selector, good) ↦
          let (svc, at, same, marked, chosen) =
            write_service_lem api nm h selector c c' (ground arith) in
          ground (
            arith,
            answers get_service,
            handoff_selector_again api api' nm h c c' selector good same answers,
            write_service_again api' nm h selector c' svc at chosen marked (answers update_service),
          )
    ]
