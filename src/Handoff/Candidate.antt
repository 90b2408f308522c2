-- ===== src/Handoff/Candidate.antt =====
-- The deployments, and what makes one ready to take over (deploymentReady and
-- formalCandidateContract of controllers/sender_handoff.go).
use notification_manager.Base.{
  ℕ, Bool, false, Option, none, some, List, [], ◌∷◌, Str, lit, str_eq, is_empty, ltb, leb, ◌==◌,
  ◌&&◌, ◌||◌, not,
}
use notification_manager.Handoff.Types.{Labels}

pub record Port : Type 0 where
  pub name : Str
  pub container_port : ℕ
  pub protocol : Str

pub record EnvVar : Type 0 where
  pub name : Str
  pub value : Str
  pub has_source : Bool

pub data ProbePort : Type 0 where
  number : ℕ → ProbePort
  named : Str → ProbePort

-- The HTTPGet of a readiness probe.
pub record Probe : Type 0 where
  pub path : Str
  pub host : Str
  pub scheme : Str
  pub port : ProbePort

pub record Container : Type 0 where
  pub env : List EnvVar
  pub args : List Str
  pub probe : Option Probe
  pub ports : List Port

pub record Deployment : Type 0 where
  pub name : Str
  pub uid : Str
  pub labels : Labels
  pub replicas : Option ℕ
  pub generation : ℕ
  pub observed_generation : ℕ
  pub ready_replicas : ℕ
  pub updated_replicas : ℕ
  pub containers : List Container

unfoldable pub deployment_ready : Deployment → Bool
deployment_ready d = elim d.replicas [
  | none ↦ false
  | some n ↦
      ltb 0 n
      && (leb d.generation d.observed_generation
          && (leb n d.ready_replicas && leb n d.updated_replicas))
]

unfoldable pub has : {A : Type 0} → (A → Bool) → List A → Bool
has p [] = false
has p (a ∷ l) = p a || has p l

abbrev pub is_tcp : Port → Bool
is_tcp p = is_empty p.protocol || str_eq p.protocol (lit "TCP")

unfoldable pub listens_for_formal : EnvVar → Bool
listens_for_formal e =
    str_eq e.name (lit "NM_FORMAL_COMPAT_LISTEN_ADDRESS")
    && (str_eq e.value (lit ":19093") || str_eq e.value (lit "0.0.0.0:19093"))

unfoldable pub names_sources : EnvVar → Bool
names_sources e =
    str_eq e.name (lit "NM_FORMAL_COMPAT_SOURCE_CIDRS") && (not (is_empty e.value) || e.has_source)

abbrev pub is_primary : Str → Bool
is_primary a = str_eq a (lit ":19094") || str_eq a (lit "0.0.0.0:19094")

abbrev pub next_is_primary : List Str → Bool
next_is_primary [] = false
next_is_primary (a ∷ l) = is_primary a

unfoldable pub has_primary : List Str → Bool
has_primary [] = false
has_primary (a ∷ args) =
    (str_eq a (lit "--webhook.address=:19094") || str_eq a (lit "--webhook.address=0.0.0.0:19094"))
    || ((str_eq a (lit "--webhook.address") && next_is_primary args) || has_primary args)

unfoldable pub probes_primary : List Port → ProbePort → Bool
unfolding has
probes_primary ports (number n) = n == 19094
probes_primary ports (named s) =
    has (λ p. str_eq p.name s && ((p.container_port == 19094) && is_tcp p)) ports

unfoldable pub probes_formal : List Port → Option Probe → Bool
unfolding probes_primary
probes_formal ports none = false
probes_formal ports (some p) =
    str_eq p.path (lit "/-/formal-ready")
    && (is_empty p.host
        && ((is_empty p.scheme || str_eq p.scheme (lit "HTTP")) && probes_primary ports p.port))

unfoldable pub formal_candidate_contract : Container → Bool
unfolding has listens_for_formal names_sources has_primary probes_formal
formal_candidate_contract c =
    has listens_for_formal c.env
    && (has names_sources c.env && (has_primary c.args && probes_formal c.ports c.probe))

-- A container with the contract has the named port of the service.
unfoldable pub has_valid_port : Str → List Container → Bool
unfolding has formal_candidate_contract
has_valid_port port containers =
    has
      (λ c.
        has
          (λ p.
            str_eq p.name port
            && ((p.container_port == 19093) && (is_tcp p && formal_candidate_contract c)))
          c.ports)
      containers
