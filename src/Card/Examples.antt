-- ===== src/Card/Examples.antt =====
-- Instances of the theorems on cards, with decimals of nine places for float64 and an encoding that
-- tells texts apart by their length.
use notification_manager.Base.{
  ℕ, ◌+◌, ◌-◌, ◌*◌, ◌/◌, ◌≡◌, refl, true, false, none, some, List, [], ◌∷◌, ◌++◌, Str, lit, length,
  dec_str, str_lt, contains, ℕ_discrete, ltb, leb, if◌then◌else◌,
}
use notification_manager.Bolt.{lookup, upsert, erase}
use notification_manager.Bolt.Listed.{listed}
use notification_manager.Spool.Counter.{last_digits}
use notification_manager.Outbox.Disk.{completes, fails_before}
use notification_manager.Card.Component.{Float64, Component, ChoiceAnswer}
use notification_manager.Card.Validation.{validate}
use notification_manager.Card.State.{Card, Coding, given}
use notification_manager.Card.Store.{Outcome, done}
use notification_manager.Card.Writer.{
  WriterConfig, WriterEnv, acquired, finds_patcher, patched, Writer, capture_card_binding,
}
use notification_manager.Card.Requests.{apply_persistent_annotation, apply_annotation}
use notification_manager.Card.Recent.{restart}
use notification_manager.Card.Runs.{
  captures, annotates, restarts, here, next, Increasing, WriterRun-Increasing,
}
use notification_manager.Card.Twice.{repeated_answer, apply_twice}
use notification_manager.Card.Policy.{PoolGround, validate-PoolGround}

abbrev pub nine_places : ℕ
nine_places = 1000000000

abbrev pub distance : ℕ → ℕ → ℕ
distance x y = (x - y) + (y - x)

instance abbrev pub decimals : Float64
decimals = record {
  Float = ℕ;
  zero = 0;
  one = nine_places;
  add = λ x y. x + y;
  percent = λ x. x * 100;
  round = λ x. ((x + 500000000) / nine_places) * nine_places;
  gap = distance;
  lowered = λ x y. x - y;
  raised = λ x y. if ltb nine_places (x + y) then nine_places else x + y;
  le = leb;
  lt = ltb;
  is_nan = λ x. false;
  is_inf = λ x. false;
  half_cent = 5000000;
  tolerance = 1;
  nearly_one = 999999999;
  just_over_one = 1000000001;
}

abbrev pub by_length : Str → Str
by_length s = last_digits 64 (length s) []

abbrev pub concat_all : List Str → Str
concat_all [] = []
concat_all (s ∷ r) = s ++ concat_all r

abbrev pub coding : Coding
coding = record {
  digest = by_length;
  marshal_component = λ c. some c.text;
  marshal_card = λ c. some c.others;
  marshal_strings = concat_all;
}

abbrev pub first_component : Component
first_component = record {
  schema_version = lit "1";
  annotation_revision = 1;
  expected_base_revision = 1;
  member_event_ids = lit "e" ∷ [];
  title = lit "t";
  category = [];
  route = [];
  repeat_count = 0;
  same_kind_count = 0;
  recommendation = [];
  evidence_lines = [];
  footer = [];
  detail_url = none;
  judgment_id = [];
  routing = none;
  pool_reason = none;
  policy_proposal = [];
  policy_reason_code = [];
  pool_min_probability = none;
  capability = [];
  decision_source = [];
  threshold_applied = none;
  threshold_source = [];
  model_status = [];
  model_error_code = [];
  context_reduced = none;
  execution_mode = [];
  trace_url = none;
  action_reference = none;
  text = lit "a";
}

abbrev pub routing_answer : ChoiceAnswer
routing_answer = record {
  choice = lit "pool";
  probabilities = (lit "pool", 700000000) ∷ (lit "oncall", 300000000) ∷ [];
}

abbrev pub reason_answer : ChoiceAnswer
reason_answer = record {
  choice = lit "recurring";
  probabilities =
      (lit "recurring", 400000000)
      ∷ (lit "same_incident", 300000000)
      ∷ (lit "non_urgent", 200000000)
      ∷ (lit "unclear", 100000000)
      ∷ [];
}

abbrev pub model_component : Component
model_component = record first_component {
  schema_version = lit "2";
  judgment_id = lit "j";
  routing = some routing_answer;
  pool_reason = some reason_answer;
  policy_proposal = lit "pool";
  policy_reason_code = lit "model";
  pool_min_probability = some 600000000;
  capability = lit "policy-facts-v1";
  decision_source = lit "model_policy";
  threshold_applied = some true;
  threshold_source = lit "default";
  model_status = lit "available";
  context_reduced = some false;
  execution_mode = lit "shadow";
  trace_url = some (lit "https://t");
}

abbrev pub config : WriterConfig
config = record {
  sender_app = lit "app";
  environment = lit "test";
  feedback_enabled = false;
  max_cards = 4;
}

abbrev pub env : WriterEnv
env = record {
  lock = acquired;
  resolver = finds_patcher;
  patch = patched;
  first_write = completes;
  last_write = completes;
  now = 9;
}

-- The last write fails: a crash behind the patch.
abbrev pub crashing_env : WriterEnv
crashing_env = record env { last_write = fails_before }

abbrev pub base_card : Card
base_card = record { elements = some (given (lit "x") ∷ []); others = lit "o" }

abbrev pub new_writer : Writer
new_writer = record { cards = listed.empty; patchers = []; files = listed.empty; calls = [] }

abbrev pub captured_writer : Writer
captured_writer =
    (capture_card_binding coding config env (lit "r") (lit "d") (lit "m") base_card new_writer).1

abbrev pub annotated_writer : Writer
annotated_writer =
    (apply_annotation coding config crashing_env (lit "m") (lit "key-0001") first_component
      captured_writer).1

abbrev pub restarted_writer : Writer
restarted_writer = restart coding config false (λ name. completes) annotated_writer

WriterRun-Increasing_example :
    Increasing
      (apply_annotation coding config env
        (lit "m")
        (lit "key-0001")
        first_component
        restarted_writer).1.calls
WriterRun-Increasing_example =
    WriterRun-Increasing coding new_writer
      (apply_annotation coding config env (lit "m") (lit "key-0001") first_component
        restarted_writer).1
      refl
      (next
        (next
          (next (next here (captures config env (lit "r") (lit "d") (lit "m") base_card refl))
            (annotates config crashing_env (lit "m") (lit "key-0001") first_component refl))
          (restarts config false (λ name. completes) refl))
        (annotates config env (lit "m") (lit "key-0001") first_component refl))

validate-PoolGround_example : PoolGround model_component
unfolding validate dec_str lookup
validate-PoolGround_example = validate-PoolGround model_component refl refl refl

-- A request with the same key and another content.
abbrev pub second_component : Component
second_component = record first_component { text = lit "ab" }

abbrev pub first_answer : Outcome Str × Writer
first_answer =
    apply_persistent_annotation coding config env (lit "m") (lit "key-0001") first_component
      captured_writer

first_applied : first_answer.0 ≡ done (lit "jev-card-0000000000000000")
unfolding apply_persistent_annotation capture_card_binding dec_str lookup upsert erase str_lt
    contains last_digits ℕ_discrete
first_applied = refl

-- After a crash behind the patch, the request is not sent again.
resent_calls :
    (apply_annotation coding config env
      (lit "m")
      (lit "key-0001")
      first_component
      restarted_writer).1.calls
    ≡ annotated_writer.calls
unfolding apply_annotation capture_card_binding restart dec_str lookup upsert erase str_lt contains
    last_digits ℕ_discrete
resent_calls = refl

apply_twice_example :
    let again =
      apply_persistent_annotation coding config env
        (lit "m")
        (lit "key-0001")
        second_component
        first_answer.1 in
    (again.0
      ≡ repeated_answer
          (by_length (lit "a"))
          (by_length (lit "ab"))
          (lit "jev-card-0000000000000000"))
    × (again.1.files ≡ first_answer.1.files)
    × (again.1.calls ≡ first_answer.1.calls)
apply_twice_example =
    apply_twice coding config env env (lit "m") (lit "key-0001") first_component second_component
      (by_length (lit "a")) (by_length (lit "ab")) captured_writer first_answer.1
      (lit "jev-card-0000000000000000") refl refl refl (λ i. (first_applied i, first_answer.1))
