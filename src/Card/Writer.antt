-- ===== src/Card/Writer.antt =====
-- The writer of cards: bindings in memory, captureCardBinding and applyPersistentAnnotation
-- (pkg/jevshadow/card_writer.go), with applyAnnotation and evictOldestCardLocked (service.go).
use notification_manager.Base.{
  ℕ, Bool, true, false, Option, none, some, List, [], ◌∷◌, ◌++◌, Str, lit, str_eq, contains, ltb,
  leb, ◌&&◌, not, length, if◌then◌else◌,
}
use notification_manager.Bolt.{Bolt}
use notification_manager.Outbox.Envelope.{trim_left, trim_right}
use notification_manager.Outbox.Disk.{Ending}
use notification_manager.Card.Component.{Float64}
use notification_manager.Card.State.{
  PatchState, unpatched, failed, unknown, Card, Coding, hash_card,
}
use notification_manager.Card.Store.{
  CardError, card_not_found, writer_busy, writer_unavailable, revision_conflict, Outcome, done,
  refused, CardState, CardFile, save_failed, touched, save, load,
}

-- The flock of a message.
pub data Lock : Type 0 where
  acquired busy unavailable : Lock

-- What the resolver of patchers answers: it is not set, it fails or returns nil, or it returns one.
pub data Resolver : Type 0 where
  lacks_resolver fails_to_find finds_patcher : Resolver

-- What the platform answers to a patch: an error is a CardPatchError of a known failure, or not.
pub data Patch : Type 0 where
  patched : Patch
  patch_fails : (known : Bool) (message : Str) → Patch

pub record WriterConfig : Type 0 where
  pub sender_app : Str
  pub environment : Str
  pub feedback_enabled : Bool
  pub max_cards : ℕ

-- What one call meets outside. The first write keeps the intent, or the unknown state of an
-- interrupted_state one; the last write keeps the result.
pub record WriterEnv : Type 0 where
  pub lock : Lock
  pub resolver : Resolver
  pub patch : Patch
  pub first_write : Ending
  pub last_write : Ending
  pub now : ℕ

-- A patch that was sent, and whether the platform may have applied it.
pub record PatchCall : Type 0 where
  pub message_id : Str
  pub idempotency_key : Str
  pub revision : ℕ
  pub may_apply : Bool

abbrev pub may_apply_of : Patch → Bool
may_apply_of patched = true
may_apply_of (patch_fails known message) = not known

unfoldable pub card_patcher_key : Str → Str → Str
unfolding trim_left trim_right
card_patcher_key receiver destination =
    trim_right (trim_left receiver) ++ (0 ∷ trim_right (trim_left destination))

-- The keys of the registered patchers afterwards; `none` without a patcher.
unfoldable pub resolve_card_patcher : Resolver → Str → Bool → List Str → Option (List Str)
unfolding contains
resolve_card_patcher resolver key true patchers = some patchers
resolve_card_patcher resolver key false patchers =
    if contains patchers key then some patchers else elim resolver [
      | finds_patcher ↦ some (key ∷ patchers)
      | lacks_resolver ↦ none
      | fails_to_find ↦ none
    ]

abbrev pub classify_patch_failure : Bool → PatchState
classify_patch_failure known = if known then failed else unknown

module _ ⦃F : Float64⦄ ⦃B : Bolt⦄ where
  open B use {Bucket, empty, get, put, delete, entries}

  -- The fields of a binding are those of the state that it was made from.
  pub record Binding : Type 0 where
    pub state : CardState
    pub has_patcher : Bool

  -- The service: what is in memory, the directory of the states, and the patches that were sent.
  pub record Writer : Type 0 where
    pub cards : Bucket Binding
    pub patchers : List Str
    pub files : Bucket CardFile
    pub calls : List PatchCall

  abbrev pub older : Option (Str × ℕ) → Str → ℕ → Str × ℕ
  older none id created = (id, created)
  older (some (old, t)) id created = if ltb created t then (id, created) else (old, t)

  -- The loop over the map, with the oldest so far.
  unfoldable pub find_oldest : Option (Str × ℕ) → List (Str × Binding) → Option (Str × ℕ)
  find_oldest best [] = best
  find_oldest best ((id, b) ∷ r) = find_oldest (some (older best id b.state.created_at)) r

  unfoldable pub evict_oldest_card : Bucket Binding → Bucket Binding
  unfolding find_oldest
  evict_oldest_card cards = elim (find_oldest none (entries cards)) [
    | none ↦ cards
    | some (id, t) ↦ delete cards id
  ]

  -- A binding that is there is kept.
  unfoldable pub remember : WriterConfig → Str → Binding → Bucket Binding → Bucket Binding
  unfolding evict_oldest_card
  remember config message_id b cards = elim (get cards message_id) [
    | some old ↦ cards
    | none ↦
        put
          (if leb config.max_cards (length (entries cards)) then evict_oldest_card cards else cards)
          message_id b
  ]

  unfoldable pub get_card_binding :
      Coding → WriterConfig → Str → Writer → Outcome (Binding × Bucket Binding)
  unfolding load remember card_patcher_key contains
  get_card_binding coding config message_id w = elim (get w.cards message_id) [
    | some b ↦ done (b, w.cards)
    | none ↦ elim (load coding message_id w.files) [
      | refused e ↦ refused e
      | done st ↦
          let b : Binding = record {
            state = st;
            has_patcher = contains w.patchers (card_patcher_key st.receiver st.destination);
          } in
          done (b, remember config message_id b w.cards)
    ]
  ]

  abbrev pub new_card_state : WriterConfig → Str → Str → Str → Card → ℕ → CardState
  new_card_state config receiver destination message_id base_card now = record {
    version = 1;
    message_id = message_id;
    receiver = receiver;
    destination = destination;
    sender_app = config.sender_app;
    base_card = base_card;
    base_revision = 1;
    base_send_state = lit "confirmed";
    annotation_revision = 0;
    annotations = empty;
    applied_keys = empty;
    patch_state = unpatched;
    pending_patch = none;
    last_patch_error = [];
    created_at = now;
    updated_at = now;
  }

  abbrev pub same_hash : Option Str → Option Str → Bool
  same_hash none h = false
  same_hash (some s) none = false
  same_hash (some s) (some t) = str_eq s t

  -- The state of the binding and the files, under the lock.
  unfoldable pub capture_locked :
      Coding → WriterEnv → CardState → Bucket CardFile → Outcome CardState × Bucket CardFile
  unfolding load save
  capture_locked coding env st files = elim (load coding st.message_id files) [
    | done existing ↦ (
      if same_hash (hash_card coding existing.base_card) (hash_card coding st.base_card)
            && (str_eq existing.receiver st.receiver && str_eq existing.destination st.destination)
          then done existing
          else refused revision_conflict,
      files,
    )
    | refused card_not_found ↦
        let saved = save coding env.now env.first_write st files in
        (if saved.0 then done (touched env.now st) else refused save_failed, saved.1)
    | refused e ↦ (refused e, files)
  ]

  abbrev pub locked :
      {A : Type 0}
      → Lock
      → Outcome A × Bucket CardFile
      → Bucket CardFile
      → Outcome A × Bucket CardFile
  locked acquired result files = result
  locked busy result files = (refused writer_busy, files)
  locked unavailable result files = (refused writer_unavailable, files)

  unfoldable pub capture_card_binding :
      Coding
      → WriterConfig
      → WriterEnv
      → Str
      → Str
      → Str
      → Card
      → Writer
      → Option CardError × Writer
  unfolding capture_locked remember
  capture_card_binding coding config env receiver destination message_id base_card w =
      let captured =
        locked env.lock
          (capture_locked coding env
            (new_card_state config receiver destination message_id base_card env.now) w.files)
          w.files in
      elim captured.0 [
        | refused e ↦ (some e, record w { files = captured.1 })
        | done st ↦ (
          none,
          record w {
            files = captured.1;
            cards = remember config message_id (record { state = st; has_patcher = true }) w.cards;
          },
        )
      ]
