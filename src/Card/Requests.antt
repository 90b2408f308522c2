-- ===== src/Card/Requests.antt =====
-- applyPersistentAnnotation (pkg/jevshadow/card_writer.go) and applyAnnotation (service.go).
use notification_manager.Base.{
  Bool, true, Option, none, some, List, [], ◌∷◌, Str, lit, str_eq, ◌&&◌, ◌||◌, not, if◌then◌else◌,
}
use notification_manager.Bolt.{Bolt}
use notification_manager.Outbox.Envelope.{bounded_receipt_error}
use notification_manager.Card.Component.{Float64, Component, is_none}
use notification_manager.Card.State.{sending, confirmed, unknown, Coding, Intent}
use notification_manager.Card.Store.{
  writer_busy, writer_unavailable, patch_state_unknown, patch_refused, Outcome, done, refused,
  CardState, CardFile, touched, save, load,
}
use notification_manager.Card.Writer.{
  WriterConfig, WriterEnv, Patch, patched, patch_fails, PatchCall, may_apply_of, card_patcher_key,
  resolve_card_patcher, classify_patch_failure, Binding, Writer, get_card_binding, acquired, busy,
  unavailable,
}
use notification_manager.Card.Apply.{
  is_in_flight, is_unknown, interrupted_error, Admission, annotated, admit_request, repeats,
  rejects, starts,
}

module _ ⦃F : Float64⦄ ⦃B : Bolt⦄ where
  open B use {Bucket, get, put, entries}

  -- What a step under the lock does: the answer, the files, the patches that were sent, and the
  -- state that the binding takes over, if it does.
  pub record Locked : Type 0 where
    pub answer : Outcome Str
    pub files : Bucket CardFile
    pub calls : List PatchCall
    pub synced : Option CardState

  abbrev pub intended : CardState → Intent → CardState
  intended st p = record st { patch_state = sending; last_patch_error = []; pending_patch = some p }

  abbrev pub unapplied : CardState → Intent → Bool → Str → CardState
  unapplied st p known message = record st {
    last_patch_error = bounded_receipt_error message;
    patch_state = classify_patch_failure known;
    pending_patch = if known then none else some p;
  }

  abbrev pub annotated_state : Coding → CardState → Intent → CardState
  annotated_state coding st p = record st {
    annotations = annotated coding st p.component;
    annotation_revision = p.component.annotation_revision;
    applied_keys =
        put st.applied_keys p.idempotency_key
          (record { payload_hash = p.payload_hash; request_id = p.request_id });
    patch_state = confirmed;
    pending_patch = none;
    last_patch_error = [];
  }

  -- The state after the platform's answer, and the error if its state is saved.
  abbrev pub settled : Coding → CardState → Intent → Patch → CardState
  settled coding st p patched = annotated_state coding st p
  settled coding st p (patch_fails known message) = unapplied st p known message

  abbrev pub answer_of : Intent → Patch → Outcome Str
  answer_of p patched = done p.request_id
  answer_of p (patch_fails known message) =
      refused (if known then patch_refused else patch_state_unknown)

  -- The intent is saved, the patch is sent, and the result is saved.
  unfoldable pub send_patch :
      Coding → WriterEnv → CardState → Intent → Bucket CardFile → List PatchCall → Locked
  unfolding save
  send_patch coding env st p files calls =
      let kept = save coding env.now env.first_write (intended st p) files in
      if not kept.0
      then record {
        answer = refused writer_unavailable;
        files = kept.1;
        calls = calls;
        synced = none;
      }
      else (let settled_state = settled coding st p env.patch in
          let ended = save coding env.now env.last_write settled_state kept.1 in
          record {
            answer = if ended.0 then answer_of p env.patch else refused patch_state_unknown;
            files = ended.1;
            calls =
                record {
                  message_id = st.message_id;
                  idempotency_key = p.idempotency_key;
                  revision = p.annotation_revision;
                  may_apply = may_apply_of env.patch;
                }
                ∷ calls;
            synced = some (touched env.now settled_state);
          })

  abbrev pub interrupted_state : CardState → CardState
  interrupted_state st = record st { patch_state = unknown; last_patch_error = interrupted_error }

  unfoldable pub apply_admitted :
      Coding → WriterEnv → CardState → Admission → Bucket CardFile → List PatchCall → Locked
  unfolding send_patch
  apply_admitted coding env st (repeats id) files calls = record {
    answer = done id;
    files = files;
    calls = calls;
    synced = some st;
  }
  apply_admitted coding env st (rejects e) files calls = record {
    answer = refused e;
    files = files;
    calls = calls;
    synced = none;
  }
  apply_admitted coding env st (starts p) files calls = send_patch coding env st p files calls

  -- The operation under the lock, from the state that was loaded.
  unfoldable pub apply_state :
      Coding → WriterEnv → CardState → Str → Component → Bucket CardFile → List PatchCall → Locked
  unfolding save admit_request apply_admitted
  apply_state coding env st key c files calls =
      if is_in_flight st.patch_state && not (is_none st.pending_patch)
      then (let kept = save coding env.now env.first_write (interrupted_state st) files in
          record {
            answer = refused patch_state_unknown;
            files = kept.1;
            calls = calls;
            synced = if kept.0 then some (touched env.now (interrupted_state st)) else none;
          })
      else if not (is_none st.pending_patch) || is_unknown st.patch_state
      then record {
        answer = refused patch_state_unknown;
        files = files;
        calls = calls;
        synced = some st;
      }
      else apply_admitted coding env st (admit_request coding st key c env.now) files calls

  unfoldable pub apply_loaded :
      Coding
      → WriterConfig
      → WriterEnv
      → Binding
      → Str
      → Str
      → Component
      → Bucket CardFile
      → List PatchCall
      → Locked
  unfolding load apply_state
  apply_loaded coding config env b message_id key c files calls =
      elim (load coding message_id files) [
        | refused e ↦ record { answer = refused e; files = files; calls = calls; synced = none }
        | done st ↦
            if not (str_eq st.sender_app config.sender_app)
              || (not (str_eq st.receiver b.state.receiver)
                  || not (str_eq st.destination b.state.destination))
            then record {
              answer = refused writer_unavailable;
              files = files;
              calls = calls;
              synced = none;
            }
            else apply_state coding env st key c files calls
      ]

  unfoldable pub under_lock :
      Coding
      → WriterConfig
      → WriterEnv
      → Binding
      → Str
      → Str
      → Component
      → Bucket CardFile
      → List PatchCall
      → Locked
  unfolding apply_loaded
  under_lock coding config env b message_id key c files calls = elim env.lock [
    | acquired ↦ apply_loaded coding config env b message_id key c files calls
    | busy ↦ record { answer = refused writer_busy; files = files; calls = calls; synced = none }
    | unavailable ↦ record {
      answer = refused writer_unavailable;
      files = files;
      calls = calls;
      synced = none;
    }
  ]

  -- A binding is shared with the map: what it takes over is seen there as long as it is kept there.
  abbrev pub synchronise : Option CardState → Str → Bucket Binding → Bucket Binding
  synchronise none message_id cards = cards
  synchronise (some st) message_id cards = elim (get cards message_id) [
    | none ↦ cards
    | some old ↦ put cards message_id (record { state = st; has_patcher = true })
  ]

  unfoldable pub apply_persistent_annotation :
      Coding → WriterConfig → WriterEnv → Str → Str → Component → Writer → Outcome Str × Writer
  unfolding get_card_binding resolve_card_patcher under_lock
  apply_persistent_annotation coding config env message_id key c w =
      elim (get_card_binding coding config message_id w) [
        | refused e ↦ (refused e, w)
        | done (b, cards) ↦
            elim (resolve_card_patcher env.resolver
              (card_patcher_key b.state.receiver b.state.destination) b.has_patcher w.patchers) [
                | none ↦ (refused writer_unavailable, record w { cards = cards })
                | some patchers ↦
                    let l = under_lock coding config env b message_id key c w.files w.calls in
                    (
                      l.answer,
                      record {
                        cards = synchronise l.synced message_id cards;
                        patchers = patchers;
                        files = l.files;
                        calls = l.calls;
                      },
                    )
              ]
      ]

  -- Without feedback a production card gets no action.
  unfoldable pub apply_annotation :
      Coding → WriterConfig → WriterEnv → Str → Str → Component → Writer → Outcome Str × Writer
  unfolding apply_persistent_annotation
  apply_annotation coding config env message_id key c w =
      apply_persistent_annotation coding config env message_id key
        (if (str_eq config.environment (lit "production") || str_eq config.environment (lit "prod"))
            && not config.feedback_enabled
          then record c { action_reference = none }
          else c)
        w
