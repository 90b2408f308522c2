-- ===== src/Card/Once.antt =====
-- Every patch of a card has a new revision.
use notification_manager.Base.{
  ◌≡◌, ◌⊎◌, inl, inr, refl, arith, Option, none, some, List, Str, Option-cases,
}
use notification_manager.Bolt.{Bolt}
use notification_manager.Card.Component.{Float64, Component}
use notification_manager.Card.State.{Card, Coding}
use notification_manager.Card.Store.{
  CardError, card_not_found, Outcome, done, refused, CardState, CardFile, saved, foreign,
  card_file_name, load,
}
use notification_manager.Card.Writer.{
  WriterConfig, WriterEnv, Lock, acquired, busy, unavailable, PatchCall, Binding, Writer,
  get_card_binding, resolve_card_patcher, card_patcher_key, capture_locked, capture_card_binding,
  new_card_state, locked,
}
use notification_manager.Card.Requests.{apply_persistent_annotation}
use notification_manager.Card.Levels.{level}
use notification_manager.Card.Advances.{Advances, Advances-same, save-Advances}
use notification_manager.Card.Steps.{under_lock-Advances}

module _ ⦃F : Float64⦄ ⦃B : Bolt⦄ where
  open B use {Bucket, empty, get, put}

  load_not_found :
      (coding : Coding) (message_id : Str) (files : Bucket CardFile) (x : Option CardFile)
      → get files (card_file_name coding message_id) ≡ x
      → load coding message_id files ≡ refused card_not_found
      → level coding files (card_file_name coding message_id) ≡ 0
  unfolding load
  load_not_found coding message_id files none e h = rw e refl
  load_not_found coding message_id files (some (foreign s)) e h = rw e refl
  load_not_found coding message_id files (some (saved st)) e h = absurd (ground arith)

  capture_locked-Advances :
      (coding : Coding) (env : WriterEnv) (st : CardState) (files : Bucket CardFile)
      (calls : List PatchCall) (o : Outcome CardState)
      → load coding st.message_id files ≡ o
      → Advances coding files calls (capture_locked coding env st files).1 calls
  unfolding capture_locked
  capture_locked-Advances coding env st files calls (done existing) e =
      rw (e, capture_locked) (Advances-same coding files calls)
  capture_locked-Advances coding env st files calls (refused card_not_found) e =
      rw (e, capture_locked)
        (save-Advances coding env.now env.first_write st files calls (
          omega (
            arith,
            load_not_found coding st.message_id files
                (get files (card_file_name coding st.message_id)) refl e,
          )))
  capture_locked-Advances coding env st files calls (refused err) e =
      rw (e, capture_locked) (Advances-same coding files calls)

  locked-Advances :
      (coding : Coding) (files : Bucket CardFile) (calls : List PatchCall) (lock : Lock)
      (r : Outcome CardState × Bucket CardFile)
      → Advances coding files calls r.1 calls
      → Advances coding files calls (locked lock r files).1 calls
  locked-Advances coding files calls acquired r a = a
  locked-Advances coding files calls busy r a = Advances-same coding files calls
  locked-Advances coding files calls unavailable r a = Advances-same coding files calls

  pub capture_card_binding-Advances :
      (coding : Coding) (config : WriterConfig) (env : WriterEnv)
      (receiver destination message_id : Str) (base_card : Card) (w : Writer)
      → let w' =
          (capture_card_binding coding config env receiver destination message_id base_card w).1 in
        Advances coding w.files w.calls w'.files w'.calls
  unfolding capture_card_binding
  capture_card_binding-Advances coding config env receiver destination message_id base_card w =
      elim (Outcome-cases captured.0) [
        | inl (err, e) ↦ rw (e, capture_card_binding) through
        | inr (st, e) ↦ rw (e, capture_card_binding) through
      ]
    where
      Outcome-cases :
          {A : Type 0}
          → (o : Outcome A) → ((err : CardError) × (o ≡ refused err)) ⊎ ((a : A) × (o ≡ done a))
      Outcome-cases (done a) = inr (a, refl)
      Outcome-cases (refused err) = inl (err, refl)

      fresh : CardState
      fresh = new_card_state config receiver destination message_id base_card env.now

      captured : Outcome CardState × Bucket CardFile
      captured = locked env.lock (capture_locked coding env fresh w.files) w.files

      through : Advances coding w.files w.calls captured.1 w.calls
      through =
          locked-Advances coding w.files w.calls env.lock (capture_locked coding env fresh w.files)
            (capture_locked-Advances coding env fresh w.files w.calls
              (load coding message_id w.files) refl)

  pub apply-Advances :
      (coding : Coding) (config : WriterConfig) (env : WriterEnv) (message_id key : Str)
      (c : Component) (w : Writer)
      → let w' = (apply_persistent_annotation coding config env message_id key c w).1 in
        Advances coding w.files w.calls w'.files w'.calls
  unfolding apply_persistent_annotation
  apply-Advances coding config env message_id key c w =
      bound_to (get_card_binding coding config message_id w) refl
    where
      bound_to :
          (o : Outcome (Binding × Bucket Binding))
          → get_card_binding coding config message_id w ≡ o
          → let w' = (apply_persistent_annotation coding config env message_id key c w).1 in
            Advances coding w.files w.calls w'.files w'.calls
      bound_to (refused err) e =
          rw (e, apply_persistent_annotation) (Advances-same coding w.files w.calls)
      bound_to (done (b, cards)) e =
          elim (Option-cases (
            resolve_card_patcher env.resolver
              (card_patcher_key b.state.receiver b.state.destination) b.has_patcher w.patchers)) [
                | inl absent ↦
                    rw (e, absent, apply_persistent_annotation)
                      (Advances-same coding w.files w.calls)
                | inr (patchers, found) ↦
                    rw (e, found, apply_persistent_annotation)
                      (under_lock-Advances coding config env b message_id key c w.files w.calls
                        env.lock refl)
              ]
