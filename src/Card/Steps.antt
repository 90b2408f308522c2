-- ===== src/Card/Steps.antt =====
-- Every application of an annotation advances the card.
use notification_manager.Base.{
  ◌≡◌, inl, inr, refl, ap, ◌∙◌, arith, Bool, none, List, Str, str_eq, Bool-cases, ◌&&◌, ◌||◌, not,
}
use notification_manager.Bolt.{Bolt}
use notification_manager.Card.Component.{Float64, Component, is_none}
use notification_manager.Card.State.{Coding}
use notification_manager.Card.Store.{
  Outcome, done, refused, CardState, CardFile, card_file_name, load,
}
use notification_manager.Card.Writer.{
  WriterConfig, WriterEnv, Lock, acquired, busy, unavailable, PatchCall, Binding,
}
use notification_manager.Card.Apply.{
  Admission, repeats, rejects, starts, admit_request, is_in_flight, is_unknown,
}
use notification_manager.Card.Requests.{
  interrupted_state, apply_admitted, apply_state, apply_loaded, under_lock,
}
use notification_manager.Card.Levels.{bound, level, load-saved}
use notification_manager.Card.Advances.{
  Advances, Advances-same, save-Advances, admit_request-starts, send_patch-Advances,
}

module _ ⦃F : Float64⦄ ⦃B : Bolt⦄ where
  open B use {Bucket, get, put, entries}

  apply_admitted-Advances :
      (coding : Coding) (env : WriterEnv) (st : CardState) (key : Str) (c : Component)
      (files : Bucket CardFile) (calls : List PatchCall) (a : Admission)
      → level coding files (card_file_name coding st.message_id) ≡ st.annotation_revision
      → admit_request coding st key c env.now ≡ a
      → Advances coding files calls
          (apply_admitted coding env st a files calls).files
          (apply_admitted coding env st a files calls).calls
  unfolding apply_admitted
  apply_admitted-Advances coding env st key c files calls (repeats id) at_level e =
      Advances-same coding files calls
  apply_admitted-Advances coding env st key c files calls (rejects err) at_level e =
      Advances-same coding files calls
  apply_admitted-Advances coding env st key c files calls (starts p) at_level e =
      let (same, revision, next) = admit_request-starts coding st key c env.now p e in
      send_patch-Advances coding env st p files calls at_level revision
        (ap (λ (x : Component). x.annotation_revision) same ∙ next)

  apply_state-Advances :
      (coding : Coding) (env : WriterEnv) (st : CardState) (key : Str) (c : Component)
      (files : Bucket CardFile) (calls : List PatchCall)
      → level coding files (card_file_name coding st.message_id) ≡ bound st
      → Advances coding files calls
          (apply_state coding env st key c files calls).files
          (apply_state coding env st key c files calls).calls
  unfolding apply_state
  apply_state-Advances coding env st key c files calls at_level =
      elim (Bool-cases (is_in_flight st.patch_state && not (is_none st.pending_patch))) [
        | inl in_flight ↦ rw in_flight (
            save-Advances coding env.now env.first_write (interrupted_state st) files calls
              (omega (arith, at_level)))
        | inr idle ↦
            elim (Bool-cases (not (is_none st.pending_patch) || is_unknown st.patch_state)) [
              | inl blocked ↦ rw (idle, blocked) (Advances-same coding files calls)
              | inr open_yet ↦
                  rw (idle, open_yet)
                    (apply_admitted-Advances coding env st key c files calls
                      (admit_request coding st key c env.now)
                      (at_level ∙ no_patch st (ground arith)) refl)
            ]
      ]
    where
      no_patch : (s : CardState) → s.pending_patch ≡ none → bound s ≡ s.annotation_revision
      no_patch s e = rw e refl

  apply_loaded-Advances :
      (coding : Coding) (config : WriterConfig) (env : WriterEnv) (b : Binding)
      (message_id key : Str) (c : Component) (files : Bucket CardFile) (calls : List PatchCall)
      (o : Outcome CardState)
      → load coding message_id files ≡ o
      → Advances coding files calls
          (apply_loaded coding config env b message_id key c files calls).files
          (apply_loaded coding config env b message_id key c files calls).calls
  unfolding apply_loaded
  apply_loaded-Advances coding config env b message_id key c files calls (refused err) e =
      rw (e, apply_loaded) (Advances-same coding files calls)
  apply_loaded-Advances coding config env b message_id key c files calls (done st) e =
      let (at_level, is_m, _, _) = load-saved coding message_id files st e in
      let foreign_card : Bool =
        not (str_eq st.sender_app config.sender_app)
        || (not (str_eq st.receiver b.state.receiver)
            || not (str_eq st.destination b.state.destination)) in
      elim (Bool-cases foreign_card) [
        | inl another ↦ rw (e, another, apply_loaded) (Advances-same coding files calls)
        | inr own ↦
            rw (e, own, apply_loaded)
              (apply_state-Advances coding env st key c files calls
                (ap (λ m. level coding files (card_file_name coding m)) is_m ∙ at_level))
      ]

  pub under_lock-Advances :
      (coding : Coding) (config : WriterConfig) (env : WriterEnv) (b : Binding)
      (message_id key : Str) (c : Component) (files : Bucket CardFile) (calls : List PatchCall)
      (lock : Lock)
      → env.lock ≡ lock
      → Advances coding files calls
          (under_lock coding config env b message_id key c files calls).files
          (under_lock coding config env b message_id key c files calls).calls
  unfolding under_lock
  under_lock-Advances coding config env b message_id key c files calls acquired e = rw e (
      apply_loaded-Advances coding config env b message_id key c files calls
        (load coding message_id files) refl)
  under_lock-Advances coding config env b message_id key c files calls busy e =
      rw e (Advances-same coding files calls)
  under_lock-Advances coding config env b message_id key c files calls unavailable e =
      rw e (Advances-same coding files calls)
