-- ===== src/Card/Successes.antt =====
-- A call that succeeds leaves the request among the applied ones.
use notification_manager.Base.{
  ◌≡◌, inl, inr, refl, ap, subst, ◌∙◌, arith, Bool, false, none, List, Str, Bool-cases, str_eq,
  ◌&&◌, ◌||◌, not,
}
use notification_manager.Bolt.{Bolt}
use notification_manager.Card.Component.{Float64, Component, is_none}
use notification_manager.Card.State.{Coding}
use notification_manager.Card.Store.{Outcome, done, refused, CardState, CardFile, load}
use notification_manager.Card.Writer.{
  WriterConfig, WriterEnv, Lock, acquired, busy, unavailable, PatchCall, Binding,
}
use notification_manager.Card.Apply.{
  Admission, repeats, rejects, starts, admit_request, is_in_flight, is_unknown,
}
use notification_manager.Card.Requests.{apply_admitted, apply_state, apply_loaded, under_lock}
use notification_manager.Card.Levels.{load-saved}
use notification_manager.Card.Again.{admit_request-repeats, Known, Succeeds, send_patch-Succeeds}

module _ ⦃F : Float64⦄ ⦃B : Bolt⦄ where
  open B use {Bucket, get, put, entries}

  apply_admitted-Succeeds :
      (coding : Coding) (config : WriterConfig) (env : WriterEnv) (st : CardState) (key : Str)
      (c : Component) (files : Bucket CardFile) (calls : List PatchCall) (id : Str) (a : Admission)
      → load coding st.message_id files ≡ done st
      → st.sender_app ≡ config.sender_app
      → st.pending_patch ≡ none
      → is_unknown st.patch_state ≡ false
      → admit_request coding st key c env.now ≡ a
      → (apply_admitted coding env st a files calls).answer ≡ done id
      → Succeeds coding config st.message_id key c id
          (apply_admitted coding env st a files calls).files
          (apply_admitted coding env st a files calls).synced
  unfolding apply_admitted
  apply_admitted-Succeeds coding config env st key c files calls id (repeats id') there own quiet
        certain e ok =
      let same : id' ≡ id = ground arith in
      let (h, hashes, known) = admit_request-repeats coding st key c env.now id' e in
      record {
        payload_hash = h;
        hashes = hashes;
        final = st;
        syncs = refl;
        recorded = record {
          loads = there;
          own = own;
          settled_patch = quiet;
          certain = certain;
          known = subst (λ i. Known st key h i) same known;
        };
      }
  apply_admitted-Succeeds coding config env st key c files calls id (rejects err) there own quiet
        certain e ok =
      absurd (ground arith)
  apply_admitted-Succeeds coding config env st key c files calls id (starts p) there own quiet
        certain e ok =
      send_patch-Succeeds coding config env st key c p files calls id own e ok

  apply_state-Succeeds :
      (coding : Coding) (config : WriterConfig) (env : WriterEnv) (st : CardState) (key : Str)
      (c : Component) (files : Bucket CardFile) (calls : List PatchCall) (id : Str)
      → load coding st.message_id files ≡ done st
      → st.sender_app ≡ config.sender_app
      → (apply_state coding env st key c files calls).answer ≡ done id
      → Succeeds coding config st.message_id key c id
          (apply_state coding env st key c files calls).files
          (apply_state coding env st key c files calls).synced
  unfolding apply_state
  apply_state-Succeeds coding config env st key c files calls id there own ok =
      elim (Bool-cases (is_in_flight st.patch_state && not (is_none st.pending_patch))) [
        | inl in_flight ↦ absurd (ground arith)
        | inr idle ↦
            elim (Bool-cases (not (is_none st.pending_patch) || is_unknown st.patch_state)) [
              | inl blocked ↦ absurd (ground arith)
              | inr open_yet ↦
                  rw (idle, open_yet)
                    (apply_admitted-Succeeds coding config env st key c files calls id
                      (admit_request coding st key c env.now) there own (ground arith)
                      (ground arith) refl (ground arith))
            ]
      ]

  pub under_lock-Succeeds :
      (coding : Coding) (config : WriterConfig) (env : WriterEnv) (b : Binding)
      (message_id key : Str) (c : Component) (files : Bucket CardFile) (calls : List PatchCall)
      (id : Str) (lock : Lock) (o : Outcome CardState)
      → env.lock ≡ lock
      → load coding message_id files ≡ o
      → (under_lock coding config env b message_id key c files calls).answer ≡ done id
      → Succeeds coding config message_id key c id
          (under_lock coding config env b message_id key c files calls).files
          (under_lock coding config env b message_id key c files calls).synced
  unfolding under_lock apply_loaded
  under_lock-Succeeds coding config env b message_id key c files calls id busy o e there ok =
      absurd (ground arith)
  under_lock-Succeeds coding config env b message_id key c files calls id unavailable o e there ok =
      absurd (ground arith)
  under_lock-Succeeds coding config env b message_id key c files calls id acquired (refused err) e
        there ok =
      absurd (ground arith)
  under_lock-Succeeds coding config env b message_id key c files calls id acquired (done st) e there
        ok =
      let (_, is_m, _, _) = load-saved coding message_id files st there in
      let another : Bool =
        not (str_eq st.sender_app config.sender_app)
        || (not (str_eq st.receiver b.state.receiver)
            || not (str_eq st.destination b.state.destination)) in
      elim (Bool-cases another) [
        | inl foreign_card ↦ absurd (ground arith)
        | inr own ↦
            rw (e, under_lock)
              (rw (there, own, apply_loaded)
                (subst
                  (λ m.
                    Succeeds coding config m key c id
                      (apply_state coding env st key c files calls).files
                      (apply_state coding env st key c files calls).synced)
                  is_m
                  (apply_state-Succeeds coding config env st key c files calls id
                    (ap (λ m. load coding m files) is_m ∙ there) (ground arith) (ground arith))))
      ]
