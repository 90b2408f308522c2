-- ===== src/Card/Applies.antt =====
-- What a call does that has the next revision, a new key, and a platform and disk in order.
use notification_manager.Base.{
  ℕ, ◌+◌, ◌≤◌, ◌≡◌, refl, arith, true, false, none, some, List, Str, str_eq, length, ◌&&◌, ◌||◌,
  not,
}
use notification_manager.Bolt.{Bolt}
use notification_manager.Bolt.Laws.{get-put_self}
use notification_manager.Outbox.Envelope.{is_hex}
use notification_manager.Outbox.Disk.{completes}
use notification_manager.Card.Component.{Float64, Component, is_none}
use notification_manager.Card.Validation.{validate}
use notification_manager.Card.State.{
  Card, Coding, Intent, PatchState, stable_component_key, request_id_of, render_card, valid_key,
}
use notification_manager.Card.Store.{
  done, CardState, CardFile, touched, save, load, validate_card_state, valid_patch_state,
}
use notification_manager.Card.Writer.{WriterConfig, WriterEnv, acquired, patched, PatchCall, Writer}
use notification_manager.Card.Apply.{
  starts, annotated, new_intent, prepare, admit_request, is_in_flight, is_unknown,
}
use notification_manager.Card.Requests.{
  intended, annotated_state, send_patch, apply_admitted, apply_state, apply_loaded, under_lock,
  apply_persistent_annotation,
}
use notification_manager.Card.Levels.{load-saved}
use notification_manager.Card.Again.{load-save}
use notification_manager.Card.Repeat.{cached_lem}
use notification_manager.Card.Confirms.{validate-Checked, intended-valid, annotated-valid}

module _ ⦃F : Float64⦄ ⦃B : Bolt⦄ where
  open B use {Bucket, get, put, entries}

  save-valid :
      (coding : Coding) (now : ℕ) (st : CardState) (files : Bucket CardFile)
      → validate_card_state coding (touched now st) ≡ true
      → (save coding now completes st files).0 ≡ true
  unfolding save
  save-valid coding now st files valid = rw valid refl

  admit_next :
      (coding : Coding) (st : CardState) (key : Str) (c : Component) (now : ℕ)
      (text rendered_text : Str) (rendered : Card)
      → coding.marshal_component c ≡ some text
      → render_card coding st.base_card (entries (annotated coding st c)) ≡ some rendered
      → coding.marshal_card rendered ≡ some rendered_text
      → get st.applied_keys key ≡ none
      → c.expected_base_revision ≡ st.base_revision
      → c.annotation_revision ≡ st.annotation_revision + 1
      → admit_request coding st key c now
        ≡ starts (
            new_intent coding st key c
              (coding.digest text)
              rendered
              (coding.digest rendered_text)
              now)
  unfolding admit_request prepare
  admit_next coding st key c now text rendered_text rendered hashes renders rendered_hashes absent
        based next =
      rw (hashes, absent, renders, admit_request, prepare)
        (rw rendered_hashes (ground (arith, based, next)))

  send_next :
      (coding : Coding) (env : WriterEnv) (st : CardState) (p : Intent) (files : Bucket CardFile)
      (calls : List PatchCall)
      → env.patch ≡ patched
      → env.first_write ≡ completes
      → env.last_write ≡ completes
      → validate_card_state coding (touched env.now (intended st p)) ≡ true
      → validate_card_state coding (touched env.now (annotated_state coding st p)) ≡ true
      → ((send_patch coding env st p files calls).answer ≡ done p.request_id)
        × (load coding st.message_id (send_patch coding env st p files calls).files
            ≡ done (touched env.now (annotated_state coding st p)))
  unfolding send_patch
  send_next coding env st p files calls applies first last valid valid' =
      rw (applies, first, last, save-valid coding env.now (intended st p) files valid)
        (
          rw
              (save-valid coding env.now (annotated_state coding st p)
                (save coding env.now completes (intended st p) files).1 valid')
              refl,
          load-save coding env.now completes (annotated_state coding st p)
              (save coding env.now completes (intended st p) files).1
              (save-valid coding env.now (annotated_state coding st p)
                (save coding env.now completes (intended st p) files).1 valid'),
        )

  certain_of :
      (st : CardState)
      → valid_patch_state st ≡ true
      → st.pending_patch ≡ none
      → is_unknown st.patch_state ≡ false
  unfolding valid_patch_state
  certain_of st h e = by_state st.patch_state refl
    where
      by_state : (s : PatchState) → st.patch_state ≡ s → is_unknown st.patch_state ≡ false
      by_state s same = ground arith

  -- A valid annotation with the next revision, the base revision of the card and a new key of a proper
  -- length is applied to a card that has a binding, the sender app of the configuration, no pending
  -- patch and a time of creation that is not after the clock, if the lock is free, the platform
  -- applies the patch, the disk keeps what is written, and the annotation and the card can be encoded
  -- and rendered: the answer is the identity of the request, and the stored state has the annotation,
  -- the next revision and the key, and no pending patch. Hashes have 64 hexadecimal digits.
  pub apply_next :
      (coding : Coding) (config : WriterConfig) (env : WriterEnv) (st : CardState) (key : Str)
      (c : Component) (text rendered_text : Str) (rendered : Card) (w : Writer)
      → ((s : Str) → (length (coding.digest s) ≡ 64) × (is_hex (coding.digest s) ≡ true))
      → coding.marshal_component c ≡ some text
      → render_card coding st.base_card (entries (annotated coding st c)) ≡ some rendered
      → coding.marshal_card rendered ≡ some rendered_text
      → env.lock ≡ acquired
      → env.patch ≡ patched
      → env.first_write ≡ completes
      → env.last_write ≡ completes
      → st.created_at ≤ env.now
      → get w.cards st.message_id ≡ some (record { state = st; has_patcher = true })
      → load coding st.message_id w.files ≡ done st
      → st.sender_app ≡ config.sender_app
      → st.pending_patch ≡ none
      → get st.applied_keys key ≡ none
      → valid_key key ≡ true
      → validate c ≡ true
      → c.expected_base_revision ≡ st.base_revision
      → c.annotation_revision ≡ st.annotation_revision + 1
      → let r = apply_persistent_annotation coding config env st.message_id key c w in
        let id = request_id_of coding st.message_id key in
        (r.0 ≡ done id)
        × (st' : CardState) × (load coding st.message_id r.1.files ≡ done st')
        × (get st'.annotations (stable_component_key coding c.member_event_ids) ≡ some c)
        × (st'.annotation_revision ≡ st.annotation_revision + 1)
        × (get st'.applied_keys key
            ≡ some (record { payload_hash = coding.digest text; request_id = id }))
        × (st'.pending_patch ≡ none)
  unfolding apply_persistent_annotation under_lock apply_loaded apply_state apply_admitted
  apply_next coding config env st key c text rendered_text rendered w hex hashes renders
        rendered_hashes free applies first last later cached there own quiet absent proper valid
        based next =
      rw
        (
          cached_lem coding config st.message_id w (record { state = st; has_patcher = true })
              cached,
          apply_persistent_annotation,
        )
        (rw (free, under_lock)
          (rw (there, own_card, apply_loaded)
            (rw (not_in_flight, not_blocked, apply_state)
              (rw admitted (
                sent.0,
                touched env.now (annotated_state coding st p),
                sent.1,
                get-put_self st.annotations (stable_component_key coding c.member_event_ids) c,
                next,
                get-put_self st.applied_keys key (record {
                  payload_hash = coding.digest text;
                  request_id = request_id_of coding st.message_id key;
                }),
                refl,
              )))))
    where
      p : Intent
      p =
          new_intent coding st key c (coding.digest text) rendered (coding.digest rendered_text)
            env.now

      checked : validate_card_state coding st ≡ true
      checked = (load-saved coding st.message_id w.files st there).3

      sent :
          ((send_patch coding env st p w.files w.calls).answer ≡ done p.request_id)
          × (load coding st.message_id (send_patch coding env st p w.files w.calls).files
              ≡ done (touched env.now (annotated_state coding st p)))
      sent =
          send_next coding env st p w.files w.calls applies first last
            (intended-valid coding st key c text rendered_text rendered env.now hex hashes renders
              rendered_hashes checked valid based next proper later)
            (annotated-valid coding st key c text rendered_text rendered env.now hex hashes renders
              rendered_hashes checked valid based next proper later)

      own_card :
          (not (str_eq st.sender_app config.sender_app)
            || (not (str_eq st.receiver st.receiver) || not (str_eq st.destination st.destination)))
          ≡ false
      own_card = ground (arith, own)

      not_in_flight : (is_in_flight st.patch_state && not (is_none st.pending_patch)) ≡ false
      not_in_flight = ground (arith, quiet)

      not_blocked : (not (is_none st.pending_patch) || is_unknown st.patch_state) ≡ false
      not_blocked =
          ground (arith, quiet, certain_of st (validate-Checked coding st checked).patch quiet)

      admitted : admit_request coding st key c env.now ≡ starts p
      admitted =
          admit_next coding st key c env.now text rendered_text rendered hashes renders
            rendered_hashes absent based next
