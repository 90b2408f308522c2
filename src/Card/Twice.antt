-- ===== src/Card/Twice.antt =====
-- A request that is sent again after it was applied.
use notification_manager.Base.{
  ℕ, ◌≡◌, inl, inr, refl, subst, arith, Bool, true, false, none, some, List, Str, Bool-cases,
  str_eq, ◌||◌, not, if◌then◌else◌,
}
use notification_manager.Bolt.{Bolt}
use notification_manager.Card.Component.{Float64, Component}
use notification_manager.Card.State.{Coding, hash_component}
use notification_manager.Card.Store.{Outcome, done, refused, CardState, CardFile, revision_conflict}
use notification_manager.Card.Writer.{
  WriterConfig, WriterEnv, acquired, PatchCall, Writer, get_card_binding,
}
use notification_manager.Card.Apply.{repeats, rejects, admit_request, is_unknown}
use notification_manager.Card.Requests.{
  apply_admitted, apply_state, apply_loaded, under_lock, apply_persistent_annotation,
}
use notification_manager.Card.Again.{Known, Recorded}
use notification_manager.Card.Repeat.{apply-Bound, cached_lem}

module _ ⦃F : Float64⦄ ⦃B : Bolt⦄ where
  open B use {Bucket, get, put, entries}

  -- The answer to a request that has the key of an applied one.
  abbrev pub repeated_answer : Str → Str → Str → Outcome Str
  repeated_answer h h' id = if str_eq h h' then done id else refused revision_conflict

  admit_request_seen :
      (coding : Coding) (st : CardState) (key : Str) (c : Component) (now : ℕ) (h h' id : Str)
      → Known st key h id
      → hash_component coding c ≡ some h'
      → admit_request coding st key c now
        ≡ (if str_eq h h' then repeats id else rejects revision_conflict)
  unfolding admit_request
  admit_request_seen coding st key c now h h' id (a, there, same_hash, same_id) hashes =
      rw (hashes, there, same_hash, same_id, admit_request) refl

  apply_state_seen :
      (coding : Coding) (config : WriterConfig) (env : WriterEnv) (message_id key : Str)
      (c : Component) (files : Bucket CardFile) (calls : List PatchCall) (st : CardState)
      (h h' id : Str)
      → Recorded coding config message_id key h id files st
      → hash_component coding c ≡ some h'
      → let l = apply_state coding env st key c files calls in
        (l.answer ≡ repeated_answer h h' id) × (l.files ≡ files) × (l.calls ≡ calls)
  unfolding apply_state apply_admitted
  apply_state_seen coding config env message_id key c files calls st h h' id r hashes =
      elim (Bool-cases (str_eq h h')) [
        | inl same ↦
            (ground (arith, known same), ground (arith, known same), ground (arith, known same))
        | inr apart ↦
            (ground (arith, known apart), ground (arith, known apart), ground (arith, known apart))
      ]
    where
      known :
          {t : Bool}
          → str_eq h h' ≡ t
          → (admit_request coding st key c env.now
              ≡ (if t then repeats id else rejects revision_conflict))
            × (st.pending_patch ≡ none)
            × (is_unknown st.patch_state ≡ false)
      known {t} e = (
        subst
            (λ (u : Bool).
              admit_request coding st key c env.now
              ≡ (if u then repeats id else rejects revision_conflict))
            e (admit_request_seen coding st key c env.now h h' id r.known hashes),
        r.settled_patch,
        r.certain,
      )

  under_lock_seen :
      (coding : Coding) (config : WriterConfig) (env : WriterEnv) (message_id key : Str)
      (c : Component) (files : Bucket CardFile) (calls : List PatchCall) (st : CardState)
      (h h' id : Str)
      → env.lock ≡ acquired
      → Recorded coding config message_id key h id files st
      → hash_component coding c ≡ some h'
      → let l =
          under_lock coding config env
            (record { state = st; has_patcher = true })
            message_id
            key
            c
            files
            calls in
        (l.answer ≡ repeated_answer h h' id) × (l.files ≡ files) × (l.calls ≡ calls)
  unfolding under_lock apply_loaded
  under_lock_seen coding config env message_id key c files calls st h h' id free r hashes =
      rw (free, under_lock)
        (rw (r.loads, apply_loaded)
          (rw (own)
            (apply_state_seen coding config env message_id key c files calls st h h' id r hashes)))
    where
      own :
          (not (str_eq st.sender_app config.sender_app)
            || (not (str_eq st.receiver st.receiver) || not (str_eq st.destination st.destination)))
          ≡ false
      own = ground (arith, r.own)

  -- After an annotation was applied, a request with the same key under a free lock is answered with
  -- the same identity if its content has the same hash, and is a conflict if it has not; it sends no
  -- patch and changes no file.
  pub apply_twice :
      (coding : Coding) (config : WriterConfig) (env env' : WriterEnv) (message_id key : Str)
      (c c' : Component) (h h' : Str) (w w' : Writer) (id : Str)
      → hash_component coding c ≡ some h
      → hash_component coding c' ≡ some h'
      → env'.lock ≡ acquired
      → apply_persistent_annotation coding config env message_id key c w ≡ (done id, w')
      → let again = apply_persistent_annotation coding config env' message_id key c' w' in
        (again.0 ≡ repeated_answer h h' id)
        × (again.1.files ≡ w'.files)
        × (again.1.calls ≡ w'.calls)
  unfolding apply_persistent_annotation
  apply_twice coding config env env' message_id key c c' h h' w w' id hashes hashes' free ok =
      let (h0, hashes0, b) = apply-Bound coding config env message_id key c w w' id ok in
      let same : h0 ≡ h = ground (arith, hashes0, hashes) in
      rw (cached_binding b.final b.cached, apply_persistent_annotation)
        (under_lock_seen coding config env' message_id key c' w'.files w'.calls b.final h h' id free
          (subst (λ x. Recorded coding config message_id key x id w'.files b.final) same b.recorded)
          hashes')
    where
      cached_binding :
          (st : CardState)
          → get w'.cards message_id ≡ some (record { state = st; has_patcher = true })
          → get_card_binding coding config message_id w'
            ≡ done (record { state = st; has_patcher = true }, w'.cards)
      cached_binding st e =
          cached_lem coding config message_id w' (record { state = st; has_patcher = true }) e
