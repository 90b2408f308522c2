-- ===== src/Card/Repeat.antt =====
-- After a success the binding holds the state that is on disk.
use notification_manager.Base.{
  ◌≡◌, inl, inr, refl, ap, subst, ◌∙◌, arith, true, Option, none, some, Str, Option-cases, leb,
  length, if◌then◌else◌,
}
use notification_manager.Bolt.{Bolt}
use notification_manager.Bolt.Laws.{get-put_self}
use notification_manager.Card.Component.{Float64, Component}
use notification_manager.Card.State.{Coding, hash_component}
use notification_manager.Card.Store.{Outcome, done, refused, CardState, load}
use notification_manager.Card.Writer.{
  WriterConfig, WriterEnv, Binding, Writer, get_card_binding, remember, evict_oldest_card,
  resolve_card_patcher, card_patcher_key,
}
use notification_manager.Card.Requests.{
  Locked, under_lock, apply_persistent_annotation, synchronise,
}
use notification_manager.Card.Again.{Recorded, Succeeds}
use notification_manager.Card.Successes.{under_lock-Succeeds}

module _ ⦃F : Float64⦄ ⦃B : Bolt⦄ where
  open B use {Bucket, get, put, entries}

  remember-get :
      (config : WriterConfig) (message_id : Str) (b : Binding) (cards : Bucket Binding)
      → get cards message_id ≡ none
      → get (remember config message_id b cards) message_id ≡ some b
  unfolding remember
  remember-get config message_id b cards absent =
      rw (absent, remember)
        (get-put_self
          (if leb config.max_cards (length (entries cards)) then evict_oldest_card cards else cards)
          message_id b)

  -- The binding that is found is kept.
  get_card_binding-get :
      (coding : Coding) (config : WriterConfig) (message_id : Str) (w : Writer) (b : Binding)
      (cards : Bucket Binding)
      → get_card_binding coding config message_id w ≡ done (b, cards)
      → get cards message_id ≡ some b
  unfolding get_card_binding
  get_card_binding-get coding config message_id w b cards h =
      elim (Option-cases (get w.cards message_id)) [
        | inr (old, e) ↦
            let facts : (old ≡ b) × (w.cards ≡ cards) = (ground arith, ground arith) in
            subst (λ c. get c message_id ≡ some b) facts.1 (e ∙ ap some facts.0)
        | inl e ↦ from_file e (load coding message_id w.files) refl
      ]
    where
      from_file :
          get w.cards message_id ≡ none
          → (o : Outcome CardState) → load coding message_id w.files ≡ o
          → get cards message_id ≡ some b
      from_file e (refused err) l = absurd (ground arith)
      from_file e (done st) l =
          let facts : (remember config message_id b w.cards ≡ cards) = ground arith in
          subst (λ c. get c message_id ≡ some b) facts (remember-get config message_id b w.cards e)

  synchronise-get :
      (synced : Option CardState) (final : CardState) (message_id : Str) (cards : Bucket Binding)
      (b : Binding)
      → synced ≡ some final
      → get cards message_id ≡ some b
      → get (synchronise synced message_id cards) message_id
        ≡ some (record { state = final; has_patcher = true })
  synchronise-get synced final message_id cards b e there = rw e (
      rw (there, synchronise)
        (get-put_self cards message_id (record { state = final; has_patcher = true })))

  -- After a success the binding, with a patcher, holds the state that is on disk.
  pub record Bound (coding : Coding) (config : WriterConfig) (message_id key h id : Str)
      (w : Writer) : Type 0 where
    pub final : CardState
    pub cached : get w.cards message_id ≡ some (record { state = final; has_patcher = true })
    pub recorded : Recorded coding config message_id key h id w.files final

  pub apply-Bound :
      (coding : Coding) (config : WriterConfig) (env : WriterEnv) (message_id key : Str)
      (c : Component) (w w' : Writer) (id : Str)
      → apply_persistent_annotation coding config env message_id key c w ≡ (done id, w')
      → (h : Str) × (hash_component coding c ≡ some h) × Bound coding config message_id key h id w'
  unfolding apply_persistent_annotation
  apply-Bound coding config env message_id key c w w' id ok =
      bound_to (get_card_binding coding config message_id w) refl
    where
      bound_to :
          (o : Outcome (Binding × Bucket Binding))
          → get_card_binding coding config message_id w ≡ o
          → (h : Str) × (hash_component coding c ≡ some h)
            × Bound coding config message_id key h id w'
      bound_to (refused err) e = absurd (ground arith)
      bound_to (done (b, cards)) e =
          elim (Option-cases (
            resolve_card_patcher env.resolver
              (card_patcher_key b.state.receiver b.state.destination) b.has_patcher w.patchers)) [
                | inl absent ↦ absurd (ground arith)
                | inr (patchers, found) ↦
                    let l : Locked =
                      under_lock coding config env b message_id key c w.files w.calls in
                    let answered : l.answer ≡ done id = ground arith in
                    let stored : l.files ≡ w'.files = ground arith in
                    let shared : synchronise l.synced message_id cards ≡ w'.cards = ground arith in
                    let s : Succeeds coding config message_id key c id l.files l.synced =
                      under_lock-Succeeds coding config env b message_id key c w.files w.calls id
                        env.lock (load coding message_id w.files) refl refl answered in
                    let there : get cards message_id ≡ some b =
                      get_card_binding-get coding config message_id w b cards e in
                    (
                      s.payload_hash,
                      s.hashes,
                      record {
                        final = s.final;
                        cached =
                            subst
                              (λ x.
                                get x message_id
                                ≡ some (record { state = s.final; has_patcher = true }))
                              shared
                              (synchronise-get l.synced s.final message_id cards b s.syncs there);
                        recorded =
                            subst
                              (λ x.
                                Recorded coding config message_id key s.payload_hash id x s.final)
                              stored s.recorded;
                      },
                    )
              ]

  pub cached_lem :
      (coding : Coding) (config : WriterConfig) (message_id : Str) (w : Writer) (b : Binding)
      → get w.cards message_id ≡ some b
      → get_card_binding coding config message_id w ≡ done (b, w.cards)
  unfolding get_card_binding
  cached_lem coding config message_id w b e = rw (e, get_card_binding) refl
