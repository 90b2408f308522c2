-- ===== src/Card/Again.antt =====
-- An annotation that was applied is applied once.
use notification_manager.Base.{
  ℕ, ◌≡◌, inl, inr, refl, subst, arith, Bool, true, false, Option, none, some, List, Str,
  Option-cases, Bool-cases,
}
use notification_manager.Bolt.{Bolt}
use notification_manager.Bolt.Laws.{get-put_self}
use notification_manager.Outbox.Disk.{Ending}
use notification_manager.Card.Component.{Float64, Component}
use notification_manager.Card.State.{
  Applied, Coding, Intent, hash_component, hash_card, render_card,
}
use notification_manager.Card.Store.{
  done, CardState, CardFile, saved, card_file_name, touched, save, load,
}
use notification_manager.Card.Writer.{
  WriterConfig, WriterEnv, Patch, patched, patch_fails, PatchCall,
}
use notification_manager.Card.Apply.{repeats, starts, prepare, admit_request, annotated, is_unknown}
use notification_manager.Card.Requests.{intended, settled, annotated_state, answer_of, send_patch}
use notification_manager.Card.Levels.{save_cases}

module _ ⦃F : Float64⦄ ⦃B : Bolt⦄ where
  open B use {Bucket, get, put, entries}

  -- What was saved is loaded.
  pub load-save :
      (coding : Coding) (now : ℕ) (ending : Ending) (st : CardState) (files : Bucket CardFile)
      → (save coding now ending st files).0 ≡ true
      → load coding st.message_id (save coding now ending st files).1 ≡ done (touched now st)
  unfolding load
  load-save coding now ending st files ok = elim (save_cases coding now ending st files) [
    | inl (lost, _) ↦ cc
    | inr (valid, written) ↦
        rw
          (
            written,
            get-put_self files (card_file_name coding st.message_id) (saved (touched now st)),
            valid,
          )
          (ground arith)
  ]

  -- The request stands in the applied keys.
  abbrev pub Known : CardState → Str → Str → Str → Type 0
  Known st key h id =
      (a : Applied) × (get st.applied_keys key ≡ some a)
      × (a.payload_hash ≡ h)
      × (a.request_id ≡ id)

  pub admit_request-repeats :
      (coding : Coding) (st : CardState) (key : Str) (c : Component) (now : ℕ) (id : Str)
      → admit_request coding st key c now ≡ repeats id
      → (h : Str) × (hash_component coding c ≡ some h) × Known st key h id
  unfolding admit_request prepare
  admit_request-repeats coding st key c now id k = elim (Option-cases (hash_component coding c)) [
    | inl e ↦ absurd (ground arith)
    | inr (h, e) ↦ elim (Option-cases (get st.applied_keys key)) [
      | inr (a, e') ↦ (h, e, (a, e', ground arith, ground arith))
      | inl e' ↦
          elim (Option-cases (render_card coding st.base_card (entries (annotated coding st c)))) [
            | inl e'' ↦ absurd (ground arith)
            | inr (rendered, e'') ↦ elim (Option-cases (hash_card coding rendered)) [
              | inl e3 ↦ absurd (ground arith)
              | inr (rendered_hash, e3) ↦ absurd (ground arith)
            ]
          ]
    ]
  ]

  admit_request-intent :
      (coding : Coding) (st : CardState) (key : Str) (c : Component) (now : ℕ) (p : Intent)
      → admit_request coding st key c now ≡ starts p
      → (h : Str) × (hash_component coding c ≡ some h)
        × (p.payload_hash ≡ h)
        × (p.idempotency_key ≡ key)
  unfolding admit_request prepare
  admit_request-intent coding st key c now p k = elim (Option-cases (hash_component coding c)) [
    | inl e ↦ absurd (ground arith)
    | inr (h, e) ↦ elim (Option-cases (get st.applied_keys key)) [
      | inr (a, e') ↦ absurd (ground arith)
      | inl e' ↦
          elim (Option-cases (render_card coding st.base_card (entries (annotated coding st c)))) [
            | inl e'' ↦ absurd (ground arith)
            | inr (rendered, e'') ↦ elim (Option-cases (hash_card coding rendered)) [
              | inl e3 ↦ absurd (ground arith)
              | inr (rendered_hash, e3) ↦ (h, e, ground arith, ground arith)
            ]
          ]
    ]
  ]

  -- The card is on disk with the request among the applied ones, and no patch is open.
  pub record Recorded (coding : Coding) (config : WriterConfig) (message_id key h id : Str)
      (files : Bucket CardFile) (st : CardState) : Type 0 where
    pub loads : load coding message_id files ≡ done st
    pub own : st.sender_app ≡ config.sender_app
    pub settled_patch : st.pending_patch ≡ none
    pub certain : is_unknown st.patch_state ≡ false
    pub known : Known st key h id

  pub record Succeeds (coding : Coding) (config : WriterConfig) (message_id key : Str)
      (c : Component) (id : Str) (files : Bucket CardFile) (synced : Option CardState)
      : Type 0 where
    pub payload_hash : Str
    pub hashes : hash_component coding c ≡ some payload_hash
    pub final : CardState
    pub syncs : synced ≡ some final
    pub recorded : Recorded coding config message_id key payload_hash id files final

  pub send_patch-Succeeds :
      (coding : Coding) (config : WriterConfig) (env : WriterEnv) (st : CardState) (key : Str)
      (c : Component) (p : Intent) (files : Bucket CardFile) (calls : List PatchCall) (id : Str)
      → st.sender_app ≡ config.sender_app
      → admit_request coding st key c env.now ≡ starts p
      → (send_patch coding env st p files calls).answer ≡ done id
      → Succeeds coding config st.message_id key c id
          (send_patch coding env st p files calls).files
          (send_patch coding env st p files calls).synced
  unfolding send_patch
  send_patch-Succeeds coding config env st key c p files calls id own started ok =
      elim (Bool-cases kept.0) [
        | inr failed ↦ absurd (ground arith)
        | inl first ↦
            elim (Bool-cases
              (save coding env.now env.last_write (settled coding st p env.patch) kept.1).0) [
                | inr failed ↦ absurd (ground arith)
                | inl last ↦ rw first (by_patch env.patch last (ground arith))
              ]
      ]
    where
      kept : Bool × Bucket CardFile
      kept = save coding env.now env.first_write (intended st p) files

      by_patch :
          (patch : Patch)
          → (save coding env.now env.last_write (settled coding st p patch) kept.1).0 ≡ true
          → answer_of p patch ≡ done id
          → Succeeds coding config st.message_id key c id
              (save coding env.now env.last_write (settled coding st p patch) kept.1).1
              (some (touched env.now (settled coding st p patch)))
      by_patch (patch_fails known message) last answered = absurd (ground arith)
      by_patch patched last answered =
          let (h, hashes, same_hash, same_key) =
            admit_request-intent coding st key c env.now p started in
          let a : Applied = record { payload_hash = p.payload_hash; request_id = p.request_id } in
          record {
            payload_hash = h;
            hashes = hashes;
            final = touched env.now (annotated_state coding st p);
            syncs = refl;
            recorded = record {
              loads =
                  load-save coding env.now env.last_write (annotated_state coding st p) kept.1 last;
              own = own;
              settled_patch = refl;
              certain = refl;
              known = (
                a,
                subst (λ k. get (put st.applied_keys p.idempotency_key a) k ≡ some a) same_key
                    (get-put_self st.applied_keys p.idempotency_key a),
                same_hash,
                ground arith,
              );
            };
          }
