-- ===== src/Card/Advances.antt =====
-- One application of an annotation, and what it leaves in the files.
use notification_manager.Base.{
  ℕ, ◌+◌, ◌≤◌, ◌<◌, ◌≡◌, ◌⊎◌, inl, inr, refl, sym, ap, ◌∙◌, arith, Bool, true, false, List, ◌∷◌,
  Str, Option-cases, Bool-cases,
}
use notification_manager.Bolt.{Bolt}
use notification_manager.Card.Component.{Float64, Component}
use notification_manager.Card.State.{Coding, Intent, hash_component, hash_card, render_card}
use notification_manager.Card.Store.{CardState, CardFile, card_file_name, save}
use notification_manager.Card.Writer.{
  WriterEnv, Patch, patched, patch_fails, PatchCall, may_apply_of,
}
use notification_manager.Card.Apply.{starts, prepare, admit_request, annotated}
use notification_manager.Card.Requests.{intended, settled, send_patch}
use notification_manager.Card.Levels.{bound, level, save-level, save-level_self}

module _ ⦃F : Float64⦄ ⦃B : Bolt⦄ where
  open B use {Bucket, get, put, entries}

  -- No level falls, and a patch that was sent is above the level of its card before, and within it
  -- afterwards if it may have been applied.
  pub record Advances (coding : Coding) (files : Bucket CardFile) (calls : List PatchCall)
      (files' : Bucket CardFile) (calls' : List PatchCall) : Type 0 where
    pub levels : (name : Str) → level coding files name ≤ level coding files' name
    pub sent :
        (calls' ≡ calls)
        ⊎ ((call : PatchCall) × (calls' ≡ call ∷ calls)
            × (level coding files (card_file_name coding call.message_id) < call.revision)
            × (call.may_apply ≡ true
                → call.revision ≤ level coding files' (card_file_name coding call.message_id)))

  pub Advances-same :
      (coding : Coding) (files : Bucket CardFile) (calls : List PatchCall)
      → Advances coding files calls files calls
  Advances-same coding files calls = record { levels = λ name. omega arith; sent = inl refl }

  -- A save that lowers no level.
  pub save-Advances :
      (coding : Coding) (now : ℕ) (ending : _) (st : CardState) (files : Bucket CardFile)
      (calls : List PatchCall)
      → level coding files (card_file_name coding st.message_id) ≤ bound st
      → Advances coding files calls (save coding now ending st files).1 calls
  save-Advances coding now ending st files calls low = record {
    levels = λ name. elim (save-level coding now ending st files name) [
      | inl same ↦ omega (arith, same)
      | inr (at, new) ↦
          let old : level coding files (card_file_name coding st.message_id)
              ≡ level coding files name =
            ap (level coding files) at in
          omega (arith, new, old, low)
    ];
    sent = inl refl;
  }

  prepare-starts :
      (coding : Coding) (st : CardState) (key : Str) (c : Component) (payload_hash : Str) (now : ℕ)
      (p : Intent)
      → prepare coding st key c payload_hash now ≡ starts p
      → (p.component ≡ c) × (p.annotation_revision ≡ c.annotation_revision)
  unfolding prepare
  prepare-starts coding st key c payload_hash now p h =
      elim (Option-cases (render_card coding st.base_card (entries (annotated coding st c)))) [
        | inl e ↦ absurd (ground arith)
        | inr (rendered, e) ↦ elim (Option-cases (hash_card coding rendered)) [
          | inl e' ↦ absurd (ground arith)
          | inr (rendered_hash, e') ↦ (ground arith, ground arith)
        ]
      ]

  -- What is started has the next revision.
  pub admit_request-starts :
      (coding : Coding) (st : CardState) (key : Str) (c : Component) (now : ℕ) (p : Intent)
      → admit_request coding st key c now ≡ starts p
      → (p.component ≡ c)
        × (p.annotation_revision ≡ st.annotation_revision + 1)
        × (c.annotation_revision ≡ st.annotation_revision + 1)
  unfolding admit_request
  admit_request-starts coding st key c now p h = elim (Option-cases (hash_component coding c)) [
    | inl e ↦ absurd (ground arith)
    | inr (payload_hash, e) ↦ elim (Option-cases (get st.applied_keys key)) [
      | inr (applied, e') ↦ absurd (ground arith)
      | inl e' ↦
          let facts : (prepare coding st key c payload_hash now ≡ starts p)
              × (c.annotation_revision ≡ st.annotation_revision + 1) =
            (ground arith, ground arith) in
          let (same, revision) = prepare-starts coding st key c payload_hash now p facts.0 in
          (same, omega (arith, revision, facts.1), facts.1)
    ]
  ]

  settled-bound :
      (coding : Coding) (st : CardState) (p : Intent) (patch : Patch)
      → p.component.annotation_revision ≡ st.annotation_revision + 1
      → (st.annotation_revision ≤ bound (settled coding st p patch))
        × (may_apply_of patch ≡ true
            → bound (settled coding st p patch) ≡ st.annotation_revision + 1)
  settled-bound coding st p patched h = (omega (arith, h), λ m. h)
  settled-bound coding st p (patch_fails true message) h = (omega arith, λ m. cc)
  settled-bound coding st p (patch_fails false message) h = (omega arith, λ m. refl)

  settled-message_id :
      (coding : Coding) (st : CardState) (p : Intent) (patch : Patch)
      → (settled coding st p patch).message_id ≡ st.message_id
  settled-message_id coding st p patched = refl
  settled-message_id coding st p (patch_fails known message) = refl

  pub send_patch-Advances :
      (coding : Coding) (env : WriterEnv) (st : CardState) (p : Intent) (files : Bucket CardFile)
      (calls : List PatchCall)
      → level coding files (card_file_name coding st.message_id) ≡ st.annotation_revision
      → p.annotation_revision ≡ st.annotation_revision + 1
      → p.component.annotation_revision ≡ st.annotation_revision + 1
      → Advances coding files calls
          (send_patch coding env st p files calls).files
          (send_patch coding env st p files calls).calls
  unfolding send_patch
  send_patch-Advances coding env st p files calls at_level revision same =
      elim (Bool-cases kept.0) [
        | inr failed ↦ rw failed first
        | inl ok ↦ rw ok (record {
          levels = λ j. elim (save-level coding env.now env.last_write after kept.1 j) [
            | inl as_kept ↦ omega (arith, as_kept, first.levels j)
            | inr (at, new) ↦
                omega (arith, new, ap (level coding files) (sym same_name ∙ at), at_level, bounds.0)
          ];
          sent = inr (
            record {
              message_id = st.message_id;
              idempotency_key = p.idempotency_key;
              revision = p.annotation_revision;
              may_apply = may_apply_of env.patch;
            },
            refl,
            omega (arith, at_level, revision),
            λ may. elim (save-level coding env.now env.last_write after kept.1 name) [
              | inl as_kept ↦ omega (
                arith,
                as_kept,
                save-level_self coding env.now env.first_write (intended st p) files ok,
                revision,
              )
              | inr (_, new) ↦ omega (arith, new, bounds.1 may, revision)
            ],
          );
        })
      ]
    where
      name : Str
      name = card_file_name coding st.message_id

      kept : Bool × Bucket CardFile
      kept = save coding env.now env.first_write (intended st p) files

      after : CardState
      after = settled coding st p env.patch

      same_name : card_file_name coding after.message_id ≡ name
      same_name = ap (card_file_name coding) (settled-message_id coding st p env.patch)

      bounds :
          (st.annotation_revision ≤ bound after)
          × (may_apply_of env.patch ≡ true → bound after ≡ st.annotation_revision + 1)
      bounds = settled-bound coding st p env.patch same

      first : Advances coding files calls kept.1 calls
      first =
          save-Advances coding env.now env.first_write (intended st p) files calls
            (omega (arith, at_level))
