-- ===== src/Card/Levels.antt =====
-- Up to which revision the patches of a card may have been applied, as its file says.
use notification_manager.Base.{
  ℕ, ◌+◌, ◌≡◌, ◌⊎◌, inl, inr, refl, sym, ap, subst, ◌∙◌, arith, dec_str, ite, true, false, Option,
  none, some, Str, str_eq, Bool-cases, ◌&&◌, if◌then◌else◌,
}
use notification_manager.Bolt.{Bolt}
use notification_manager.Bolt.Laws.{get-put}
use notification_manager.Outbox.Disk.{Ending, completes, fails_before, fails_after}
use notification_manager.Card.Component.{Float64}
use notification_manager.Card.State.{Coding}
use notification_manager.Card.Store.{
  done, CardState, CardFile, saved, foreign, card_file_name, touched, validate_card_state, save,
  load, read_state,
}

module _ ⦃F : Float64⦄ ⦃B : Bolt⦄ where
  open B use {Bucket, get, put}

  -- The annotation revision, and one more where a patch is pending.
  abbrev pub bound : CardState → ℕ
  bound st = elim st.pending_patch [
    | none ↦ st.annotation_revision
    | some p ↦ st.annotation_revision + 1
  ]

  -- Only a valid state in the file of its message counts: the others are never read.
  abbrev pub level_of : Coding → Str → Option CardFile → ℕ
  level_of coding name none = 0
  level_of coding name (some (foreign s)) = 0
  level_of coding name (some (saved st)) =
      if validate_card_state coding st && str_eq (card_file_name coding st.message_id) name
      then bound st
      else 0

  abbrev pub level : Coding → Bucket CardFile → Str → ℕ
  level coding files name = level_of coding name (get files name)

  saved_level :
      (coding : Coding) (name : Str) (st : CardState)
      → validate_card_state coding st ≡ true
      → card_file_name coding st.message_id ≡ name
      → level_of coding name (some (saved st)) ≡ bound st
  saved_level coding name st valid at = ground arith

  pub save_cases :
      (coding : Coding) (now : ℕ) (ending : Ending) (st : CardState) (files : Bucket CardFile)
      → (((save coding now ending st files).0 ≡ false)
          × ((save coding now ending st files).1 ≡ files))
        ⊎ ((validate_card_state coding (touched now st) ≡ true)
            × ((save coding now ending st files).1
                ≡ put files (card_file_name coding st.message_id) (saved (touched now st))))
  unfolding save
  save_cases coding now ending st files =
      elim (Bool-cases (validate_card_state coding (touched now st))) [
        | inr invalid ↦ inl (ground arith, ground arith)
        | inl valid ↦ ends ending valid
      ]
    where
      ends :
          (e : Ending)
          → validate_card_state coding (touched now st) ≡ true
          → (((save coding now e st files).0 ≡ false) × ((save coding now e st files).1 ≡ files))
            ⊎ ((validate_card_state coding (touched now st) ≡ true)
                × ((save coding now e st files).1
                    ≡ put files (card_file_name coding st.message_id) (saved (touched now st))))
      ends completes valid = inr (valid, ground arith)
      ends fails_after valid = inr (valid, ground arith)
      ends fails_before valid = inl (ground arith, ground arith)

  put_level :
      (coding : Coding) (files : Bucket CardFile) (st : CardState) (j : Str)
      → validate_card_state coding st ≡ true
      → level coding (put files (card_file_name coding st.message_id) (saved st)) j
        ≡ ite (dec_str (card_file_name coding st.message_id) j) (bound st) (level coding files j)
  put_level coding files st j valid =
      rw (get-put files (card_file_name coding st.message_id) (saved st) j)
        (elim (dec_str (card_file_name coding st.message_id) j)
          as (λ d.
            level_of coding j (ite d (some (saved st)) (get files j))
            ≡ ite d (bound st) (level coding files j)) [
              | yes e ↦ saved_level coding j st valid e
              | no n ↦ refl
            ])

  -- The level of each file after a save: as it was, or that of the saved state.
  pub save-level :
      (coding : Coding) (now : ℕ) (ending : Ending) (st : CardState) (files : Bucket CardFile)
      (j : Str)
      → (level coding (save coding now ending st files).1 j ≡ level coding files j)
        ⊎ ((card_file_name coding st.message_id ≡ j)
            × (level coding (save coding now ending st files).1 j ≡ bound st))
  save-level coding now ending st files j = elim (save_cases coding now ending st files) [
    | inl (_, same) ↦ inl (ap (λ f. level coding f j) same)
    | inr (valid, written) ↦
        let after =
          ap (λ f. level coding f j) written ∙ put_level coding files (touched now st) j valid in
        elim (dec_str (card_file_name coding st.message_id) j) [
          | yes e ↦ inr (e, ground (arith, after))
          | no n ↦ inl (ground (arith, after))
        ]
  ]

  pub save-level_self :
      (coding : Coding) (now : ℕ) (ending : Ending) (st : CardState) (files : Bucket CardFile)
      → (save coding now ending st files).0 ≡ true
      → level coding (save coding now ending st files).1 (card_file_name coding st.message_id)
        ≡ bound st
  save-level_self coding now ending st files ok = elim (save_cases coding now ending st files) [
    | inl (failed, _) ↦ cc
    | inr (valid, written) ↦ ground (
      arith,
      ap (λ f. level coding f (card_file_name coding st.message_id)) written
          ∙ put_level coding files (touched now st) (card_file_name coding st.message_id) valid,
    )
  ]

  -- What was loaded stands in the file of the message.
  pub load-saved :
      (coding : Coding) (message_id : Str) (files : Bucket CardFile) (st : CardState)
      → load coding message_id files ≡ done st
      → (level coding files (card_file_name coding message_id) ≡ bound st)
        × (st.message_id ≡ message_id)
        × (get files (card_file_name coding message_id) ≡ some (saved st))
        × (validate_card_state coding st ≡ true)
  unfolding load
  load-saved coding message_id files st h =
      from_file (get files (card_file_name coding message_id)) refl h
    where
      from_file :
          (x : Option CardFile)
          → get files (card_file_name coding message_id) ≡ x
          → read_state coding message_id x ≡ done st
          → (level coding files (card_file_name coding message_id) ≡ bound st)
            × (st.message_id ≡ message_id)
            × (get files (card_file_name coding message_id) ≡ some (saved st))
            × (validate_card_state coding st ≡ true)
      from_file none e k = absurd (ground arith)
      from_file (some (foreign s)) e k = absurd (ground arith)
      from_file (some (saved st')) e k =
          let facts : (validate_card_state coding st' ≡ true)
              × (st'.message_id ≡ message_id)
              × (st' ≡ st) =
            (ground arith, ground arith, ground arith) in
          let (valid, named, same) = facts in
          (
            rw e (
                  saved_level coding (card_file_name coding message_id) st' valid
                    (ap (card_file_name coding) named))
                ∙ ap bound same,
            sym (ap (λ (s : CardState). s.message_id) same) ∙ named,
            rw e (ap (λ s. some (saved s)) same),
            subst (λ s. validate_card_state coding s ≡ true) same valid,
          )
