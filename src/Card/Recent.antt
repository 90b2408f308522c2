-- ===== src/Card/Recent.antt =====
-- The restart of the service: LoadRecent and the quarantine of cardStateStore
-- (pkg/jevshadow/card_state.go), and the bindings that New makes (service.go).
use notification_manager.Base.{
  ℕ, Bool, true, false, Option, none, some, List, [], ◌∷◌, Str, lit, str_eq, ltb, ◌==◌, ◌&&◌, take,
  if◌then◌else◌,
}
use notification_manager.Bolt.{Bolt}
use notification_manager.Outbox.Envelope.{has_suffix}
use notification_manager.Outbox.Disk.{Ending, takes_place}
use notification_manager.Card.Component.{Float64}
use notification_manager.Card.State.{Coding}
use notification_manager.Card.Store.{
  CardState, CardFile, saved, foreign, card_file_name, validate_card_state,
}
use notification_manager.Card.Writer.{WriterConfig, Binding, Writer}

module _ ⦃F : Float64⦄ ⦃B : Bolt⦄ where
  open B use {Bucket, empty, get, put, delete, entries}

  -- The state in a file of this name, if it is valid and the name is that of its message.
  abbrev pub read_named : Coding → Str → Option CardFile → Option CardState
  read_named coding name none = none
  read_named coding name (some (foreign s)) = none
  read_named coding name (some (saved st)) =
      if validate_card_state coding st && str_eq (card_file_name coding st.message_id) name
      then some st
      else none

  -- The other files are moved away. `moves` tells how each move ends.
  unfoldable pub scan_states :
      Coding
      → (Str → Ending)
      → List (Str × CardFile)
      → Bucket CardFile
      → List CardState × Bucket CardFile
  unfolding validate_card_state card_file_name has_suffix
  scan_states coding moves [] files = ([], files)
  scan_states coding moves ((name, f) ∷ r) files = elim (has_suffix name (lit ".json")) [
    | false ↦ scan_states coding moves r files
    | true ↦ elim (read_named coding name (get files name)) [
      | none ↦
          scan_states coding moves r (if takes_place (moves name) then delete files name else files)
      | some st ↦ let rest = scan_states coding moves r files in (st ∷ rest.0, rest.1)
    ]
  ]

  unfoldable pub insert_newest : CardState → List CardState → List CardState
  insert_newest st [] = st ∷ []
  insert_newest st (s ∷ r) =
      let rest = insert_newest st r in
      if ltb st.updated_at s.updated_at then s ∷ rest else st ∷ s ∷ r

  unfoldable pub newest_first : List CardState → List CardState
  unfolding insert_newest
  newest_first [] = []
  newest_first (s ∷ r) = insert_newest s (newest_first r)

  -- `unreadable` if os.ReadDir fails.
  unfoldable pub load_recent :
      Coding → Bool → (Str → Ending) → ℕ → Bucket CardFile → List CardState × Bucket CardFile
  unfolding scan_states newest_first
  load_recent coding unreadable moves limit files =
      if unreadable
      then ([], files)
      else (let scanned = scan_states coding moves (entries files) files in
          (
            (if limit == 0 then newest_first scanned.0 else take limit (newest_first scanned.0)),
            scanned.1,
          ))

  abbrev pub bindings_of : List CardState → Bucket Binding → Bucket Binding
  bindings_of [] cards = cards
  bindings_of (st ∷ r) cards =
      bindings_of r (put cards st.message_id (record { state = st; has_patcher = false }))

  -- What was in memory is gone.
  unfoldable pub restart : Coding → WriterConfig → Bool → (Str → Ending) → Writer → Writer
  unfolding load_recent
  restart coding config unreadable moves w =
      let recent = load_recent coding unreadable moves config.max_cards w.files in
      record {
        cards = bindings_of recent.0 empty;
        patchers = [];
        files = recent.1;
        calls = w.calls;
      }
