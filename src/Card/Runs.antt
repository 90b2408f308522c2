-- ===== src/Card/Runs.antt =====
-- The events of a writer, and that no patch is sent twice.
use notification_manager.Base.{
  ◌≤◌, ◌<◌, ◌≡◌, inl, inr, refl, sym, ap, subst, arith, dec_str, ite, Bool, true, false, Option,
  none, some, List, [], ◌∷◌, Str, lit, All, Option-cases, Bool-cases,
}
use notification_manager.Bolt.{Bolt}
use notification_manager.Bolt.Laws.{get-delete}
use notification_manager.Outbox.Envelope.{has_suffix}
use notification_manager.Outbox.Disk.{Ending, takes_place}
use notification_manager.Card.Component.{Float64, Component}
use notification_manager.Card.State.{Card, Coding}
use notification_manager.Card.Store.{CardFile, saved, foreign, card_file_name}
use notification_manager.Card.Writer.{
  WriterConfig, WriterEnv, PatchCall, Writer, capture_card_binding,
}
use notification_manager.Card.Requests.{apply_annotation}
use notification_manager.Card.Recent.{read_named, scan_states, load_recent, restart}
use notification_manager.Card.Levels.{level, level_of}
use notification_manager.Card.Advances.{Advances, Advances-same}
use notification_manager.Card.Once.{capture_card_binding-Advances, apply-Advances}

module _ ⦃F : Float64⦄ ⦃B : Bolt⦄ where
  open B use {Bucket, empty, get, put, delete, entries}

  unread_level :
      (coding : Coding) (name : Str) (x : Option CardFile)
      → read_named coding name x ≡ none
      → level_of coding name x ≡ 0
  unread_level coding name none h = refl
  unread_level coding name (some (foreign s)) h = refl
  unread_level coding name (some (saved st)) h = ground arith

  delete-level :
      (coding : Coding) (files : Bucket CardFile) (name j : Str)
      → level coding files name ≡ 0
      → level coding files j ≤ level coding (delete files name) j
  delete-level coding files name j h =
      rw (get-delete files name j)
        (elim (dec_str name j)
          as (λ d. level coding files j ≤ level_of coding j (ite d none (get files j))) [
            | yes e ↦ omega (arith, h, ap (level coding files) e)
            | no n ↦ omega arith
          ])

  scan_states-level :
      (coding : Coding) (moves : Str → Ending) (l : List (Str × CardFile)) (files : Bucket CardFile)
      (j : Str)
      → level coding files j ≤ level coding (scan_states coding moves l files).1 j
  unfolding scan_states
  scan_states-level coding moves [] files j = omega arith
  scan_states-level coding moves ((name, f) ∷ r) files j =
      elim (Bool-cases (has_suffix name (lit ".json"))) [
        | inr skipped ↦ rw (skipped, scan_states) (scan_states-level coding moves r files j)
        | inl json_file ↦ elim (Option-cases (read_named coding name (get files name))) [
          | inr (st, read) ↦
              rw (json_file, read, scan_states) (scan_states-level coding moves r files j)
          | inl unread ↦ elim (Bool-cases (takes_place (moves name))) [
            | inr stays ↦
                rw (json_file, unread, stays, scan_states)
                  (scan_states-level coding moves r files j)
            | inl moved ↦
                rw (json_file, unread, moved, scan_states)
                  (omega (
                    arith,
                    scan_states-level coding moves r (delete files name) j,
                    delete-level coding files name j
                        (unread_level coding name (get files name) unread),
                  ))
          ]
        ]
      ]

  restart-Advances :
      (coding : Coding) (config : WriterConfig) (unreadable : Bool) (moves : Str → Ending)
      (w : Writer)
      → let w' = restart coding config unreadable moves w in
        Advances coding w.files w.calls w'.files w'.calls
  unfolding restart load_recent
  restart-Advances coding config true moves w = Advances-same coding w.files w.calls
  restart-Advances coding config false moves w = record {
    levels = λ j. scan_states-level coding moves (entries w.files) w.files j;
    sent = inl refl;
  }

  -- A crash in the middle of an application is a write that fails, and a restart: before the patch
  -- the first write fails after it took place, behind the patch the last write fails before.
  pub data WriterStep (coding : Coding) (w w' : Writer) : Type 0 where
    captures :
        (config : WriterConfig) (env : WriterEnv) (receiver destination message_id : Str)
        (base_card : Card)
        → w'
          ≡ (capture_card_binding coding config env receiver destination message_id base_card w).1
        → WriterStep coding w w'
    annotates :
        (config : WriterConfig) (env : WriterEnv) (message_id key : Str) (c : Component)
        → w' ≡ (apply_annotation coding config env message_id key c w).1
        → WriterStep coding w w'
    restarts :
        (config : WriterConfig) (unreadable : Bool) (moves : Str → Ending)
        → w' ≡ restart coding config unreadable moves w
        → WriterStep coding w w'

  pub data WriterRun (coding : Coding) (w : Writer) : Writer → Type 0 where
    here : WriterRun coding w w
    next :
        {w' w'' : Writer}
        → WriterRun coding w w'
        → WriterStep coding w' w''
        → WriterRun coding w w''

  -- A patch has a greater revision than each of those that were sent before for the same card and
  -- may have been applied.
  abbrev pub Exceeds : PatchCall → PatchCall → Type 0
  Exceeds call earlier =
      earlier.message_id ≡ call.message_id
      → earlier.may_apply ≡ true
      → earlier.revision < call.revision

  -- The latest patch stands first.
  abbrev pub Increasing : List PatchCall → Type 0
  Increasing [] = Unit
  Increasing (call ∷ calls) = All (Exceeds call) calls × Increasing calls

  abbrev pub Within : Coding → Bucket CardFile → PatchCall → Type 0
  Within coding files call =
      call.may_apply ≡ true
      → call.revision ≤ level coding files (card_file_name coding call.message_id)

  Within-mono :
      (coding : Coding) (files files' : Bucket CardFile) (calls : List PatchCall)
      → ((name : Str) → level coding files name ≤ level coding files' name)
      → All (Within coding files) calls
      → All (Within coding files') calls
  Within-mono coding files files' [] up all = tt
  Within-mono coding files files' (call ∷ calls) up (w, all) = (
    λ m. omega (arith, w m, up (card_file_name coding call.message_id)),
    Within-mono coding files files' calls up all,
  )

  Within-Exceeds :
      (coding : Coding) (files : Bucket CardFile) (call : PatchCall) (calls : List PatchCall)
      → level coding files (card_file_name coding call.message_id) < call.revision
      → All (Within coding files) calls
      → All (Exceeds call) calls
  Within-Exceeds coding files call [] low all = tt
  Within-Exceeds coding files call (d ∷ calls) low (w, all) = (
    λ same may.
        omega (arith, w may, low, ap (λ m. level coding files (card_file_name coding m)) same),
    Within-Exceeds coding files call calls low all,
  )

  pub record Ordered (coding : Coding) (w : Writer) : Type 0 where
    pub within : All (Within coding w.files) w.calls
    pub increasing : Increasing w.calls

  Advances-Ordered :
      (coding : Coding) (w w' : Writer)
      → Advances coding w.files w.calls w'.files w'.calls
      → Ordered coding w
      → Ordered coding w'
  Advances-Ordered coding w w' a o =
      let kept = Within-mono coding w.files w'.files w.calls a.levels o.within in
      elim a.sent [
        | inl same ↦ record {
          within = subst (λ l. All (Within coding w'.files) l) (sym same) kept;
          increasing = subst Increasing (sym same) o.increasing;
        }
        | inr (call, added, low, high) ↦ record {
          within = subst (λ l. All (Within coding w'.files) l) (sym added) (high, kept);
          increasing =
              subst Increasing (sym added)
                (Within-Exceeds coding w.files call w.calls low o.within, o.increasing);
        }
      ]

  WriterStep-Ordered :
      {coding : Coding} {w w' : Writer}
      → WriterStep coding w w'
      → Ordered coding w
      → Ordered coding w'
  WriterStep-Ordered {coding} {w} (captures config env receiver destination message_id base_card e)
        o =
      subst (Ordered coding) (sym e) (
        Advances-Ordered coding w
          (capture_card_binding coding config env receiver destination message_id base_card w).1
          (capture_card_binding-Advances coding config env receiver destination message_id base_card
            w)
          o)
  WriterStep-Ordered {coding} {w} (annotates config env message_id key c e) o =
      subst (Ordered coding) (sym e) (
        Advances-Ordered coding w (apply_annotation coding config env message_id key c w).1
          (unfold apply_annotation in apply-Advances coding config env message_id key _ w) o)
  WriterStep-Ordered {coding} {w} (restarts config unreadable moves e) o =
      subst (Ordered coding) (sym e) (
        Advances-Ordered coding w (restart coding config unreadable moves w)
          (restart-Advances coding config unreadable moves w) o)

  WriterRun-Ordered :
      {coding : Coding} {w w' : Writer}
      → WriterRun coding w w'
      → Ordered coding w
      → Ordered coding w'
  WriterRun-Ordered here o = o
  WriterRun-Ordered (next run s) o = WriterStep-Ordered s (WriterRun-Ordered run o)

  -- Whatever annotations are applied, cards captured and restarts made, and whatever writes and
  -- patches fail, each patch that is sent for a card has a greater revision than each earlier one for
  -- that card that the platform may have applied. The files at the start are arbitrary.
  pub WriterRun-Increasing :
      (coding : Coding) (w w' : Writer) → w.calls ≡ [] → WriterRun coding w w' → Increasing w'.calls
  WriterRun-Increasing coding w w' none_yet run =
      (WriterRun-Ordered run (record {
        within = subst (λ l. All (Within coding w.files) l) (sym none_yet) tt;
        increasing = subst Increasing (sym none_yet) tt;
      })).increasing
