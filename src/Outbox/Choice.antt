-- ===== src/Outbox/Choice.antt =====
-- Which receipt is delivered next.
use mathlib.Core.List.{Memᴰ}
use notification_manager.Base.{
  ℕ, ◌≤◌, ◌<◌, ◌≡◌, ◌≢◌, ◌⊎◌, inl, inr, refl, ap, ◌∙◌, Bool, true, false, Option, none, some, List,
  [], ◌∷◌, Str, lit, arith, Option-cases, Bool-cases, leb,
}
use notification_manager.Bolt.{Bolt}
use notification_manager.Bolt.Laws.{get-delete_ne, mem_of_get}
use notification_manager.Outbox.Envelope.{
  Envelope, File, read_envelope, has_suffix, corrupt_name, note_name,
}
use notification_manager.Outbox.Disk.{
  Ending, completes, fails_before, fails_after, Outbox, rename_to_dead,
}
use notification_manager.Outbox.Scan.{
  is_before, earliest, Quarantine, write_note, quarantine, scan_entries, takes, next_envelope,
}

is_before_trans :
    (a b c : Envelope) → is_before a b ≡ false → is_before b c ≡ false → is_before a c ≡ false
unfolding is_before
is_before_trans a b c h k = ground arith

is_before_asym : (a b : Envelope) → is_before a b ≡ true → is_before b a ≡ false
unfolding is_before
is_before_asym a b h = ground arith

is_before_irrefl : (a : Envelope) → is_before a a ≡ false
unfolding is_before
is_before_irrefl a = ground arith

-- The next attempt is earlier, or it is at the same time and the creation is no later.
abbrev pub ComesFirst : Envelope → Envelope → Type 0
ComesFirst a b =
    (a.next_attempt_at < b.next_attempt_at)
    ⊎ ((a.next_attempt_at ≡ b.next_attempt_at) × (a.created_at ≤ b.created_at))

is_before-ComesFirst : (b a : Envelope) → is_before b a ≡ false → ComesFirst a b
unfolding is_before
is_before-ComesFirst b a h = ground arith

earliest_some : (c : Str × Envelope) (cs : List (Str × Envelope)) → earliest (c ∷ cs) ≢ none
unfolding earliest
earliest_some c cs e = ground arith

-- The earliest of a longer list.
earliest_cases :
    (d : Str × Envelope) (ds : List (Str × Envelope)) (c : Str × Envelope)
    → earliest (d ∷ ds) ≡ some c
    → ((earliest ds ≡ none) × (c ≡ d))
      ⊎ ((b : Str × Envelope) × (earliest ds ≡ some b)
          × (((is_before b.1 d.1 ≡ true) × (c ≡ b)) ⊎ ((is_before b.1 d.1 ≡ false) × (c ≡ d))))
unfolding earliest
earliest_cases d ds c h = elim (Option-cases (earliest ds)) [
  | inl e ↦ inl (e, ground arith)
  | inr (b, e) ↦ inr (
    b,
    e,
    elim (Bool-cases (is_before b.1 d.1)) [
      | inl earlier ↦ inl (earlier, ground arith)
      | inr later ↦ inr (later, ground arith)
    ],
  )
]

earliest-least :
    (cs : List (Str × Envelope)) (c x : Str × Envelope)
    → earliest cs ≡ some c
    → Memᴰ x cs
    → is_before x.1 c.1 ≡ false
earliest-least [] c x h m = elim m [ ]
earliest-least (d ∷ ds) c x h (Memᴰ.head e) = elim (earliest_cases d ds c h) [
  | inl (_, is_d) ↦ rw (e, is_d) (is_before_irrefl d.1)
  | inr (b, _, inl (earlier, is_b)) ↦ rw (e, is_b) (is_before_asym b.1 d.1 earlier)
  | inr (b, _, inr (later, is_d)) ↦ rw (e, is_d) (is_before_irrefl d.1)
]
earliest-least (d ∷ ds) c x h (Memᴰ.tail m) = elim (earliest_cases d ds c h) [
  | inl (empty, is_d) ↦ absurd (no_mem ds empty m)
  | inr (b, some_b, inl (earlier, is_b)) ↦ rw is_b (earliest-least ds b x some_b m)
  | inr (b, some_b, inr (later, is_d)) ↦
      rw is_d (is_before_trans x.1 b.1 d.1 (earliest-least ds b x some_b m) later)
]
  where
    no_mem : (l : List (Str × Envelope)) → earliest l ≡ none → Memᴰ x l → ⊥
    no_mem [] e k = elim k [ ]
    no_mem (y ∷ l) e k = earliest_some y l e

module _ ⦃B : Bolt⦄ where
  open B use {get, entries}

  rename_to_dead_other :
      (ending : Ending) (name new_name other_name : Str) (o : Outbox)
      → name ≢ other_name
      → get (rename_to_dead ending name new_name o).1.pending other_name ≡ get o.pending other_name
  unfolding rename_to_dead
  rename_to_dead_other ending name new_name other_name o apart =
      elim (Option-cases (get o.pending name)) [
        | inl e ↦ rw (e, rename_to_dead) refl
        | inr (f, e) ↦ ends f e ending
      ]
    where
      ends :
          (f : File)
          → get o.pending name ≡ some f
          → (ending : Ending)
          → get (rename_to_dead ending name new_name o).1.pending other_name
            ≡ get o.pending other_name
      ends f e completes = rw (e, rename_to_dead) (get-delete_ne o.pending name other_name apart)
      ends f e fails_after = rw (e, rename_to_dead) (get-delete_ne o.pending name other_name apart)
      ends f e fails_before = rw (e, rename_to_dead) refl

  write_note-pending :
      (made : Bool) (text : Option Str) (name other_name : Str) (o : Outbox)
      → get (write_note made text name o).pending other_name ≡ get o.pending other_name
  write_note-pending true (some text) name other_name o = refl
  write_note-pending true none name other_name o = refl
  write_note-pending false text name other_name o = refl

  quarantine_other :
      (q : Quarantine) (name other_name : Str) (o : Outbox)
      → name ≢ other_name
      → get (quarantine q name o).pending other_name ≡ get o.pending other_name
  unfolding quarantine
  quarantine_other q name other_name o apart =
      let moved = rename_to_dead (q.move name) name (corrupt_name name (q.at name)) o in
      write_note-pending moved.0 (q.note name) (note_name (corrupt_name name (q.at name)))
        other_name moved.1
      ∙ rename_to_dead_other (q.move name) name (corrupt_name name (q.at name)) other_name o apart

  scan_entries-mem :
      (hash : Str → Str) (q : Quarantine) (l : List (Str × File)) (o : Outbox) (name : Str)
      (f : File) (e : Envelope)
      → Memᴰ (name, f) l
      → has_suffix name (lit ".json") ≡ true
      → read_envelope hash (get o.pending name) ≡ some e
      → Memᴰ (name, e) (scan_entries hash q l o).0
  unfolding scan_entries
  scan_entries-mem hash q [] o name f e m suffix found = elim m [ ]
  scan_entries-mem hash q ((n, g) ∷ l) o name f e (Memᴰ.head same) suffix found =
      let at : name ≡ n = ap (λ z. z.0) same in
      rw (← at) (rw (suffix, found, scan_entries) (Memᴰ.head refl))
  scan_entries-mem hash q ((n, g) ∷ l) o name f e (Memᴰ.tail m) suffix found =
      elim (Bool-cases (has_suffix n (lit ".json"))) [
        | inr skipped ↦
            rw (skipped, scan_entries) (scan_entries-mem hash q l o name f e m suffix found)
        | inl json_file ↦ elim (Option-cases (read_envelope hash (get o.pending n))) [
          | inr (e', read) ↦
              rw (json_file, read, scan_entries)
                (Memᴰ.tail (scan_entries-mem hash q l o name f e m suffix found))
          | inl unreadable ↦
              rw (json_file, unreadable, scan_entries)
                (scan_entries-mem hash q l (quarantine q n o) name f e m suffix (
                  ap (read_envelope hash) (
                    quarantine_other q n name o
                      (λ at. cc (ap (λ z. read_envelope hash (get o.pending z)) at)))
                  ∙ found))
        ]
      ]

  -- What the outbox delivers next is due, and each readable receipt that was pending is due later, or
  -- at the same time and was created no earlier.
  pub next_envelope-least :
      (hash : Str → Str) (q : Quarantine) (now : ℕ) (o o' : Outbox) (name other_name : Str)
      (f : File) (e other_e : Envelope)
      → next_envelope hash false q now o ≡ (takes name e, o')
      → get o.pending other_name ≡ some f
      → has_suffix other_name (lit ".json") ≡ true
      → read_envelope hash (get o.pending other_name) ≡ some other_e
      → (e.next_attempt_at ≤ now) × ComesFirst e other_e
  unfolding next_envelope
  next_envelope-least hash q now o o' name other_name f e other_e h there suffix found =
      let scanned : List (Str × Envelope) × Outbox = scan_entries hash q (entries o.pending) o in
      elim (Option-cases (earliest scanned.0)) [
        | inl none_left ↦ absurd (ground arith)
        | inr (c, first) ↦ elim (Bool-cases (leb c.1.next_attempt_at now)) [
          | inr early ↦ absurd (ground arith)
          | inl due ↦
              let taken : takes c.0 c.1 ≡ takes name e = ground arith in
              let same : c.1 ≡ e = cc in
              (
                ground (arith, due, same),
                is_before-ComesFirst other_e e (
                    rw (← same) (
                      earliest-least scanned.0 c (other_name, other_e) first
                        (scan_entries-mem hash q (entries o.pending) o other_name f other_e
                          (mem_of_get o.pending other_name f there) suffix found))),
              )
        ]
      ]
