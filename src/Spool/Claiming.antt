-- ===== src/Spool/Claiming.antt =====
-- What Claim hands out, and what it fails to hand out.
use notification_manager.Base.{
  ℕ, ◌+◌, ◌≤◌, ◌≡◌, ◌≢◌, refl, sym, ap, ◌∙◌, subst, ◌⊎◌, inl, inr, true, false, Option, none, some,
  List, [], ◌∷◌, Str, lit, str_eq, is_empty, arith, Option-cases, All,
}
use mathlib.Core.Path.{subst₂}
use notification_manager.Bolt.{Bolt}
use notification_manager.Bolt.Laws.{get-put, get-delete, get_of_mem}
use notification_manager.Spool.Types.{
  sending, Target, Claim, DeliveryProfile, ProfileState, Env, Db, ok, err, none_ready,
}
use notification_manager.Spool.Counter.{queue_key}
use notification_manager.Spool.Profiles.{profile_key, state_key, profile_delivery_paused}
use notification_manager.Spool.Claim.{
  unless_empty, unless_nil, decode_into, blank, is_claimable, attempted, claim_of, scan, claim,
}
use notification_manager.Spool.Invariant.{IsSound, ReadyAt}
use notification_manager.Spool.Invariant.Claims.{Claimed, claim-Claimed}

unless_empty-nil : (s : Str) → unless_empty [] s ≡ s
unless_empty-nil [] = refl
unless_empty-nil (c ∷ s) = refl

unless_nil-nil : (ds : List Str) → unless_nil [] ds ≡ ds
unless_nil-nil [] = refl
unless_nil-nil (d ∷ ds) = refl

pub decode_into-blank : (t : Target) → decode_into blank t ≡ t
unfolding decode_into
decode_into-blank t = simp (unless_empty-nil, unless_nil-nil)

module _ ⦃B : Bolt⦄ where
  open B use {get, put, delete, entries}

  -- What a send is made from is as it was stored. Of the fields that may be absent from the stored
  -- text, those that are there are.
  pub record SameContent (s t : Target) : Type 0 where
    pub same_id : t.id ≡ s.id
    pub same_intake : t.intake_id ≡ s.intake_id
    pub same_receiver : t.receiver ≡ s.receiver
    pub same_channel : t.channel ≡ s.channel
    pub same_destination : t.destination ≡ s.destination
    pub same_revision : t.content_revision ≡ s.content_revision
    pub same_payload : t.payload ≡ s.payload
    pub same_due : t.available_at ≡ s.available_at
    pub same_profile : (s.profile_id ≡ []) ⊎ (t.profile_id ≡ s.profile_id)
    pub same_version : (s.profile_version ≡ []) ⊎ (t.profile_version ≡ s.profile_version)
    pub same_owner : (s.card_owner_id ≡ []) ⊎ (t.card_owner_id ≡ s.card_owner_id)
    pub same_origin :
        (s.original_destination ≡ []) ⊎ (t.original_destination ≡ s.original_destination)
    pub same_dependencies :
        (s.dependency_revisions ≡ []) ⊎ (t.dependency_revisions ≡ s.dependency_revisions)

  unless_empty-kept : (old s : Str) → (s ≡ []) ⊎ (unless_empty old s ≡ s)
  unless_empty-kept old [] = inl refl
  unless_empty-kept old (c ∷ s) = inr refl

  unless_nil-kept : (old s : List Str) → (s ≡ []) ⊎ (unless_nil old s ≡ s)
  unless_nil-kept old [] = inl refl
  unless_nil-kept old (d ∷ s) = inr refl

  attempted-SameContent :
      (old s : Target) (owner attempt : Str) (now : ℕ)
      → SameContent s (attempted (decode_into old s) owner attempt now)
  unfolding attempted decode_into
  attempted-SameContent old s owner attempt now = record {
    same_id = refl;
    same_intake = refl;
    same_receiver = refl;
    same_channel = refl;
    same_destination = refl;
    same_revision = refl;
    same_payload = refl;
    same_due = refl;
    same_profile = unless_empty-kept old.profile_id s.profile_id;
    same_version = unless_empty-kept old.profile_version s.profile_version;
    same_owner = unless_empty-kept old.card_owner_id s.card_owner_id;
    same_origin = unless_empty-kept old.original_destination s.original_destination;
    same_dependencies = unless_nil-kept old.dependency_revisions s.dependency_revisions;
  }

  -- `s` is the record that the claim `c` took.
  pub record Takes (env : Env) (owner : Str) (now : ℕ) (db : Db) (s : Target) (c : Claim) (db' : Db)
      : Type 0 where
    pub stored : get db.targets c.target.id ≡ some s
    pub was_ready : get db.ready (queue_key s) ≡ some c.target.id
    pub was_claimable : is_claimable s.state ≡ true
    pub was_due : s.available_at ≤ now
    pub persisted : get db'.targets c.target.id ≡ some c.target
    pub is_sent : c.target.state ≡ sending
    pub one_more : c.target.attempts ≡ s.attempts + 1
    pub claim_owner : c.owner ≡ owner
    pub target_owner : c.target.owner ≡ owner
    pub new_attempt : some c.attempt_id ≡ env.random 0
    pub same_attempt : c.target.attempt_id ≡ c.attempt_id
    pub not_ready : get db'.ready (queue_key s) ≡ none
    pub other_targets : (id : Str) → c.target.id ≢ id → get db'.targets id ≡ get db.targets id
    pub other_places : (k : Str) → queue_key s ≢ k → get db'.ready k ≡ get db.ready k
    pub same_content : SameContent s c.target
    pub rest_is : db' ≡ record db { targets = db'.targets; ready = db'.ready }

  Takes-of_parts :
      (env : Env) (owner attempt : Str) (now : ℕ) (db : Db) (s sent : Target)
      → get db.targets sent.id ≡ some s
      → get db.ready (queue_key s) ≡ some sent.id
      → is_claimable s.state ≡ true
      → s.available_at ≤ now
      → sent.state ≡ sending
      → sent.attempts ≡ s.attempts + 1
      → sent.owner ≡ owner
      → sent.attempt_id ≡ attempt
      → SameContent s sent
      → env.random 0 ≡ some attempt
      → Takes env owner now db s (claim_of sent owner attempt) (record db {
        targets = put db.targets sent.id sent;
        ready = delete db.ready (queue_key s);
      })
  Takes-of_parts env owner attempt now db s sent stored place claimable due at more own same content
        drawn =
      record {
        stored = stored;
        was_ready = place;
        was_claimable = claimable;
        was_due = due;
        persisted = ground (arith, get-put db.targets sent.id sent sent.id);
        is_sent = at;
        one_more = more;
        claim_owner = refl;
        target_owner = own;
        new_attempt = sym drawn;
        same_attempt = same;
        not_ready = ground (arith, get-delete db.ready (queue_key s) (queue_key s));
        other_targets = λ id n. ground (arith, get-put db.targets sent.id sent id);
        other_places = λ k n. ground (arith, get-delete db.ready (queue_key s) k);
        same_content = content;
        rest_is = refl;
      }

  -- A successful Claim on a sound database took a stored target that was ready, due and pending or to
  -- be retried. The record is now being sent, by this owner under the new attempt, with one attempt
  -- more and the content that was stored: identity, intake, receiver, channel, destination, revision,
  -- payload and time, and those of profile, version, card owner, original destination and dependencies
  -- that it had. It is in the queue no longer. No other target, no other place of the queue and no
  -- other part of the database changed.
  pub claim-Takes :
      (env : Env) (owner : Str) (now : ℕ) (db : Db) (c : Claim) (db' : Db)
      → IsSound db
      → claim env owner now db ≡ ok (c, db')
      → (s : Target) × Takes env owner now db s c db'
  unfolding attempted decode_into
  claim-Takes env owner now db c db' (ix, tally) h = (
    s,
    subst₂ (Takes env owner now db s) (sym out.claim_is) (sym out.db_is) (
        rw at_key.0 (
          Takes-of_parts env owner out.attempt now db s sent (rw same out.found.held)
            (rw (← at_key.0, same) place) at_key.1 (ground (arith, out.found.due)) refl
            (ap (λ t. t.attempts + 1) out.found.decoded) refl refl content out.drawn)),
  )
    where
      out : Claimed env owner now db c db'
      out = claim-Claimed env owner now db c db' h

      s : Target
      s = out.found.stored

      sent : Target
      sent = attempted out.target owner out.attempt now

      content : SameContent s sent
      content =
          subst (λ t. SameContent s (attempted t owner out.attempt now)) (sym out.found.decoded)
            (attempted-SameContent out.found.carried s owner out.attempt now)

      same : out.target.id ≡ out.found.id
      same = ap (λ t. t.id) out.found.decoded ∙ ix.keyed out.found.id s out.found.held

      place : get db.ready out.key ≡ some out.found.id
      place = get_of_mem db.ready out.key out.found.id out.found.listed

      at_key : ReadyAt out.key (some s)
      at_key = subst (ReadyAt out.key) out.found.held (ix.ready_sound out.key out.found.id place)

  -- A record of a formal profile, as the loop of Claim carries it on.
  pub record Carries (db : Db) (p : DeliveryProfile) (st : ProfileState) (t : Target) : Type 0 where
    pub has_profile : is_empty t.profile_id ≡ false
    pub registered : get db.profiles (profile_key t.profile_id t.profile_version) ≡ some p
    pub same_owner : t.card_owner_id ≡ p.card_owner_id
    pub not_test : str_eq p.id (lit "test") ≡ false
    pub state : get db.profile_states (state_key t.profile_id) ≡ some st
    pub stopped : st.paused ≡ true

  -- A stored target that belongs to no profile.
  abbrev pub IsPlain : Target → Type 0
  IsPlain t = (t.profile_id ≡ []) × (t.profile_version ≡ []) × (t.card_owner_id ≡ [])

  abbrev pub StoredPlain : Option Target → Type 0
  StoredPlain none = ⊥
  StoredPlain (some t) = IsPlain t

  Carries-paused :
      (db : Db) (p : DeliveryProfile) (st : ProfileState) (t : Target)
      → Carries db p st t
      → profile_delivery_paused db t ≡ ok true
  unfolding profile_delivery_paused
  Carries-paused db p st t c =
      ground (arith, c.has_profile, c.registered, c.same_owner, c.not_test, c.state, c.stopped)

  Carries-decode_into :
      (db : Db) (p : DeliveryProfile) (st : ProfileState) (t s : Target)
      → Carries db p st t
      → IsPlain s
      → Carries db p st (decode_into t s)
  unfolding decode_into
  Carries-decode_into db p st t s c (a, b, o) =
      rw (a, b, o)
        (record {
          has_profile = c.has_profile;
          registered = c.registered;
          same_owner = c.same_owner;
          not_test = c.not_test;
          state = c.state;
          stopped = c.stopped;
        })

  scan-carried :
      (db : Db) (now : ℕ) (p : DeliveryProfile) (st : ProfileState) (t : Target)
      (l : List (Str × Str))
      → Carries db p st t
      → All (λ e. StoredPlain (get db.targets e.1)) l
      → scan db now t l ≡ ok none
  unfolding scan
  scan-carried db now p st t [] c a = refl
  scan-carried db now p st t ((k, id) ∷ r) c a = elim (Option-cases (get db.targets id)) [
    | inl e ↦ absurd (subst StoredPlain e a.0)
    | inr (s, e) ↦
        let c' : Carries db p st (decode_into t s) =
          Carries-decode_into db p st t s c (subst StoredPlain e a.0) in
        ground (
          arith,
          e,
          Carries-paused db p st (decode_into t s) c',
          scan-carried db now p st (decode_into t s) r c' a.1,
        )
  ]

  -- Where the first entry of the queue is due and belongs to a profile other than test that is
  -- registered with the same card owner and paused, and every other entry belongs to no profile,
  -- version and card owner, Claim finds nothing, however long the others have been due.
  pub claim_starves :
      (env : Env) (owner : Str) (now : ℕ) (db : Db) (k id : Str) (rest : List (Str × Str))
      (p : DeliveryProfile) (st : ProfileState) (t : Target)
      → entries db.ready ≡ (k, id) ∷ rest
      → get db.targets id ≡ some t
      → Carries db p st t
      → t.available_at ≤ now
      → All (λ e. StoredPlain (get db.targets e.1)) rest
      → claim env owner now db ≡ err none_ready
  unfolding claim scan
  claim_starves env owner now db k id rest p st t queue here c due plain = rw queue (
      rw here (
        rw (decode_into-blank t)
          (ground (arith, Carries-paused db p st t c, scan-carried db now p st t rest c plain))))
