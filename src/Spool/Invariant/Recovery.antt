-- ===== src/Spool/Invariant/Recovery.antt =====
-- ClaimForRecovery keeps the database sound.
use notification_manager.Base.{
  ℕ, ◌≡◌, refl, sym, ap, ◌∙◌, subst, inl, inr, true, false, some, Str, arith, Option-cases, ltb,
}
use notification_manager.Bolt.{Bolt}
use notification_manager.Spool.Types.{Target, Claim, replay_exact_target, Env, Db, ok}
use notification_manager.Spool.Counter.{queue_key}
use notification_manager.Spool.Profiles.{check_audit, profile_delivery_paused}
use notification_manager.Spool.Claim.{
  is_claimable, attempted, claim_of, forbidden, claim_for_recovery,
}
use notification_manager.Spool.QueueKey.{queue_key-id}
use notification_manager.Spool.Invariant.{IsIndexed, IsTallied, IsSound}
use notification_manager.Spool.Invariant.Claims.{attempt-IsSound}

module _ ⦃B : Bolt⦄ where
  open B use {get, put, delete}

  -- A successful recovery claim, step by step.
  pub record Recovered (env : Env) (owner id actor evidence : Str) (now : ℕ) (db : Db) (c : Claim)
      (db' : Db) : Type 0 where
    pub target : Target
    pub attempt : Str
    pub place : Str
    pub audited : check_audit actor evidence ≡ ok tt
    pub held : get db.targets id ≡ some target
    pub allowed : forbidden (profile_delivery_paused db target) ≡ false
    pub claimable : is_claimable target.state ≡ true
    pub due : ltb now target.available_at ≡ false
    pub queued : get db.ready (queue_key target) ≡ some place
    pub claim_is : c ≡ claim_of (attempted target owner attempt now) owner attempt
    pub db_is : db' ≡ record db {
      audit = put db.audit attempt (replay_exact_target id actor evidence now);
      ready = delete db.ready (queue_key target);
      targets = put db.targets id (attempted target owner attempt now);
    }

  pub claim_for_recovery-Recovered :
      (env : Env) (owner id actor evidence : Str) (now : ℕ) (db : Db) (c : Claim) (db' : Db)
      → claim_for_recovery env owner id actor evidence now db ≡ ok (c, db')
      → Recovered env owner id actor evidence now db c db'
  unfolding claim_for_recovery attempted
  claim_for_recovery-Recovered env owner id actor evidence now db c db' h =
      elim (Option-cases (get db.targets id)) [
        | inl e ↦ absurd (ground arith)
        | inr (t, e) ↦ elim (Option-cases (get db.ready (queue_key t))) [
          | inl q ↦ absurd (ground arith)
          | inr (p, q) ↦ elim (Option-cases (env.random 0)) [
            | inl n ↦ absurd (ground arith)
            | inr (a, r) ↦ record {
              target = t;
              attempt = a;
              place = p;
              audited = ground arith;
              held = e;
              allowed = ground arith;
              claimable = ground arith;
              due = ground arith;
              queued = q;
              claim_is = ground arith;
              db_is = ground arith;
            }
          ]
        ]
      ]

  -- The key of a stored target leads to it, if it leads anywhere.
  place_of_key :
      (db : Db) (t : Target) (id place : Str)
      → IsIndexed db.targets db.ready db.blocked
      → get db.targets id ≡ some t
      → get db.ready (queue_key t) ≡ some place
      → place ≡ id
  place_of_key db t id place ix held q = elim (Option-cases (get db.targets place)) [
    | inl e ↦ absurd (ground (arith, ix.ready_sound (queue_key t) place))
    | inr (u, e) ↦ ground (
      arith,
      ix.ready_sound (queue_key t) place,
      ix.keyed id t,
      ix.keyed place u,
      queue_key-id t u,
    )
  ]

  pub claim_for_recovery-IsSound :
      (env : Env) (owner id actor evidence : Str) (now : ℕ) (db : Db) (c : Claim) (db' : Db)
      → IsSound db
      → claim_for_recovery env owner id actor evidence now db ≡ ok (c, db')
      → IsSound db'
  unfolding attempted
  claim_for_recovery-IsSound env owner id actor evidence now db c db' (ix, tally) h =
      subst IsSound (sym out.db_is) (
        subst
          (λ x.
            IsIndexed (put db.targets x sent) (delete db.ready (queue_key out.target)) db.blocked
            × IsTallied (put db.targets x sent) db.active_targets)
          id_is
          (attempt-IsSound db out.target sent (ix, tally) (rw id_is out.held) refl refl
            out.claimable (out.queued ∙ ap some (home ∙ sym id_is))))
    where
      out : Recovered env owner id actor evidence now db c db'
      out = claim_for_recovery-Recovered env owner id actor evidence now db c db' h

      sent : Target
      sent = attempted out.target owner out.attempt now

      id_is : out.target.id ≡ id
      id_is = ix.keyed id out.target out.held

      home : out.place ≡ id
      home = place_of_key db out.target id out.place ix out.held out.queued
