-- ===== src/Spool/Fencing.antt =====
-- Who may complete an attempt.
use notification_manager.Base.{
  ℕ, ◌≡◌, ◌⊎◌, inl, inr, true, false, none, some, Str, arith, Option-cases, Bool-cases,
}
use notification_manager.Bolt.{Bolt}
use notification_manager.Spool.Types.{
  State, sending, Target, Claim, Limits, Env, Db, ok, err, fence, no_record, illegal_completion,
}
use notification_manager.Spool.Finish.{is_sending, is_completion, finish}
use notification_manager.Spool.Health.{Store}
use notification_manager.Spool.Open.{open_store}
use notification_manager.Spool.Invariant.{IsIndexed, IsSound}
use notification_manager.Spool.Invariant.Settle.{finish-Finished}
use notification_manager.Spool.Lifecycle.{phase, held}
use notification_manager.Spool.Lifecycle.Effects.{finish-phase}
use notification_manager.Spool.Lifecycle.Restart.{take_over-Restarted}
use notification_manager.Spool.Lifecycle.Reach.{open_store_parts}

module _ ⦃B : Bolt⦄ where
  open B use {get}

  fence_of_phase :
      (env : Env) (owner : Str) (c : Claim) (state : State) (outcome evidence : Str) (next : ℕ)
      (db : Db) (t : Target)
      → is_completion state ≡ true
      → get db.targets c.target.id ≡ some t
      → is_sending t.state ≡ false
      → finish env owner c state outcome evidence next db ≡ err fence
  unfolding finish
  fence_of_phase env owner c state outcome evidence next db t legal here idle = ground arith

  -- Finish answers with an error of the right kind, or was called with the claim of the attempt that
  -- the stored record is being sent under: the state must be a completion, the target must exist, and
  -- the record must be in the state sending, under this owner and the attempt of the claim.
  pub finish_exactly :
      (env : Env) (owner : Str) (c : Claim) (state : State) (outcome evidence : Str) (next : ℕ)
      (db : Db)
      → ((is_completion state ≡ false)
          × (finish env owner c state outcome evidence next db ≡ err illegal_completion))
        ⊎ ((get db.targets c.target.id ≡ none)
            × (is_completion state ≡ true)
            × (finish env owner c state outcome evidence next db ≡ err no_record))
        ⊎ ((t : Target) × (get db.targets c.target.id ≡ some t)
            × (((t.state ≡ sending)
                  × (t.owner ≡ owner)
                  × (c.owner ≡ owner)
                  × (t.attempt_id ≡ c.attempt_id))
                ⊎ (finish env owner c state outcome evidence next db ≡ err fence)))
  unfolding finish
  finish_exactly env owner c state outcome evidence next db =
      elim (Bool-cases (is_completion state)) [
        | inr illegal ↦ inl (illegal, ground arith)
        | inl legal ↦ elim (Option-cases (get db.targets c.target.id)) [
          | inl e ↦ inr (inl (e, legal, ground arith))
          | inr (t, e) ↦ inr (inr (t, e, ground arith))
        ]
      ]

  -- Right after an attempt on a sound database was completed, a further completion of that target is
  -- fenced off, whoever asks with whatever claim.
  pub finish_once :
      (env env' : Env) (owner owner' : Str) (c c' : Claim) (state state' : State)
      (outcome evidence outcome' evidence' : Str) (next next' : ℕ) (db db' : Db)
      → IsSound db
      → finish env owner c state outcome evidence next db ≡ ok db'
      → c'.target.id ≡ c.target.id
      → is_completion state' ≡ true
      → finish env' owner' c' state' outcome' evidence' next' db' ≡ err fence
  finish_once env env' owner owner' c c' state state' outcome evidence outcome' evidence' next next'
        db db' inv h same legal =
      elim (Option-cases (get db'.targets c'.target.id)) [
        | inl e ↦ absurd (ground (arith, at))
        | inr (t, e) ↦
            fence_of_phase env' owner' c' state' outcome' evidence' next' db' t legal e
              (ground (arith, at, done))
      ]
    where
      at : phase (get db'.targets c'.target.id) ≡ held state
      at = rw same (finish-phase env owner c state outcome evidence next db db' inv h)

      done : is_completion state ≡ true
      done = (finish-Finished env owner c state outcome evidence next db db' h).legal

  -- A restart fences off every claim that was given out before it: no stored target can be completed
  -- until the new owner has claimed it.
  pub open_store_fences :
      (env env' : Env) (limits : Limits) (c : Claim) (state : State) (outcome evidence : Str)
      (next : ℕ) (db : Db) (s : Store) (t : Target)
      → IsIndexed db.targets db.ready db.blocked
      → open_store env limits db ≡ ok s
      → get s.db.targets c.target.id ≡ some t
      → is_completion state ≡ true
      → finish env' s.owner c state outcome evidence next s.db ≡ err fence
  open_store_fences env env' limits c state outcome evidence next db s t ix h here legal =
      fence_of_phase env' s.owner c state outcome evidence next s.db t legal here (
        ground (
          arith,
          take_over-Restarted env s.owner c.target.id db s.db ix
              (open_store_parts env limits db s h).0,
          here,
        ))
