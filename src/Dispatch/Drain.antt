-- ===== src/Dispatch/Drain.antt =====
-- When a worker stops.
use notification_manager.Base.{
  ℕ, ◌≡◌, ◌⊎◌, inl, inr, sym, ap, ◌∙◌, Bool, true, false, Option, List, [], ◌∷◌, Str, arith,
  Option-cases, Bool-cases, ltb, ◌≤◌, All,
}
use notification_manager.Bolt.{Bolt}
use notification_manager.Bolt.Laws.{count}
use notification_manager.Spool.Types.{Env, Db}
use notification_manager.Spool.Outcome.{Result-cases}
use notification_manager.Spool.Claim.{claim}
use notification_manager.Spool.Health.{Store, CommitError, update}
use notification_manager.Dispatch.Worker.{
  Shutdown, Action, returns, is_work, work_left, worker_round,
}

module _ {V : Type 0} where
  count-zero : (p : V → Bool) (l : List (Str × V)) → count p l ≡ 0 → All (λ e. p e.1 ≡ false) l
  unfolding count
  count-zero p [] z = tt
  count-zero p ((i, w) ∷ l) z = (ground arith, count-zero p l (ground arith))

module _ ⦃B : Bolt⦄ where
  open B use {get, entries}

  returns_cases :
      (env : Env) (failure : Option CommitError) (sd : Shutdown) (now claim_now : ℕ) (s : Store)
      → (worker_round env failure sd now claim_now s).0 ≡ returns
      → (sd.closing ≡ true)
        × ((sd.handoff ≡ true)
            ⊎ (ltb now sd.deadline ≡ false)
            ⊎ (work_left (worker_round env failure sd now claim_now s).1.db ≡ 0))
  unfolding worker_round update
  returns_cases env failure sd now claim_now s h = elim (Bool-cases sd.closing) [
    | inr open_yet ↦ absurd (elim (Result-cases (claim env s.owner claim_now s.db)) [
      | inl (r, e) ↦ elim (Option-cases failure) [
        | inl f ↦ ground arith
        | inr (x, f) ↦ ground arith
      ]
      | inr (e, bad) ↦ ground arith
    ])
    | inl closing ↦ (
      closing,
      elim (Bool-cases sd.handoff) [
        | inl handoff ↦ inl handoff
        | inr drain ↦ elim (Bool-cases (ltb now sd.deadline)) [
          | inr over ↦ inr (inl over)
          | inl early ↦ inr (
              inr (elim (Result-cases (claim env s.owner claim_now s.db)) [
                | inl (r, e) ↦ elim (Option-cases failure) [
                  | inl f ↦ absurd (ground arith)
                  | inr (x, f) ↦ absurd (ground arith)
                ]
                | inr (e, bad) ↦ ground arith
              ]))
        ]
      ],
    )
  ]

  -- No target of a database is pending, to be retried or being sent.
  abbrev pub NoWork : Db → Type 0
  NoWork db = All (λ e. is_work e.1 ≡ false) (entries db.targets)

  -- A worker returns only when the store is closing, and then only in the mode handoff, past the
  -- deadline, or when no stored target is pending, to be retried or being sent.
  pub worker_round-drained :
      (env : Env) (failure : Option CommitError) (sd : Shutdown) (now claim_now : ℕ) (s s' : Store)
      → worker_round env failure sd now claim_now s ≡ (returns, s')
      → (sd.closing ≡ true) × ((sd.handoff ≡ true) ⊎ (sd.deadline ≤ now) ⊎ NoWork s'.db)
  unfolding work_left
  worker_round-drained env failure sd now claim_now s s' h =
      let (closing, why) = returns_cases env failure sd now claim_now s (ap (λ r. r.0) h) in
      (
        closing,
        elim why [
          | inl handoff ↦ inl handoff
          | inr (inl over) ↦ inr (inl (ground arith))
          | inr (inr z) ↦ inr (
              inr (
                count-zero is_work (entries s'.db.targets)
                  (ap (λ (r : Action × Store). work_left r.1.db) (sym h) ∙ z)))
        ],
      )
