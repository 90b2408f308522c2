-- ===== src/Spool/Progress.antt =====
-- Claim hands out work when there is some.
use mathlib.Core.List.{Memᴰ}
use notification_manager.Base.{
  ℕ, ◌≤◌, ◌<◌, ◌^◌, ◌≡◌, refl, sym, ap, ◌∙◌, subst, inl, inr, true, false, Option, none, some, List,
  [], ◌∷◌, Str, str_lt, arith, Option-cases, Bool-cases, ltb, All,
}
use notification_manager.Base.Order.{str_lt_irrefl, str_lt_trans, str_lt_ne}
use notification_manager.Bolt.{Bolt, IsSorted}
use notification_manager.Bolt.Laws.{get_of_mem, mem_of_get, lt_of_mem}
use notification_manager.Spool.Types.{Target, Claim, Env, Db, ok}
use notification_manager.Spool.Counter.{queue_key}
use notification_manager.Spool.QueueKey.{queue_key-lt}
use notification_manager.Spool.Profiles.{profile_delivery_paused}
use notification_manager.Spool.Claim.{blank, is_claimable, attempted, claim_of, scan, claim}
use notification_manager.Spool.Claiming.{decode_into-blank}
use notification_manager.Spool.Invariant.{IsSound, ReadyAt}

str_lt_asym : (j k : Str) → str_lt j k ≡ true → str_lt k j ≡ false
str_lt_asym j k h = elim (Bool-cases (str_lt k j)) [
  | inl back ↦ absurd (str_lt_ne j j (str_lt_trans j k j h back) refl)
  | inr e ↦ e
]

module _ ⦃B : Bolt⦄ where
  open B use {get, put, delete, entries, entries-IsSorted}

  -- The target may be delivered, and has a time of at most 20 digits.
  abbrev pub Admitted : Db → Option Target → Type 0
  Admitted db none = ⊥
  Admitted db (some u) = (profile_delivery_paused db u ≡ ok false) × (u.available_at < 10 ^ 20)

  -- Every target in the queue is admitted.
  abbrev pub AllAdmitted : Db → Type 0
  AllAdmitted db = All (λ e. Admitted db (get db.targets e.1)) (entries db.ready)

  All-mem :
      (P : Str × Str → Type 0) (l : List (Str × Str)) (e : Str × Str) → All P l → Memᴰ e l → P e
  All-mem P [] e a m = elim m [ ]
  All-mem P (x ∷ r) e a (Memᴰ.head same) = subst P (sym same) a.0
  All-mem P (x ∷ r) e a (Memᴰ.tail m) = All-mem P r e a.1 m

  -- The key of a place in the queue is the first, or comes after the first.
  first_key :
      (k j i id : Str) (rest : List (Str × Str))
      → IsSorted ((k, i) ∷ rest)
      → Memᴰ (j, id) ((k, i) ∷ rest)
      → str_lt j k ≡ false
  first_key k j i id rest sorted (Memᴰ.head e) =
      subst (λ x. str_lt x k ≡ false) (sym (ap (λ q. q.0) e)) (str_lt_irrefl k)
  first_key k j i id rest sorted (Memᴰ.tail m) = str_lt_asym k j (lt_of_mem k j id rest sorted m)

  scan-head :
      (db : Db) (now : ℕ) (k i : Str) (rest : List (Str × Str)) (t : Target)
      → get db.targets i ≡ some t
      → profile_delivery_paused db t ≡ ok false
      → t.available_at ≤ now
      → scan db now blank ((k, i) ∷ rest) ≡ ok (some (k, t))
  unfolding scan
  scan-head db now k i rest t here free due =
      rw here (rw (decode_into-blank t) (rw free (ground arith)))

  abbrev pub Progress : Env → Str → ℕ → ℕ → Db → Type 0
  Progress env owner now due db =
      (c : Claim) × (db' : Db) × (claim env owner now db ≡ ok (c, db'))
      × (c.target.available_at ≤ due)

  claim-first :
      (env : Env) (owner : Str) (now due : ℕ) (db : Db) (k i attempt : Str)
      (rest : List (Str × Str)) (t : Target)
      → entries db.ready ≡ (k, i) ∷ rest
      → get db.targets i ≡ some t
      → profile_delivery_paused db t ≡ ok false
      → is_claimable t.state ≡ true
      → t.available_at ≤ due
      → due ≤ now
      → env.random 0 ≡ some attempt
      → Progress env owner now due db
  unfolding claim attempted
  claim-first env owner now due db k i attempt rest t queue here free claimable early late drawn = (
    claim_of (attempted t owner attempt now) owner attempt,
    record db {
      targets = put db.targets t.id (attempted t owner attempt now);
      ready = delete db.ready k;
    },
    rw (queue, scan-head db now k i rest t here free (omega (arith, early, late))) (ground arith),
    early,
  )

  head-early :
      (db : Db) (id i : Str) (rest : List (Str × Str)) (t h : Target)
      → entries db.ready ≡ (queue_key h, i) ∷ rest
      → get db.ready (queue_key t) ≡ some id
      → t.available_at < 10 ^ 20
      → h.available_at < 10 ^ 20
      → h.available_at ≤ t.available_at
  head-early db id i rest t h queue place small_t small_h =
      elim (Bool-cases (ltb t.available_at h.available_at)) [
        | inr e ↦ ground arith
        | inl sooner ↦
            absurd
              (true-false (sym (queue_key-lt t h small_t small_h ∙ rw sooner refl) ∙ not_before))
      ]
    where
      not_before : str_lt (queue_key t) (queue_key h) ≡ false
      not_before =
          first_key (queue_key h) (queue_key t) i id rest
            (subst IsSorted queue (entries-IsSorted db.ready))
            (subst (Memᴰ (queue_key t, id)) queue (mem_of_get db.ready (queue_key t) id place))

      true-false : true ≡ false → ⊥
      true-false e = cc

  -- On a sound database with some target in the queue that is due, and no target in the queue whose
  -- profile is paused or refused, Claim hands out a target whose time is no later, if an attempt can
  -- be drawn and the times have at most 20 digits.
  pub claim-Progress :
      (env : Env) (owner attempt : Str) (now : ℕ) (db : Db) (id : Str) (t : Target)
      → IsSound db
      → AllAdmitted db
      → get db.ready (queue_key t) ≡ some id
      → get db.targets id ≡ some t
      → t.available_at ≤ now
      → env.random 0 ≡ some attempt
      → Progress env owner now t.available_at db
  claim-Progress env owner attempt now db id t (ix, tally) admitted place here due drawn =
      by_queue (entries db.ready) refl
    where
      allowed :
          (k i : Str) (u : Target)
          → get db.ready k ≡ some i
          → get db.targets i ≡ some u
          → (profile_delivery_paused db u ≡ ok false) × (u.available_at < 10 ^ 20)
      allowed k i u listed held = subst (Admitted db) held (
          All-mem (λ e. Admitted db (get db.targets e.1)) (entries db.ready) (k, i) admitted
            (mem_of_get db.ready k i listed))

      by_head :
          (k i : Str) (rest : List (Str × Str))
          → entries db.ready ≡ (k, i) ∷ rest
          → get db.ready k ≡ some i
          → Progress env owner now t.available_at db
      by_head k i rest queue first = elim (Option-cases (get db.targets i)) [
        | inl gone ↦ absurd (subst (ReadyAt k) gone (ix.ready_sound k i first))
        | inr (h, held) ↦
            let at : ReadyAt k (some h) = subst (ReadyAt k) held (ix.ready_sound k i first) in
            let (free, small) = allowed k i h first held in
            claim-first env owner now t.available_at db k i attempt rest h queue held free at.1
              (head-early db id i rest t h (queue ∙ ap (λ x. (x, i) ∷ rest) at.0) place
                (allowed (queue_key t) id t place here).1 small)
              due drawn
      ]

      by_queue :
          (l : List (Str × Str)) → entries db.ready ≡ l → Progress env owner now t.available_at db
      by_queue [] e =
          elim (subst (Memᴰ (queue_key t, id)) e (mem_of_get db.ready (queue_key t) id place)) [ ]
      by_queue ((k, i) ∷ rest) e =
          by_head k i rest e
            (get_of_mem db.ready k i (subst (Memᴰ (k, i)) (sym e) (Memᴰ.head refl)))
