-- ===== src/Spool/Lifecycle/Restart.antt =====
-- What a new owner of the file does to each target.
use mathlib.Core.List.{Memᴰ}
use notification_manager.Base.{
  ℕ, suc, ◌≡◌, ◌≢◌, refl, sym, subst, ◌⊎◌, inl, inr, Bool, true, false, some, List, [], ◌∷◌, ◌||◌,
  Str, lit, str_eq, arith, Option-cases, Bool-cases, if◌then◌else◌, All, dec_str,
}
use notification_manager.Bolt.{Bolt}
use notification_manager.Bolt.Laws.{get-put, get_of_mem, mem_of_get}
use notification_manager.Spool.Types.{sending, unknown, Target, Env, Db, ok}
use notification_manager.Spool.Counter.{set_active_count}
use notification_manager.Spool.Finish.{is_sending}
use notification_manager.Spool.Open.{count_active, interruptions, put_targets, take_over}
use notification_manager.Spool.Invariant.{IsIndexed}
use notification_manager.Spool.Lifecycle.{Phase, phase, held}

-- A restart interrupts what was being sent, and changes no other state.
abbrev pub Restarted : Phase → Phase → Type 0
Restarted p q = ((p ≡ held sending) × (q ≡ held unknown)) ⊎ ((p ≢ held sending) × (q ≡ p))

named : Str → List Target → Bool
named k [] = false
named k (t ∷ ts) = str_eq t.id k || named k ts

interruptions-unknown :
    (clock : ℕ → ℕ) (i : ℕ) (l : List (Str × Target))
    → All (λ t. t.state ≡ unknown) (interruptions clock i l)
unfolding interruptions
interruptions-unknown clock i [] = tt
interruptions-unknown clock i ((k, t) ∷ r) = elim (Bool-cases (is_sending t.state)) [
  | inl on ↦ rw on (refl, interruptions-unknown clock (suc i) r)
  | inr off ↦ rw off (interruptions-unknown clock i r)
]

interruptions-named :
    (clock : ℕ → ℕ) (i : ℕ) (k : Str) (t : Target) (l : List (Str × Target))
    → Memᴰ (k, t) l
    → t.id ≡ k
    → is_sending t.state ≡ true
    → named k (interruptions clock i l) ≡ true
unfolding interruptions named
interruptions-named clock i k t [] m e on = elim m [ ]
interruptions-named clock i k t ((j, u) ∷ r) (Memᴰ.head p) e on = ground arith
interruptions-named clock i k t ((j, u) ∷ r) (Memᴰ.tail m) e on = ground (
  arith,
  interruptions-named clock i k t r m e on,
  interruptions-named clock (suc i) k t r m e on,
)

module _ ⦃B : Bolt⦄ where
  open B use {get, put, entries}

  put_targets-phase :
      (k : Str) (ts : List Target) (db : Db)
      → All (λ t. t.state ≡ unknown) ts
      → phase (get (put_targets ts db).targets k)
        ≡ (if named k ts then held unknown else phase (get db.targets k))
  unfolding put_targets named
  put_targets-phase k [] db a = refl
  put_targets-phase k (t ∷ ts) db a = ground (
    arith,
    put_targets-phase k ts (record db { targets = put db.targets t.id t }) a.1,
    get-put db.targets t.id t k,
  )

  named-sending :
      (clock : ℕ → ℕ) (i : ℕ) (k : Str) (db : Db) (l : List (Str × Target))
      → IsIndexed db.targets db.ready db.blocked
      → ((j : Str) (t : Target) → Memᴰ (j, t) l → get db.targets j ≡ some t)
      → named k (interruptions clock i l) ≡ true
      → phase (get db.targets k) ≡ held sending
  unfolding interruptions named
  named-sending clock i k db [] ix held_at n = cc
  named-sending clock i k db ((j, t) ∷ r) ix held_at n =
      let later : (i : ℕ)
          → named k (interruptions clock i r) ≡ true
          → phase (get db.targets k) ≡ held sending =
        λ i. named-sending clock i k db r ix (λ j u m. held_at j u (Memᴰ.tail m)) in
      elim (Bool-cases (is_sending t.state)) [
        | inr off ↦ later i (ground arith)
        | inl on ↦ elim (dec_str t.id k) [
          | no other ↦ later (suc i) (ground arith)
          | yes same ↦ ground (arith, held_at j t (Memᴰ.head refl), ix.keyed j t)
        ]
      ]

  pub take_over-Restarted :
      (env : Env) (owner id : Str) (db db' : Db)
      → IsIndexed db.targets db.ready db.blocked
      → take_over env owner db ≡ ok db'
      → Restarted (phase (get db.targets id)) (phase (get db'.targets id))
  unfolding take_over set_active_count
  take_over-Restarted env owner id db db' ix h =
      subst (λ (d : Db). Restarted (phase (get db.targets id)) (phase (get d.targets id)))
        {x = put_targets changes counted} {y = db'} (ground arith)
        (subst (Restarted (phase (get db.targets id)))
          (sym (
            put_targets-phase id changes counted
              (interruptions-unknown env.clock 0 (entries db.targets))))
          both)
    where
      counted : Db
      counted = record db {
        version = some (lit "1");
        owner = owner;
        active_targets = count_active (entries db.targets);
      }

      changes : List Target
      changes = interruptions env.clock 0 (entries db.targets)

      was : named id changes ≡ true → phase (get db.targets id) ≡ held sending
      was =
          named-sending env.clock 0 id db (entries db.targets) ix
            (λ k t m. get_of_mem db.targets k t m)

      is_named :
          (t : Target)
          → get db.targets id ≡ some t
          → is_sending t.state ≡ true
          → named id changes ≡ true
      is_named t e on =
          interruptions-named env.clock 0 id t (entries db.targets) (mem_of_get db.targets id t e)
            (ix.keyed id t e) on

      unsent : named id changes ≡ false → phase (get db.targets id) ≢ held sending
      unsent off e = elim (Option-cases (get db.targets id)) [
        | inl n ↦ ground arith
        | inr (t, here) ↦ ground (arith, is_named t here)
      ]

      both :
          Restarted
            (phase (get db.targets id))
            (if named id changes then held unknown else phase (get db.targets id))
      both = elim (Bool-cases (named id changes)) [
        | inl on ↦ rw on (inl (was on, refl))
        | inr off ↦ rw off (inr (unsent off, refl))
      ]
