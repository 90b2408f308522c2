-- ===== src/Spool/Plan.antt =====
-- What insert_targets stores of a plan.
use notification_manager.Base.{
  ℕ, ◌≡◌, ◌≢◌, refl, sym, ap, ◌∙◌, subst, false, Option, none, some, List, [], ◌∷◌, ◌++◌, Str,
  contains, All, arith,
}
use notification_manager.Bolt.{Bolt}
use notification_manager.Bolt.Laws.{get-put}
use notification_manager.Spool.Types.{pending, Target, ProfileSnapshot, Env, Db, ok}
use notification_manager.Spool.Submit.{
  target_id, frozen, insert_target, insert_targets, reverse_onto,
}
use notification_manager.Spool.Invariant.Submit.{insert_targets_round}

-- The identities of a list are distinct.
abbrev pub AreDistinct : List Str → Type 0
AreDistinct [] = Unit
AreDistinct (i ∷ is) = (contains is i ≡ false) × AreDistinct is

-- The record is the target `t` of a plan, as it waits for its first attempt.
abbrev pub Planned : Str → ℕ → Str → Target → Option Target → Type 0
Planned intake_id now i t none = ⊥
Planned intake_id now i t (some s) = s ≡ record t {
  id = i;
  intake_id = intake_id;
  state = pending;
  attempts = 0;
  owner = [];
  attempt_id = [];
  outcome = [];
  evidence = [];
  available_at = now;
  updated_at = now;
}

reverse_onto_twice :
    (xs ys zs : List Str) → reverse_onto (reverse_onto xs ys) zs ≡ reverse_onto ys (xs ++ zs)
reverse_onto_twice [] ys zs = refl
reverse_onto_twice (x ∷ xs) ys zs = reverse_onto_twice xs (x ∷ ys) zs

append_nil : (xs : List Str) → xs ++ [] ≡ xs
append_nil [] = refl
append_nil (x ∷ xs) = ap (λ r. x ∷ r) (append_nil xs)

contains_head :
    (x i : Str) (xs : List Str) → contains (x ∷ xs) i ≡ false → (i ≢ x) × (contains xs i ≡ false)
unfolding contains
contains_head x i xs h = (λ e. ground arith, ground arith)

contains_none :
    (i : Str) (ids xs : List Str)
    → All (λ j. contains (i ∷ ids) j ≡ false) xs
    → contains xs i ≡ false
unfolding contains
contains_none i ids [] a = refl
contains_none i ids (x ∷ xs) a =
    ground (arith, (contains_head i x ids a.0).0, contains_none i ids xs a.1)

apart_tail :
    (i : Str) (ids xs : List Str)
    → All (λ j. contains (i ∷ ids) j ≡ false) xs
    → All (λ j. contains ids j ≡ false) xs
apart_tail i ids [] a = tt
apart_tail i ids (x ∷ xs) a = ((contains_head i x ids a.0).1, apart_tail i ids xs a.1)

module _ ⦃B : Bolt⦄ where
  open B use {Bucket, get, put}

  -- The stored targets are those of the plan, one for one and in its order.
  abbrev pub HoldsPlan : Str → ℕ → Bucket Target → List Str → List Target → Type 0
  HoldsPlan intake_id now b [] [] = Unit
  HoldsPlan intake_id now b [] (t ∷ ts) = ⊥
  HoldsPlan intake_id now b (i ∷ is) [] = ⊥
  HoldsPlan intake_id now b (i ∷ is) (t ∷ ts) =
      Planned intake_id now i t (get b i) × HoldsPlan intake_id now b is ts

  -- What a run of insert_targets adds to the identities so far.
  record Added (intake_id : Str) (now : ℕ) (ts : List Target) (ids ids' : List Str) (db db' : Db)
      : Type 0 where
    pub new : List Str
    pub ids_are : ids' ≡ reverse_onto new ids
    pub plan : HoldsPlan intake_id now db'.targets new ts
    pub distinct : AreDistinct new
    pub apart : All (λ i. contains ids i ≡ false) new
    pub kept : All (λ i. get db'.targets i ≡ get db.targets i) ids

  kept_before :
      (f : Target) (ids : List Str) (db db' : Db)
      → contains ids f.id ≡ false
      → All (λ i. get db'.targets i ≡ get (insert_target f db).targets i) ids
      → All (λ i. get db'.targets i ≡ get db.targets i) ids
  unfolding insert_target
  kept_before f [] db db' c a = tt
  kept_before f (i ∷ ids) db db' c a =
      let (n, c') = contains_head i f.id ids c in
      (a.0 ∙ ground (arith, n, get-put db.targets f.id f i), kept_before f ids db db' c' a.1)

  insert_target_get : (f : Target) (db : Db) → get (insert_target f db).targets f.id ≡ some f
  unfolding insert_target
  insert_target_get f db = ground (arith, get-put db.targets f.id f f.id)

  frozen-Planned :
      (env : Env) (intake_id : Str) (now : ℕ) (t : Target) (o : Option Target)
      → o ≡ some (frozen env intake_id now t)
      → Planned intake_id now (target_id env intake_id t) t o
  unfolding frozen
  frozen-Planned env intake_id now t o e =
      subst (Planned intake_id now (target_id env intake_id t) t) (sym e) refl

  insert_targets-Added :
      (env : Env) (snapshot : Option ProfileSnapshot) (id : Str) (now : ℕ) (ts : List Target)
      (ids ids' : List Str) (db db' : Db)
      → insert_targets env snapshot id now ts ids db ≡ ok (ids', db')
      → Added id now ts ids ids' db db'
  insert_targets-Added env snapshot id now [] ids ids' db db' h =
      unfold insert_targets in
      let d : db ≡ db' = ground arith in
      record {
        new = [];
        ids_are = ground arith;
        plan = tt;
        distinct = tt;
        apart = tt;
        kept = same d ids;
      }
    where
      same : db ≡ db' → (ids : List Str) → All (λ i. get db'.targets i ≡ get db.targets i) ids
      same e [] = tt
      same e (i ∷ ids) = (ap (λ (d : Db). get d.targets i) (sym e), same e ids)
  insert_targets-Added env snapshot id now (t ∷ ts) ids ids' db db' h =
      let r = insert_targets_round env snapshot id now t ts ids ids' db db' h in
      let more =
        insert_targets-Added env snapshot id now ts (i ∷ ids) ids' (insert_target f db) db' r.3 in
      record {
        new = i ∷ more.new;
        ids_are = more.ids_are;
        plan = (frozen-Planned env id now t (get db'.targets i) (more.kept.0 ∙ held), more.plan);
        distinct = (contains_none i ids more.new more.apart, more.distinct);
        apart = (r.2, apart_tail i ids more.new more.apart);
        kept = kept_before f ids db db' (ap (contains ids) same ∙ r.2) more.kept.1;
      }
    where
      f : Target
      f = frozen env id now t

      i : Str
      i = target_id env id t

      same : f.id ≡ i
      same = unfold frozen in refl

      held : get (insert_target f db).targets i ≡ some f
      held = subst (λ x. get (insert_target f db).targets x ≡ some f) same (insert_target_get f db)

  -- The identities that an intake keeps, in the order of its plan.
  pub insert_targets-HoldsPlan :
      (env : Env) (snapshot : Option ProfileSnapshot) (id : Str) (now : ℕ) (ts : List Target)
      (ids : List Str) (db db' : Db)
      → insert_targets env snapshot id now ts [] db ≡ ok (ids, db')
      → HoldsPlan id now db'.targets (reverse_onto ids []) ts × AreDistinct (reverse_onto ids [])
  insert_targets-HoldsPlan env snapshot id now ts ids db db' h =
      let a = insert_targets-Added env snapshot id now ts [] ids db db' h in
      let e : a.new ≡ reverse_onto ids [] = sym (
        ap (λ x. reverse_onto x []) a.ids_are
        ∙ reverse_onto_twice a.new [] []
        ∙ append_nil a.new) in
      (subst (λ x. HoldsPlan id now db'.targets x ts) e a.plan, subst AreDistinct e a.distinct)
