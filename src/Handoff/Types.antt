-- ===== src/Handoff/Types.antt =====
-- The objects that the handoff reads, with the fields that it reads, and the intent itself
-- (controllers/sender_handoff.go).
use notification_manager.Base.{
  Bool, true, false, Option, none, some, List, [], ◌∷◌, Str, str_eq, is_empty, length, ltb, ◌&&◌,
  ◌||◌, not, if◌then◌else◌,
}

-- A map of labels, each key once.
abbrev pub Labels : Type 0
Labels = List (Str × Str)

pub data HandoffPhase : Type 0 where
  active retired rollback : HandoffPhase
  other : Str → HandoffPhase

pub record SenderHandoff : Type 0 where
  pub operation_id : Str
  pub phase : HandoffPhase
  pub deployment : Str
  pub deployment_uid : Str
  pub selector : Labels
  pub drain_evidence : Str

pub data HandoffError : Type 0 where
  too_large not_json no_identity invalid_phase no_evidence : HandoffError
  overlaps_original not_independent api_failed not_found : HandoffError
  original_not_ready candidate_mismatch candidate_not_ready no_contract : HandoffError
  selects_another : Str → HandoffError

pub data Answer (A : Type 0) : Type 0 where
  done : A → Answer A
  fails : HandoffError → Answer A

infixl 5 ◌>>=◌ ◌>>◌
abbrev pub ◌>>=◌ : {A C : Type 0} → Answer A → (A → Answer C) → Answer C
done a >>= f = f a
fails e >>= f = fails e

abbrev pub ◌>>◌ : {C : Type 0} → Answer (Unit {0}) → Answer C → Answer C
m >> k = m >>= λ _. k

abbrev pub fail_if : Bool → HandoffError → Answer (Unit {0})
fail_if true e = fails e
fail_if false e = done tt

abbrev pub is_known : HandoffPhase → Bool
is_known (other s) = false
is_known _ = true

abbrev pub is_retired : HandoffPhase → Bool
is_retired retired = true
is_retired _ = false

abbrev pub is_rollback : HandoffPhase → Bool
is_rollback rollback = true
is_rollback _ = false

abbrev pub or_fail : {A : Type 0} → Option A → HandoffError → Answer A
or_fail none e = fails e
or_fail (some a) e = done a

abbrev pub is_nil : Labels → Bool
is_nil [] = true
is_nil (x ∷ l) = false

unfoldable pub check_handoff : SenderHandoff → Answer (Unit {0})
check_handoff h = do
  fail_if
      (is_empty h.operation_id
        || (ltb 128 (length h.operation_id)
            || (is_empty h.deployment || (is_empty h.deployment_uid || is_nil h.selector))))
      no_identity
  fail_if (not (is_known h.phase)) invalid_phase
  fail_if (is_retired h.phase && (is_empty h.drain_evidence || ltb 512 (length h.drain_evidence)))
      no_evidence

-- `decode` reads exactly one JSON object without unknown fields (encoding/json). The annotation is
-- empty where it is missing; then there is no intent.
unfoldable pub handoff_intent : (Str → Option SenderHandoff) → Str → Answer (Option SenderHandoff)
unfolding check_handoff
handoff_intent decode raw = if is_empty raw then done none else (do
  fail_if (ltb 16384 (length raw)) too_large
  h ← or_fail (decode raw) not_json
  check_handoff h
  done (some h))

-- A missing key reads as the empty string.
unfoldable pub label : Labels → Str → Str
label [] k = []
label ((i, v) ∷ l) k = let rest = label l k in if str_eq i k then v else rest

unfoldable pub labels_match : Labels → Labels → Bool
unfolding label
labels_match [] labels = true
labels_match ((k, v) ∷ selector) labels = str_eq (label labels k) v && labels_match selector labels
