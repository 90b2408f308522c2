-- ===== src/Dispatch/Outcome.antt =====
-- What an error says of a delivery (pkg/utils/delivery.go).
use notification_manager.Base.{
  ℕ, Bool, true, false, Option, none, some, Str, lit, ◌||◌, ◌==◌, if◌then◌else◌,
}
use notification_manager.Spool.Types.{State, delivered, retryable, unknown, dead_letter}

-- The tree that errors.As walks, depth first: PreSendError and the errors of fmt.Errorf unwrap to one
-- inside, and those of errors.Join (pkg/async/group.go) to several, which are nested here by twos.
pub data SendError : Type 0 where
  plain : SendError
  wrapped : SendError → SendError
  joined : SendError → SendError → SendError
  pre_send : SendError → SendError
  platform_rejection : (code : ℕ) → SendError
  http_status : (status : ℕ) → SendError

unfoldable pub has_pre_send : SendError → Bool
has_pre_send (pre_send e) = true
has_pre_send (wrapped e) = has_pre_send e
has_pre_send (joined d e) = has_pre_send d || has_pre_send e
has_pre_send plain = false
has_pre_send (platform_rejection c) = false
has_pre_send (http_status s) = false

unfoldable pub has_rejection : SendError → Bool
has_rejection (platform_rejection c) = true
has_rejection (wrapped e) = has_rejection e
has_rejection (joined d e) = has_rejection d || has_rejection e
has_rejection (pre_send e) = has_rejection e
has_rejection plain = false
has_rejection (http_status s) = false

abbrev pub first_of : Option ℕ → Option ℕ → Option ℕ
first_of none o = o
first_of (some s) o = some s

unfoldable pub find_status : SendError → Option ℕ
find_status (http_status s) = some s
find_status (wrapped e) = find_status e
find_status (pre_send e) = find_status e
find_status (joined d e) = first_of (find_status d) (find_status e)
find_status plain = none
find_status (platform_rejection c) = none

unfoldable pub is_recoverable : ℕ → Bool
is_recoverable s = s == 429 || (s == 401 || s == 403)

unfoldable pub is_invalid : ℕ → Bool
is_invalid s = s == 400 || (s == 404 || (s == 405 || (s == 410 || (s == 413 || s == 422))))

abbrev pub uncertain : State × Str
uncertain = (unknown, lit "platform_result_uncertain")

unfoldable pub outcome_of_status : Option ℕ → State × Str
unfolding is_recoverable is_invalid
outcome_of_status none = uncertain
outcome_of_status (some s) =
    if is_recoverable s
    then (retryable, lit "platform_rejected_recoverable")
    else if is_invalid s
    then (dead_letter, lit "platform_rejected_invalid_request")
    else uncertain

unfoldable pub delivery_outcome : Option SendError → State × Str
unfolding outcome_of_status
delivery_outcome none = (delivered, lit "platform_confirmed")
delivery_outcome (some e) =
    if has_pre_send e
    then (retryable, lit "notification_not_sent")
    else if has_rejection e
    then (retryable, lit "platform_explicit_rejection")
    else outcome_of_status (find_status e)

-- The deferred function of SendFrozen (pkg/notify/durable.go): an error before the first request of
-- the attempt was written is one of the preflight.
unfoldable pub send_frozen : Bool → Option SendError → Option SendError
send_frozen started none = none
send_frozen true (some e) = some e
send_frozen false (some e) = some (pre_send e)
