-- ===== src/Spool/Examples/Lives.antt =====
-- Instances of the theorems on runs, completions and cleanups.
use notification_manager.Base.{
  ℕ, ◌≤◌, ◌≡◌, ◌⊎◌, refl, true, false, none, some, [], ◌∷◌, Str, lit, arith, str_lt,
}
use notification_manager.Bolt.Listed.{listed}
use notification_manager.Spool.Types.{
  delivered, sending, retryable, Target, Claim, Db, ok, err, fence, illegal_completion, no_record,
}
use notification_manager.Spool.Calls.{submits, claims, cleans, step}
use notification_manager.Spool.Invariant.{IsSound}
use notification_manager.Spool.Examples.{
  everything, from_ok, env, limits, first_target, history_target, opened, opened_lem, request,
  accepted_store, fresh_request, accepted-IsSound, closed_claim, claimed, claimed-IsSound, finished,
  finished_lem, finished-IsSound,
}
use notification_manager.Spool.Counter.{queue_key}
use notification_manager.Spool.QueueKey.{queue_key-lt}
use notification_manager.Spool.Finish.{finish, is_completion}
use notification_manager.Spool.Submit.{frozen}
use notification_manager.Spool.Claim.{claim}
use notification_manager.Spool.Cleanup.{cleanup_completed, one_day}
use notification_manager.Spool.Invariant.Claims.{claim-IsSound}
use notification_manager.Spool.Invariant.Settle.{finish-IsSound}
use notification_manager.Spool.Health.{Store}
use notification_manager.Spool.Open.{open_store, default_limits}
use notification_manager.Spool.Lifecycle.{phase, absent, held}
use notification_manager.Spool.Lifecycle.Runs.{Asks}
use notification_manager.Spool.Lifecycle.Effects.{Moves}
use notification_manager.Spool.Lifecycle.Reach.{
  empty_db, here, next, called, Reach-new_file_IsSound, Step-Edge, delivered-final,
}
use notification_manager.Spool.Fencing.{finish_exactly, finish_once, open_store_fences}
use notification_manager.Spool.Dependents.{finish-releases, IsReleased}
use notification_manager.Spool.Retention.{cleanup_completed-Sweeps, Sweeps}

queue_key-lt_example :
    str_lt (queue_key first_target) (queue_key (record first_target { available_at = 100 })) ≡ true
queue_key-lt_example =
    queue_key-lt first_target (record first_target { available_at = 100 }) (omega arith)
      (omega arith)

Reach-new_file_IsSound_example : IsSound (step env none (claims 5000) accepted_store).db
unfolding default_limits
Reach-new_file_IsSound_example =
    Reach-new_file_IsSound env limits opened (step env none (claims 5000) accepted_store)
      (omega arith) opened_lem
      (next (next here (called env none request fresh_request refl))
        (called env none (claims 5000) tt refl))

abbrev accepted_then_claimed : Store
accepted_then_claimed = step env none (claims 5000) accepted_store

Step-Edge_example : Moves accepted_store.db accepted_then_claimed.db claimed.0.target.id
unfolding everything
Step-Edge_example =
    Step-Edge accepted_store accepted_then_claimed claimed.0.target.id
      (accepted-IsSound, omega arith) (called env none (claims 5000) tt refl)

abbrev done_store : Store
done_store = record accepted_store { db = finished }

abbrev cleaned_store : Store
cleaned_store = step env none (cleans 86400000000000 10 90000000000000) done_store

delivered-final_example :
    (phase (listed.get cleaned_store.db.targets claimed.0.target.id) ≡ held delivered)
    ⊎ (phase (listed.get cleaned_store.db.targets claimed.0.target.id) ≡ absent)
unfolding everything
delivered-final_example =
    delivered-final done_store cleaned_store claimed.0.target.id (finished-IsSound, omega arith)
      refl (called env none (cleans 86400000000000 10 90000000000000) tt refl)

finish_once_example : finish env (lit "a1") claimed.0 retryable [] [] 0 finished ≡ err fence
finish_once_example =
    finish_once env env (lit "a1") (lit "a1") claimed.0 claimed.0 delivered retryable (lit "sent")
      [] [] [] 0 0 claimed.1 finished claimed-IsSound finished_lem refl refl

abbrev restarted : Store
restarted = from_ok opened (open_store env limits claimed.1)

restarted_lem : open_store env limits claimed.1 ≡ ok restarted
unfolding everything
restarted_lem = refl

open_store_fences_example :
    finish env restarted.owner claimed.0 delivered [] [] 0 restarted.db ≡ err fence
unfolding everything
open_store_fences_example =
    open_store_fences env env limits claimed.0 delivered [] [] 0 claimed.1 restarted _
      claimed-IsSound.0 restarted_lem refl refl

finish_exactly_example :
    ((is_completion delivered ≡ false)
      × (finish env (lit "a2") claimed.0 delivered [] [] 0 claimed.1 ≡ err illegal_completion))
    ⊎ ((listed.get claimed.1.targets claimed.0.target.id ≡ none)
        × (is_completion delivered ≡ true)
        × (finish env (lit "a2") claimed.0 delivered [] [] 0 claimed.1 ≡ err no_record))
    ⊎ ((t : Target) × (listed.get claimed.1.targets claimed.0.target.id ≡ some t)
        × (((t.state ≡ sending)
              × (t.owner ≡ lit "a2")
              × (claimed.0.owner ≡ lit "a2")
              × (t.attempt_id ≡ claimed.0.attempt_id))
            ⊎ (finish env (lit "a2") claimed.0 delivered [] [] 0 claimed.1 ≡ err fence)))
finish_exactly_example = finish_exactly env (lit "a2") claimed.0 delivered [] [] 0 claimed.1

abbrev waiting : Target
waiting = frozen env (lit "a1") 1001 history_target

finish-releases_example : IsReleased finished waiting
unfolding everything
finish-releases_example =
    finish-releases env (lit "a1") claimed.0 (lit "sent") [] 0 claimed.1 finished claimed.0.target
      waiting claimed-IsSound finished_lem refl (refl, refl) refl refl

abbrev single : Store
single = step env none (submits (lit "k") (lit "h") (first_target ∷ []) [] none 0) opened

fresh_single : Asks env (submits (lit "k") (lit "h") (first_target ∷ []) [] none 0) opened.db
unfolding everything
fresh_single id h = (refl, tt)

single-IsSound : IsSound single.db
unfolding default_limits
single-IsSound = Reach-new_file_IsSound env limits opened single (omega arith) opened_lem (
    next here (
      called env none (submits (lit "k") (lit "h") (first_target ∷ []) [] none 0) fresh_single
        refl))

abbrev sent : Claim × Db
sent = from_ok (closed_claim, empty_db) (claim env (lit "a1") 5000 single.db)

sent_lem : claim env (lit "a1") 5000 single.db ≡ ok (sent.0, sent.1)
unfolding everything
sent_lem = refl

abbrev all_done : Db
all_done = from_ok empty_db (finish env (lit "a1") sent.0 delivered (lit "sent") [] 0 sent.1)

all_done_lem : finish env (lit "a1") sent.0 delivered (lit "sent") [] 0 sent.1 ≡ ok all_done
unfolding everything
all_done_lem = refl

all_done-IsSound : IsSound all_done
all_done-IsSound =
    finish-IsSound env (lit "a1") sent.0 delivered (lit "sent") [] 0 sent.1 all_done
      (claim-IsSound env (lit "a1") 5000 single.db sent.0 sent.1 single-IsSound sent_lem)
      all_done_lem

abbrev late : ℕ
late = 90000000000000

abbrev swept : ℕ × Db
swept = from_ok (0, empty_db) (cleanup_completed env one_day 10 late all_done)

swept_count : swept.0 ≡ 1
unfolding everything
swept_count = refl

swept_lem : cleanup_completed env one_day 10 late all_done ≡ ok (swept.0, swept.1)
unfolding everything
swept_lem = refl

cleanup_completed-Sweeps_example :
    ((id : Str)
      → Sweeps one_day late (listed.get all_done.targets id) (listed.get swept.1.targets id))
    × (swept.0 ≤ 10)
    × (swept.1.dedupe ≡ all_done.dedupe)
cleanup_completed-Sweeps_example =
    cleanup_completed-Sweeps env one_day 10 late all_done swept.0 swept.1 all_done-IsSound swept_lem
