-- ===== src/Outbox/Foreign.antt =====
-- A receipt of another scope.
use notification_manager.Base.{
  ℕ, ◌≡◌, ◌≢◌, ◌⊎◌, inl, inr, refl, Bool, true, false, some, [], Str, dec_str, str_eq, is_empty,
  ◌&&◌,
}
use notification_manager.Bolt.{Bolt}
use notification_manager.Outbox.Envelope.{Receipt, Envelope, json, file_name, receipt_envelope_id}
use notification_manager.Outbox.Disk.{Outbox}
use notification_manager.Outbox.Enqueue.{EnqueueDisk, already_dead, enqueue}
use notification_manager.Outbox.Deliver.{OutboxConfig, deliver_envelope}
use notification_manager.Outbox.Post.{
  Scope, Services, service, Posts, fits_scope, reply_in_scope, post_delivery_receipt, Delivery,
  invalid_payload, not_sent,
}
use notification_manager.Outbox.Places.{IsApart}
use notification_manager.Outbox.Ends.{healthy_disk}
use notification_manager.Outbox.Twice.{IsReadable, settled_once}

-- One of the fields that name the scope differs.
abbrev pub IsForeign : Scope → Receipt → Type 0
IsForeign s r =
    (r.profile_id ≢ s.expected_profile_id)
    ⊎ (r.profile_version ≢ s.expected_profile_version)
    ⊎ (r.card_owner_id ≢ s.card_owner_id)
    ⊎ (r.execution_domain ≢ s.execution_domain)
    ⊎ (r.sender_app ≢ s.sender_app)

str_eq_apart : (s t : Str) → s ≢ t → str_eq s t ≡ false
str_eq_apart s t n = elim (dec_str s t) as (λ d. elim d [ yes _ ↦ true | no _ ↦ false ] ≡ false) [
  | yes e ↦ absurd (n e)
  | no _ ↦ refl
]

and_false : (a b : Bool) → b ≡ false → (a && b) ≡ false
and_false true b e = e
and_false false b e = refl

fits_scope-IsForeign : (s : Scope) (r : Receipt) → IsForeign s r → fits_scope s r ≡ false
unfolding fits_scope
fits_scope-IsForeign s r (inl n) = rw (str_eq_apart r.profile_id s.expected_profile_id n) refl
fits_scope-IsForeign s r (inr (inl n)) =
    and_false (str_eq r.profile_id s.expected_profile_id) _
      (rw (str_eq_apart r.profile_version s.expected_profile_version n) refl)
fits_scope-IsForeign s r (inr (inr (inl n))) =
    and_false (str_eq r.profile_id s.expected_profile_id) _ (
      and_false (str_eq r.profile_version s.expected_profile_version) _
        (rw (str_eq_apart r.card_owner_id s.card_owner_id n) refl))
fits_scope-IsForeign s r (inr (inr (inr (inl n)))) =
    and_false (str_eq r.profile_id s.expected_profile_id) _ (
      and_false (str_eq r.profile_version s.expected_profile_version) _ (
        and_false (str_eq r.card_owner_id s.card_owner_id) _
          (rw (str_eq_apart r.execution_domain s.execution_domain n) refl)))
fits_scope-IsForeign s r (inr (inr (inr (inr n)))) =
    and_false (str_eq r.profile_id s.expected_profile_id) _ (
      and_false (str_eq r.profile_version s.expected_profile_version) _ (
        and_false (str_eq r.card_owner_id s.card_owner_id) _ (
          and_false (str_eq r.execution_domain s.execution_domain) _
            (str_eq_apart r.sender_app s.sender_app n))))

reply_in_scope-IsForeign :
    (s : Scope) (r : Receipt) (posts : Posts) (from_child : Delivery)
    → is_empty r.profile_id ≡ false
    → is_empty s.expected_profile_id ≡ false
    → IsForeign s r
    → reply_in_scope s r posts from_child ≡ not_sent
unfolding reply_in_scope
reply_in_scope-IsForeign s r posts from_child named scoped foreign_scope =
    rw (named, scoped, fits_scope-IsForeign s r foreign_scope, reply_in_scope) refl

post-IsForeign :
    (s : Scope) (children : Services) (r : Receipt) (posts : Posts)
    → is_empty r.profile_id ≡ false
    → is_empty s.expected_profile_id ≡ false
    → IsForeign s r
    → post_delivery_receipt (service s children) r posts ≡ not_sent
unfolding post_delivery_receipt
post-IsForeign s children r posts named scoped foreign_scope =
    reply_in_scope-IsForeign s r posts _ named scoped foreign_scope

module _ ⦃B : Bolt⦄ where
  open B use {get}

  -- A service of a scope sends no request at all for a receipt of a profile that names another scope,
  -- whatever the endpoints would answer. If the outbox is open, such a receipt is pending, no name is
  -- both pending and completed and the disk is in order, its first delivery makes it a dead letter:
  -- enqueueing it again, with the completed and pending files inspected, is refused as such and changes nothing.
  pub foreign_once :
      (hash : Str → Str) (config : OutboxConfig) (now : ℕ) (s : Scope) (children : Services)
      (posts : Posts) (e : Envelope) (o : Outbox) (disk : EnqueueDisk) (created next : ℕ)
      → IsApart o
      → o.closing ≡ false
      → e.id ≡ receipt_envelope_id hash e.receipt
      → get o.pending (file_name e.id) ≡ some (json e)
      → IsReadable disk
      → is_empty e.receipt.profile_id ≡ false
      → is_empty s.expected_profile_id ≡ false
      → IsForeign s e.receipt
      → let delivery = post_delivery_receipt (service s children) e.receipt posts in
        let o' = deliver_envelope config (healthy_disk now) delivery.1 (file_name e.id) e o in
        (delivery.0 ≡ []) × (enqueue hash disk e.receipt created next o' ≡ (some already_dead, o'))
  foreign_once hash config now s children posts e o disk created next apart open_yet is_id here ok
        named scoped foreign_scope =
      rw (post-IsForeign s children e.receipt posts named scoped foreign_scope) (
        refl,
        settled_once hash config now invalid_payload e o disk created next apart open_yet is_id here
            refl ok,
      )
