-- ===== src/Outbox/Post.antt =====
-- postDeliveryReceipt (pkg/jevshadow/receipt_outbox.go), postObservation (observation.go) and
-- scopeKey (delivery_scopes.go): the delivery that the outbox calls.
use notification_manager.Base.{
  ℕ, Bool, true, false, none, some, List, [], ◌∷◌, ◌++◌, Str, lit, str_eq, is_empty, ltb, leb, ◌==◌,
  ◌&&◌, ◌||◌, not, if◌then◌else◌,
}
use notification_manager.Outbox.Envelope.{Receipt, decimal}
use notification_manager.Outbox.Deliver.{Reply, accepted, refused}

-- The fields of the configuration that name the scope of a service.
pub record Scope : Type 0 where
  pub expected_profile_id : Str
  pub expected_profile_version : Str
  pub card_owner_id : Str
  pub execution_domain : Str
  pub sender_app : Str

-- A service and its scopeServices.
mutual
  pub data Service : Type 0 where
    service : Scope → Services → Service

  pub data Services : Type 0 where
    no_services : Services
    scoped : (key : Str) → Service → Services → Services

-- What becomes of a request: the body is not encoded, the request is not made, no response comes, or
-- a response with a status.
pub data Response : Type 0 where
  not_encoded not_made unanswered : Str → Response
  status : ℕ → Response

-- The posts of the observation and of the receipt.
pub record Posts : Type 0 where
  pub observation_post : Response
  pub receipt_post : Response

abbrev pub is_success : ℕ → Bool
is_success n = leb 200 n && ltb n 300

unfoldable pub post_observation : Response → Reply
unfolding decimal
post_observation (not_encoded e) = refused true e
post_observation (not_made e) = refused true e
post_observation (unanswered e) = refused false e
post_observation (status n) =
    if is_success n
    then accepted
    else refused ((n == 400) || ((n == 401) || ((n == 403) || (n == 422))))
        (lit "observation endpoint returned " ++ decimal n)

-- An error of the client, but no timeout, conflict, too early or too many requests.
abbrev pub is_permanent : ℕ → Bool
is_permanent n =
    leb 400 n
    && (ltb n 500 && (not (n == 408) && (not (n == 409) && (not (n == 425) && not (n == 429)))))

unfoldable pub post_receipt : Response → Reply
unfolding decimal
post_receipt (not_encoded e) = refused true (lit "encode delivery receipt: " ++ e)
post_receipt (not_made e) = refused true (lit "create delivery receipt request: " ++ e)
post_receipt (unanswered e) = refused false e
post_receipt (status n) =
    if is_success n
    then accepted
    else refused (is_permanent n) (lit "receipt endpoint returned " ++ decimal n)

-- A request that was sent to an endpoint.
pub data Request : Type 0 where
  observation_request receipt_request : Request

-- A body that is not encoded and a request that is not made are not sent.
abbrev pub sent : Request → Response → List Request
sent q (not_encoded e) = []
sent q (not_made e) = []
sent q (unanswered e) = q ∷ []
sent q (status n) = q ∷ []

-- The requests in their order, and the reply.
abbrev pub Delivery : Type 0
Delivery = List Request × Reply

abbrev pub send_receipt_only : Response → Delivery
send_receipt_only r = (sent receipt_request r, post_receipt r)

abbrev pub after_observation : Reply → List Request → Response → Delivery
after_observation accepted before r = (before ++ sent receipt_request r, post_receipt r)
after_observation (refused permanent message) before r = (before, refused permanent message)

-- The observation goes first.
unfoldable pub send_receipt : Receipt → Posts → Delivery
unfolding post_observation post_receipt
send_receipt r posts = elim r.observation [
  | none ↦ send_receipt_only posts.receipt_post
  | some o ↦
      after_observation (post_observation posts.observation_post)
        (sent observation_request posts.observation_post) posts.receipt_post
]

abbrev pub invalid_payload : Reply
invalid_payload = refused true (lit "invalid annotation payload")

abbrev pub not_sent : Delivery
not_sent = ([], invalid_payload)

abbrev pub scope_key : Str → Str → Str
scope_key id version = id ++ (lit ":" ++ version)

unfoldable pub fits_scope : Scope → Receipt → Bool
fits_scope s r =
    str_eq r.profile_id s.expected_profile_id
    && (str_eq r.profile_version s.expected_profile_version
        && (str_eq r.card_owner_id s.card_owner_id
            && (str_eq r.execution_domain s.execution_domain && str_eq r.sender_app s.sender_app)))

-- `from_child` is what the service of the receipt's scope does.
unfoldable pub reply_in_scope : Scope → Receipt → Posts → Delivery → Delivery
unfolding send_receipt fits_scope
reply_in_scope s r posts from_child =
    if is_empty r.profile_id
    then send_receipt r posts
    else if is_empty s.expected_profile_id
    then from_child
    else if fits_scope s r
    then send_receipt r posts
    else not_sent

unfoldable mutual
  unfolding reply_in_scope

  pub post_delivery_receipt : Service → Receipt → Posts → Delivery
  post_delivery_receipt (service s children) r posts =
      reply_in_scope s r posts
        (post_to_scope children (scope_key r.profile_id r.profile_version) r posts)

  pub post_to_scope : Services → Str → Receipt → Posts → Delivery
  post_to_scope no_services key r posts = not_sent
  post_to_scope (scoped k s rest) key r posts = elim (str_eq k key) [
    | true ↦ post_delivery_receipt s r posts
    | false ↦ post_to_scope rest key r posts
  ]
