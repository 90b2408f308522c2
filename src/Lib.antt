-- ===== src/Lib.antt =====
-- The notification manager, a Go program for Kubernetes that takes in alerts and sends them to the
-- receivers of its tenants: its notification spool, and parts that stand beside it.
--
-- The program's parts. The webhook (pkg/webhook/v1) takes in requests. In the durable mode it
-- freezes, by pkg/notify, a request into a plan of targets, one for each message to be sent, and
-- submits the plan to the spool (pkg/notification_spool), a file of bbolt buckets. The workers of
-- the dispatcher (pkg/dispatcher) claim targets, send them, and report the outcome to the spool; a
-- ticker has it clean up. Operators recover and resolve targets by hand, and control the delivery
-- profiles. The spool holds the state. It and the worker are modelled here, and so are the flow
-- control that a notifier puts before the calls of its platform, the shadow relay (pkg/jevshadow)
-- with the outbox from which it reports delivered cards and the writer that puts annotations onto
-- them, the silences of the pipeline of the memory mode (pkg/silence, pkg/filter), and the handoff
-- by which the operator (controllers) moves the Service of the manager to another sender. The
-- operator's requests to the API server read and change a namespace of deployments with one
-- Service; each may fail.
--
-- What stands where.
--   Base, Base/*          numbers, byte strings and their order, lists
--   Bolt, Bolt/*          a bucket of bbolt as a parameter: its operations, the laws that the spool
--                         relies on (a bucket is a map whose cursor runs in byte order), what
--                         follows from them, and sorted association lists as an instance
--   Spool/Types           Target, Intake, Limits, Claim, the profiles, the errors, the database
--   Spool/Counter         queueKey, activeState, changeActiveCount (store.go, maintenance.go)
--   Spool/Profiles        pkg/notification_spool/profiles.go: registration, control, admission
--   Spool/Submit          Store.Submit and checkCapacity (store.go)
--   Spool/Claim           Store.Claim, Store.ClaimForRecovery
--   Spool/Finish          Store.Finish, Store.Resolve, releaseDependents
--   Spool/Cleanup         Store.CleanupCompleted (maintenance.go)
--   Spool/Health          Store.update (health.go), Store.Ready
--   Spool/Open            Open, with the takeover of an existing file
--   Spool/Calls           a call of the store as a value, and the step it makes
--   Spool/Invariant, *    the indexes and the counter of a sound database, preserved by each call
--   Spool/Lifecycle, *    the state diagram of a target, and stores that are reached
--   Spool/Claiming, Progress, Fencing, Plan, Idempotence, Dependents, Retention, ProfileLaws, Outage,
--   QueueKey              the properties of the calls
--   Spool/Examples, *     a small store and instances of the theorems
--   Dispatch/Outcome      DeliveryOutcome (pkg/utils/delivery.go), the wrapping done by SendFrozen
--   Dispatch/Budget       waitSendBudget (pkg/dispatcher/durable.go)
--   Dispatch/Worker       sendClaim, and the rounds of durableWorker over the spool
--   Dispatch/Once, Recorded, Drain
--                         what the worker and the spool guarantee together
--   Dispatch/Examples     instances of the theorems on the worker
--   Throttle/Limiter      pkg/notify/notifier/dingtalk/throttle.go
--   Throttle/Window       how many calls a limiter lets pass
--   Handoff/Types         the intent of a handoff, and labelsMatch (controllers/sender_handoff.go)
--   Handoff/Candidate     deploymentReady, formalCandidateContract
--   Handoff/Service       handoffSelector, createManagedHandoffService
--   Handoff/Backend       where the Service leads afterwards
--   Outbox/Envelope       the receipts of delivered cards, their files, and which files are readable
--                         (pkg/jevshadow/receipt.go, receipt_outbox.go)
--   Outbox/Disk           the three directories, and how a write or a move may end
--   Outbox/Enqueue, Deliver, Scan
--                         receiptOutbox.Enqueue; deliverEnvelope and retryDelay; nextEnvelope,
--                         processNext, drainPending, Close
--   Outbox/Post           postDeliveryReceipt, postObservation
--   Outbox/Places, Losses, Runs
--                         where a receipt is kept, through every operation and fault
--   Outbox/Backoff, Ends, Twice, Choice, Foreign
--                         the other properties of the outbox
--   Card/Component, Validation
--                         AnnotationComponent and its validation (pkg/jevshadow/service.go)
--   Card/State            renderCard, stableComponentKey, requestID, and checks of card_state.go
--   Card/Store            cardPersistentState, its validation, Save and Load (card_state.go)
--   Card/Writer           bindings, captureCardBinding, getCardBinding (card_writer.go)
--   Card/Apply, Requests  applyPersistentAnnotation (card_writer.go), applyAnnotation (service.go)
--   Card/Recent           LoadRecent and the quarantine, and what New does with them
--   Card/Levels, Advances, Steps, Once, Runs
--                         every patch of a card has a new revision, through crashes and restarts
--   Card/Again, Successes, Repeat, Twice
--                         a request that is sent again
--   Card/Valid, Confirms, Applies
--                         an annotation with the next revision is applied
--   Card/Policy           what a valid annotation may propose
--   Silencing/Selector    LabelSelector.Matches, LabelMatchSelector (apis/v2beta2/common.go)
--   Silencing/Active      Silence.IsActive (apis/v2beta2/silence_types.go), GetActiveSilences
--                         (pkg/controller/controller.go)
--   Silencing/Stages      pkg/silence/silence.go, and the filter stage of a receiver (pkg/filter)
--   Silencing/Schedule, Muting, Kept, Exact, Agree
--                         when a silence is active, and which alerts pass the stages
--   Throttle/Examples, Handoff/Examples, Outbox/Examples, Card/Examples, Silencing/Examples,
--   Card/FirstPatch
--                         instances of the theorems
--
-- How it is modelled. A method of Store that runs a transaction is a function from the database to
-- an error or a result with the new database; bbolt drops the writes of a transaction that returns
-- an error, so that an error carries no database. Store.update runs such a function with the error
-- of its commit, if it has one, as an argument. A string is a list of bytes. A time is a number of
-- nanoseconds since 1970, in UTC; earlier times are left out. Counters of uint64 wrap where the
-- code adds, and the code tests for underflow itself. The records of the buckets are stored as they
-- are, not as JSON, but a record that the code decodes into a variable that was in use goes through
-- `decode_into`, which keeps the fields that the stored record omits, as json.Unmarshal does. The
-- meta bucket is split by its keys. What a call finds outside (time.Now, ID, Statfs, Stat, SHA-256,
-- the test of JSON syntax) is the record Env; readings of the clock and of the random source are
-- numbered by the order of the calls in the text. Every loop of the package runs over a bucket or a
-- list and is structural recursion here, so that no fuel is needed and each definition is total. An
-- endless loop of a worker is given by its rounds. The send itself is an argument of the round:
-- whether a request was written, and the error that came back, as the tree that errors.As walks. A
-- directory of the outbox is a map from names to files, of the same interface as a bucket, since
-- os.ReadDir lists the names in byte order. Each write or rename may fail before it takes place, or
-- after, when only the directory could not be synchronised; how it ends is an argument. A crash in
-- the middle of a call is such a failure followed by a restart. A file of the outbox is taken to be
-- of at most 16 MiB, and one of the card writer of at most 32 MiB: the code writes larger ones, and
-- does not read them back. White space is that of ASCII. The maps of Go are of the interface of a
-- bucket too. SHA-256, the encodings of encoding/json and float64 are parameters of the card
-- writer, and an element of an annotation on a card is kept as what its text is made from. Regular
-- expressions, the label selectors of Kubernetes and cron are parameters of the silences, and a nil
-- map of labels is `none`; a panic is a result of its own.
--
-- Not modelled: the read-only reports of the spool (Snapshot, Status, Check, the listings of
-- profiles), the file lock and Close; the webhook, the notifiers' requests, the pipeline of the
-- memory mode apart from silences and the filter, the rest of pkg/jevshadow and of the operator,
-- which call the spool or stand beside it; the goroutines and the ticker that runDurable starts.
pub mod Base
pub mod Bolt
pub mod Spool
pub mod Dispatch
pub mod Throttle
pub mod Handoff
pub mod Outbox
pub mod Card
pub mod Silencing
