-- ===== src/Lib.antt =====
-- vps-billing-codex sells virtual servers: users order plans, a payment gateway reports captured
-- payments by webhooks, subscriptions live through renewals, grace periods and cancellation, and
-- workers provision the servers. All state is in PostgreSQL; every service is a set of transactions
-- over it, and services tell each other what happened by events in an outbox table.
--
-- The development follows the backend, package by package:
--   Shared                   what the packages share: tests, integers, a table as a list of rows
--                            (Shared.Table, Shared.Keys) and a database session (Shared.Tx)
--   Store                    the rows of backend/internal/store/sqlc/models.go and the database
--   Subscription             backend/internal/subscription/repository.go: decideLifecycleTransition,
--                            ProcessBatch, createEvent, SetCancelAtPeriodEnd, subscriptionView
--   Subscription.Lifecycle   what a lifecycle decision is
--   Subscription.Batch       the worker's batch
--   Subscription.Cancel      the owner's switch
--   Operation                backend/internal/operation/repository.go (Claim, UpdateProgress, Succeed,
--                            Fail, ScheduleRetry, RecoverStuck, mutate, complete, createEvent) and
--                            RetryScheduler of queue.go; its queries, from
--                            backend/internal/store/sqlc/operation.sql.go, in Operation.Statements
--   Operation.Queue          processMessage of queue.go, over the registry of workflows, which is an
--                            argument: the workflows are other packages' code
--   Operation.Create         Create, replayOperation and UpdateStep of repository.go, validation of
--                            requests, and Execution.Step of workflow.go
--   Operation.Create.New     a new request, Operation.Create.Again a repeated one, and
--                            Operation.Create.Busy the actions on one instance
--   Operation.Aside          what Progress and Step leave alone
--   Operation.Claim          one claim, and the end of an execution
--   Operation.Message        a message from the claim to the end
--   Operation.Final          finished operations under any sequence of calls
--   Infrastructure           Scheduler of backend/internal/infrastructure/scheduler.go (Reserve, Commit,
--                            Release, changeStatus), with its queries of
--                            backend/internal/store/sqlc/infrastructure.sql.go in
--                            Infrastructure.Statements
--   Infrastructure.Room      what a node promises against what it has
--   Infrastructure.Again     repeated calls
--   Commerce.Ledger          validateBalanced of backend/internal/commerce/repository.go
--   Commerce.Payment         CompletePayment of the same file, with its statements of
--                            backend/internal/store/sqlc/commerce.sql.go and subscription.sql.go in
--                            Commerce.Payment.Statements
--   Commerce.Payment.Atomic  its errors
--   Commerce.Payment.Once    repeated webhooks
--   Commerce.Payment.Books   the ledger under it
--   Commerce.Payment.Steps   its steps while the database answers
--   Commerce.Payment.Capture the webhook that captures
--   Commerce.Order           CreateOrder, CreateRenewalOrder and EnsureWallet of the same file
--   Outbox                   ProcessBatch of backend/internal/outbox/dispatcher.go
--   Outbox.Batch             a batch that Redis takes, Outbox.Refused one that it refuses in part
--   Outbox.Lost              marked events under any failure, over Outbox.Sent and Outbox.Agree
--   Provider                 the contract of backend/internal/provider/provider.go
--   Provision                EnsureForPaidOrder of backend/internal/provision/repository.go, with its
--                            statements of backend/internal/store/sqlc/provision.sql.go in
--                            Provision.Statements
--   Provision.Ensure         one call and a repeated one, over Provision.Frame, Provision.Covered and
--                            Provision.Items; Provision.Atomic its errors
--   Provision.Finalize       Context, Placement, SetPlacement, SetProviderResult, SetError and Finalize
--                            of repository.go, and process of trigger.go
--   Provision.Fulfilled      fulfilled orders under Finalize
--   Provision.Workflow       Execute and handleProviderError of backend/internal/provision/workflow.go
--   Provision.Activates      a run that ends without an error, over Provision.Active
--   InstanceAction           backend/internal/instanceaction/workflow.go, with its queries of
--                            backend/internal/store/sqlc/portal.sql.go
--   InstanceAction.Settles   a run that ends without an error, over InstanceAction.Steps
--   Security                 backend/internal/security: session.go, password.go and totp.go
--   Security.Codes           the windows of TOTP codes
--   Security.Passwords       what Verify makes of a hash, over Security.Parts on strings.Split
--   Identity                 Service of backend/internal/identity/identity.go; its repository.go in
--                            Identity.Repository, the queries of
--                            backend/internal/store/sqlc/identity.sql.go in Identity.Statements
--   Identity.Revoked         revoked sessions under any calls (Identity.Calls), over Identity.Rows,
--                            Identity.Kept and Identity.Services
--   Identity.Login           what a login of an admin has checked, Identity.Opened what a user's gives
--
-- The outbox carries the events from one part to the next: a captured payment queues an event, which the
-- trigger of Provision turns into operations; the workers of Operation run them as workflows, of which
-- Provision.Workflow and InstanceAction are two; the first reserves capacity through Infrastructure.
--
-- A method of a repository is a `do` block in the monad of Shared.Tx, whose world holds what the
-- session sees, what is committed, the clock, and which statement the driver fails at: BeginTx, Commit
-- and the deferred Rollback are those of the source, and a theorem without `IsUp` holds whatever
-- statement fails. A query is a function on the list of rows that its SQL reads or writes, with the
-- unique indexes that can refuse a row. The row locks that other sessions hold matter for
-- FOR UPDATE SKIP LOCKED only, and are a function of the world; a session that waits for a lock reads
-- the row after the other one has ended, so a transaction runs alone. A commit that fails has not
-- committed: that the connection may be lost after it is not modelled. Go's time.Now() and PostgreSQL's
-- now() are one clock, which stands still during a call. The payload of a webhook is kept as it came,
-- where a jsonb column normalises it; foreign keys refuse nothing.
--
-- Numbers: uuids and times are natural numbers (a time in nanoseconds since any fixed start, which
-- is that of Unix time for the codes of Security), amounts are integers, and sums of amounts wrap
-- around at 64 bits where the source adds them. A null is `none`. newID never gives a value twice.
-- Loops are structural recursion on lists; there is no fuel. strings.ToUpper, encoding/json and
-- PostgreSQL's intervals are the record `Library` that the payment code takes as an argument, and
-- PostgreSQL's jsonb @> and numeric quotient the record `Postgres` of the scheduler; nothing is
-- assumed of them. JSON payloads of events are data; encoding/json does not fail on them.
--
-- The provisioning code takes PostgreSQL's interval arithmetic, uuid.NewSHA1 and netip.ParseAddr
-- as the record `Names`, and the texts of errors, encoding/json and the registry of providers as
-- the records `Library` of Provision.Workflow and `Surroundings` of InstanceAction. The accounts
-- have a database of their own, `Accounts`, since no statement reads them together with the other
-- tables. Cryptography, encodings and crypto/rand are the record `Crypto`; what a theorem needs of
-- them stands among its hypotheses.
--
-- Not modelled: HTTP handlers, configuration, wiring, the clients of the providers, the gateway of the
-- agents, and the queries that only list rows for display. Operations change state in these parts too,
-- which the model leaves out: reconciliation, the services of the admin and user portals, the rate
-- limiter (a script for Redis) and the audit log.
pub mod Shared
pub mod Store
pub mod Outbox
pub mod Subscription
pub mod Operation
pub mod Infrastructure
pub mod Commerce
pub mod Provider
pub mod Provision
pub mod InstanceAction
pub mod Security
pub mod Identity
