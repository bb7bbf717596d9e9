-- ===== src/Lib.antt =====
-- Verification library of the unified API service: a server that receives what happens on social
-- platforms, queues what a business answers, sends it through the platforms' API, and keeps roles
-- and rewards. The models are translations of the TypeScript source and of the SQL that its
-- repositories run; each file names the source it is about.
--
-- The parts and how they meet. Prelude holds the shared tests, lists and texts. Outbound is the
-- ledger of things to send: the inbox enqueues a row, a relay worker claims it under a lease, calls
-- the platform and settles it, a reaper takes lapsed leases back, a reconciler reads sends of
-- unknown outcome back, and a sweep removes old rows. Relay is that worker over the ledger, the
-- messages (Messages) and the channels with their credentials (Channels); it reads an error of the
-- platform by Graph and times its retries by Backoff. Inbound is the ledger of what the platforms
-- deliver. ReplyWindow says whether a conversation can be answered. Wallet keeps reward balances
-- and their entries. Rewards is what decides and grants: an event meets the rules of its kind, a
-- rule whose conditions hold makes one award and claims a slot of its cap, its benefits are posted
-- to the wallets now or when a hold ends, and points that are credited are offered to the rules of
-- thresholds; deleted content takes awards back. Verification issues and checks one-time codes, and
-- Sessions keeps who is signed in. Poller is the timer loop that runs each worker. Rbac holds the
-- rules on roles, employees, conversation codes and the guard of every route.
--
-- Outbound, Outbound/Queue, Outbound/Settle, Outbound/Replay, Outbound/Sweep:
--   src/database/repositories/outbound-event.repository.ts. enqueue, claimDueBatch, markSent,
--   stillHoldsLease, markFailed, markRateLimited, cancel, cancelAmbiguous,
--   listAmbiguousAwaitingReadBack, markReadBackResolved, findDeadModerationEvent,
--   findFailedModerationCommentIds, requeueDeadLettered, reclaimExpiredLeases and
--   deleteSettledBefore are the functions of the same names in lower case with underscores. A row
--   is the record OutboundEvent, the table the record Ledger.
-- Outbound/Steps, Rows, Pointwise, Consistency, Trace: any statement by anybody as a step, the
--   invariant, and what one step does to one row. Outbound/Terminal, Holding, Fencing, Leases,
--   Claiming, Enqueueing, CrashLoop: what follows.
-- Relay, Relay/Sending, Relay/Settling, Relay/Delivery: src/workers/outbound-relay.worker.ts.
--   send is plan, settleAsFailed is settle_as_failed, handleSendFailure is handle_graph_error and
--   handle_other_error, deliver and pollOnce are deliver and poll_once. Relay/Calls, Outcome,
--   Agreement, Doubt, Credentials, Parking: their theorems.
-- Channels: findSendContext of src/database/repositories/channel.repository.ts and
--   markReauthRequired of src/database/repositories/provider-connection.repository.ts. Messages:
--   recordDelivery of src/database/repositories/message.repository.ts.
-- Graph: src/modules/connections/graph/graph-api.error.ts and graph-error.mapper.ts. Backoff:
--   src/modules/ledger/backoff.util.ts.
-- Inbound: src/database/repositories/inbound-event.repository.ts; Inbound/Budget, Claims and
--   HandOuts: its theorem. ReplyWindow: src/modules/inbox/reply-window.ts.
-- Wallet: src/database/repositories/reward-wallet.repository.ts, over the integers of
--   Wallet/Integers. Wallet/Rows, Books, Replays: their theorems.
-- Rewards: the kinds of src/shared/enums/reward.enum.ts, the rows of
--   src/database/repositories/reward-rule.repository.ts and reward-program.repository.ts and
--   src/modules/rewards/trigger-match.util.ts. Rewards/Conditions: src/modules/rewards/conditions.
--   Rewards/Factors and Periods: factor.provider.ts and period-key.util.ts beside them; days are
--   counted, not looked up. Rewards/Matching: findMatchingRules and findById of the two
--   repositories, and what the evaluator is given (Setting).
-- Rewards/Ledgers, Awards, Entitlements: the tables and statements of
--   src/database/repositories/reward-award.repository.ts and reward-entitlement.repository.ts.
--   Rewards/Benefits: src/modules/rewards/benefits and benefit-dispatcher.service.ts.
-- Rewards/Grants and Evaluator: src/modules/rewards/rule-evaluator.service.ts; evaluateRule is
--   cut where it returns early into evaluate_in, after_creation, from_cap, claim_and_settle and
--   settle. Rewards/Granting: src/modules/rewards/reward-grant.service.ts. A transaction that
--   throws is none and leaves nothing behind.
-- Rewards/Conditions/Windows, Factors/Bounds, Periods/Weeks, Awards/Caps and Sources,
--   Grants/Slots, Evaluator/Depth, Steps, Limits and Once, Benefits/Undoing, Granting/Sweeps,
--   Reversals and Holds, Engine: the theorems on rewards. Steps shows once, of any property of the
--   tables that each statement keeps, that the evaluation keeps it.
-- Verification: src/database/repositories/verification.repository.ts. Verification/Codes: issue,
--   verify, verifyByDestination and resend of src/modules/auth/verification.service.ts; verify is
--   cut after its read, so that other requests can come between (verify_row). Verification/Runs,
--   Guesses, Acceptance, Issuing, Resending: their theorems.
-- Sessions: src/database/repositories/session.repository.ts, with issueSession and logout of
--   src/modules/auth/auth.service.ts as far as the table goes. Sessions/Newest: its theorem.
-- Poller: src/workers/base-poller.ts. tick is cut at its await into tick and finish_tick; fire
--   is the callback of a timeout. Poller/Loop, Waking: its theorems.
-- Rbac/Authority, Rbac/Lifecycle, Rbac/Conversations, Rbac/Guard: src/shared/rbac/authority.ts,
--   employee-lifecycle.ts and conversation-permissions.ts, and
--   src/shared/guards/permissions.guard.ts.
-- Rbac/Owners: setStatus and assertNotLastOwner of src/modules/employees/employees.service.ts
--   and setEmployeeRoles of src/modules/roles/roles.service.ts, over what they read of
--   src/database/repositories/role.repository.ts. A transaction is one step, as the lock on the
--   owner role makes it; what the request read before it is an argument. Rbac/Owners/Others,
--   Transactions, Remaining: their theorem.
-- The files named Tests apply each theorem to concrete data.
--
-- Conventions. A statement of SQL is one atomic step on a table; NULL is none, and a comparison
-- with NULL fails. A time is a number of milliseconds, and now() an argument. Ids are natural
-- numbers and an id sequence is a field of the table. A list stands for a set where only membership
-- matters. No row lock is held by another transaction, so SKIP LOCKED skips nothing; a row that it
-- would skip is one that another claim has just taken. The order in which a subquery without ORDER
-- BY meets its rows is an argument. Sorting is by insertion, and stable. Recursion is structural
-- everywhere; the only fuel is in the decimal printer of Prelude/Decimals, where n + 1 rounds print
-- n because each round divides by ten, and in onTriggerEvent, which calls itself through
-- offerBalanceThresholds: on_trigger_event takes the depth of calls, and depth 2 is shown to be
-- enough, as depth 1 is for the sweep of held awards.
--
-- What is an argument of the models: the table of time zones, the folding of letters, the sizes and
-- forms that a schema bounds, the drawn codes, the keyed hash of a secret, the platform's response
-- to a call, the token cipher, the measured share of the platform's allowance, the random draw of a
-- jitter, what other workers do to the ledger during a call, and whether a write after a send
-- fails. What is not modelled: the transport and parsing of webhooks and of the Graph API, the
-- projectors, the management of reward programs, the rest of signing in, catalogue and reporting,
-- and two concurrent statements with one idempotency key on the wallets, which the source describes
-- as its limit.
pub mod Prelude
pub mod Rbac
pub mod Outbound
pub mod Graph
pub mod Channels
pub mod Messages
pub mod Relay
pub mod Sessions
pub mod Verification
pub mod Wallet
pub mod Rewards
pub mod Poller
pub mod ReplyWindow
pub mod Inbound
pub mod Backoff
