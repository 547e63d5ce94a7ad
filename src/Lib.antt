-- ===== src/Lib.antt =====
-- The verification library of verdant, the building controller whose owners journal, gate and recover
-- commands to field devices. It models the decisions and the durable state, not the processes, sockets
-- and child commands around them.
--
-- The program's parts and their files:
--
-- Domain: src/domain. Domain/Errors is the error of mod.rs, Domain/Ids the validation of identities
-- (ids.rs), Domain/Clock the monotonic marks and time triples (clock.rs), Domain/Json the values, the
-- canonical text and the parser of json.rs, with Strings for its strings, Readers for the reading of fields,
-- Progress and Termination for the proof that it answers, and RoundTrip for texts that are read back.
--
-- Observation/Time: src/observation/time.rs, the evidence and the freshness of a value; Floor and Assess
-- hold its proofs. Observation/Records: the records of observation/mod.rs, identity.rs and normalize.rs.
-- Observation/Receiver and Observation/Index: src/observation/index.rs, the first the state and the starting
-- and resuming of producers, the second bindings, records and current values. Receiver/Ledgers is about
-- the ledger alone; Index/Histories runs any sequence of calls, and Identity, Fence, Currency and Bounds are
-- about such runs.
--
-- Action/Expiry: src/action_expiry/policy.rs. Action/Dispatch: src/action_dispatch/lifecycle_decision.rs.
-- Action/Wall relates the deadline walls that expiry, the journal and dispatch each compute.
--
-- Action/Journal: src/action_journal. Journal.antt has the types and checks, Tables the SQL tables of
-- migrations/sqlite/0004 to 0006 and what the batches do to them, Rows the reading back, Writer the
-- operations `prepare`, `submit`, `reconcile` and `transition`, Pages the bounded pages. Steps runs any
-- sequence of submits and transitions; Order, Rate, Final and Answers are about such runs.
--
-- Action/Recovery: src/action_recovery/decisions.rs. Action/Custody: src/action_custody/policy.rs, with
-- Holds and Transfers. Action/Publication: src/action_publication/policy.rs, over the impact of one effective
-- configuration on another in Accept/Effective: src/accept/effective.rs; Impact composes the two.
--
-- Accept: src/accept. Store has the requests, the rows of both chains and the reading of the accepted one, of
-- mod.rs and store.rs; Tickets the batches that add a row, with their guards, and the store's answers; Acceptance
-- how store.rs prepares, submits and reads back; Activation and Activate the same for activation.rs. Histories runs
-- any sequence of these calls. Chains: what the readers make of rows in order; Growth, Outcomes, Landing,
-- Invariant, Additions, Accepting and Runs lead to Order, which is about such runs. Recovery: what an answered
-- activation leaves for a later reading; Remembering is about receipts, Kept about each call.
--
-- Access: src/access. Access.antt has the errors, texts and credentials of mod.rs, Policy the policies of
-- context.rs, Descriptor the text of the admission rows, Records the rows and the snapshot of state.rs,
-- Gate and Entry the operations of gate.rs, Histories any sequence of attempts to change the rows.
-- Records/Checks, Entitlement, Boundary, Progress, Succession, Revocation, Authority, Grants and Rotation are about
-- them.
--
-- Storage/Mutation: src/storage/sqlite/mutation.rs, tickets and receipts; Receipts is about runs, Outcomes
-- and Reconcile about answers. Its section takes `exec`, what SQLite does with a body inside a transaction, and
-- `decode_row`, the decoder of an outbox row. Storage/Encoding: the hex text of responses in mutation.rs and
-- the quoting of sqlite/mod.rs, with RoundTrip. Storage/Outbox: the queue of src/storage/sqlite/mod.rs over the
-- tables of migrations/sqlite/0001; Claims is about one claim, Queue and Lifecycle about histories. The order in
-- which SQLite returns the rows of a claim is an input.
--
-- Runtime/Admission: src/runtime/admission.rs, with Accounting. Runtime/Quarantine:
-- src/runtime/bacnet/quarantine.rs, with Bounds. Runtime/Modbus:
-- src/runtime/modbus/model.rs, with Reads. Runtime/Mapping: src/runtime/modbus/mapping.rs, with Decode.
-- Runtime/Subscription: src/runtime/bacnet/cov.rs, with Coverage.
--
-- Base has the shared helpers; Tests the concrete runs.
--
-- How the parts meet: the journal commits through the store's tickets; in Action/Journal the outcome of a
-- ticket is an input, `Fate`, and Storage/Mutation models the ticket itself. Recovery classifies the
-- store's outcomes. Custody compares the journal's rows with previews. The access gate's
-- batches carry their snapshot as a guard; the store's answer to one is again an input. Those of the
-- acceptance chains count the rows they extend; whether the guards on other owners' rows hold is an input.
-- The candidate table takes its slots from the runtime's budget.
--
-- Bounds: numbers of the source are native numbers, with the checks of checked_add and its kin written
-- out; signed seconds and milliseconds are integers with the range of i64 checked where the source
-- checks it. Lists are unbounded where the tables are. Every loop is a recursion on a list but the JSON
-- parser, whose calls each cost a unit of fuel: two for each byte of the text and two more.
--
-- Not modelled: the processes, files and network clients; the text of SQL and of decimals, whose
-- values are typed here; the binding, preview, seal and API owners; staging; the samples of a subscription;
-- the durable observation window. Each call of an owner is one step, but that access and acceptance may
-- prepare a batch on older rows, and that a transition of the journal may have read older tables than its batch
-- runs on. What a submit reads back behind its commit is what the commit left.
pub mod Accept
pub mod Access
pub mod Action
pub mod Base
pub mod Domain
pub mod Observation
pub mod Runtime
pub mod Storage
pub mod Tests
