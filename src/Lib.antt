-- ===== src/Lib.antt =====
-- A verification library for mailproof, a service that accepts mail for verification from enrolled
-- submitters, analyses it, and answers with signed evidence.
--
-- The parts of the program and how they meet. Every process of cmd/mailproof opens one SQLite
-- database, whose tables internal/queue creates. internal/submitter enrols a mailbox by a mailed
-- code and gives it a secret submission address. internal/admission answers Postfix for each mail
-- to such an address and stamps what it admits. The collector enqueues a delivery with a run in
-- internal/queue; workers and reporters claim runs under leases, and finish, retry or end them.
-- internal/evidence runs the adapters and decides the verdict. Each part leaves lifecycle events
-- of internal/analytics, in the transaction of what it does.
--
-- The files:
--   Base and its children: tests, lists, tables as lists of rows, unique keys, texts, time.
--   Database: the tables of internal/queue/queue.go (Migrate) as rows, transactions, and rules for
--     properties that transactions keep.
--   Analytics: internal/analytics. Event holds NewLifecycle, Dimensions.key and InsertTx of
--     analytics.go, and Projector the rollups of projector.go; Exact and Rebuilt hold the properties.
--   Queue and its children: internal/queue/queue.go. Statements, Collections, Rejections, Claims,
--     Transitions, Attempts and CollectorLease hold the operations; Lifecycle is the state machine of
--     a run, which the operations refine (Refinement, Histories); Invariant, Choice, Granting,
--     Serving, Exclusion, Double, Retries, Repeats, Destinations and Singleton hold the properties.
--   Submitters: internal/submitter/submitter.go. Address, Statements and Service hold the
--     operations; Invariant, Preservation, Enrolment and Revocation the properties.
--   Evidence: internal/evidence (types.go, policy.go, runner.go, provenance.go). Records, Policy,
--     Runner and Provenance hold the code; Rulings, Citations, Canonical, Output and Forwarding the
--     properties.
--   Admission: internal/admission/admission.go and header.go. Requests, Rules, Decisions and Stamps
--     hold the code; Parsing, Screening, Quotas, Passes and Single the properties.
--   Reports/Submission: internal/report/reply.go (Submit). Ingress/Correlation:
--     internal/ingress/correlation.go. Budget/Limits: internal/budget/budget.go.
--   Control: internal/control/control.go. Commands and Effective hold the validation and the digest
--     of a policy, Statements, Changes and Service the two steps Preview and Confirm; Confirming,
--     Previewing, Disabling, Once and Ledger the properties, by way of Frame, Steps and History.
--   Results: internal/results/results.go. Records holds InsertRecord, Cursors the
--     cursor of a page, and Conflicts a property of records.
--   Tests: samples, and each property at a concrete input.
--
-- How the code corresponds. A table is a list of rows in the order of insertion; an operation takes
-- the database and gives the next one with a result; a transaction that fails changes nothing. The
-- clock, random bytes, HMAC, digests, address parsing, IDNA, the mailer, encoding/json and the end
-- of a process are arguments. A time is a number of nanoseconds since 1970, and `unix` its seconds.
-- Texts are UTF-8.
--
-- Bounds and fuel. Claim calls itself once more after it has recovered leases: two rounds are enough,
-- since none has expired after the first (Queue.Granting). A decimal has twenty digits, which is
-- enough for an int64. All other loops are recursions on lists or texts.
--
-- Not modelled: opening databases and running migrations; what the disk or the driver may refuse;
-- the HTTP layers, web pages and process loops; rendering, signing and the parsers of the answers of
-- external tools; queries for pages and dashboards; campaigns and indicators. They
-- are input and output, glue, or not yet reached.
mod Base
pub mod Database
pub mod Analytics
pub mod Queue
pub mod Evidence
pub mod Submitters
pub mod Admission
pub mod Reports
pub mod Ingress
pub mod Budget
pub mod Control
pub mod Results
mod Tests
