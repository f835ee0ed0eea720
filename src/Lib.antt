-- ===== src/Lib.antt =====
-- PGID, the single sign-on service of apps/sso/worker: its alert rules and the alerts that they
-- open, its recovery codes, its back-channel logout deliveries and its access control. TypeScript
-- over Cloudflare D1; each part is a directory here.
--
-- Alert (apps/sso/worker/alert-rules.ts). Types has the vocabulary, Definitions the rule table
-- ALERT_RULE_DEFINITIONS, Observation the parsed observations and knownQueueSnapshot, Bags
-- metricsForObservation, Expression evaluateExpression, Evaluate evaluateWindowThresholds,
-- selectedEvidence and evaluateAlertRule after parsing, Metrics the parsers of the metrics of a
-- window, Parsing parseAlertObservation and evaluateAlertRule itself, Evidence
-- parseAlertSelectedEvidence, Contracts evidenceContractsFor and
-- parseAlertSelectedEvidenceForRule. Kleene gives threshold expressions a meaning, Totality bounds
-- the evidence, Known is about expressions whose metrics are known, Windows, Verdicts, Severity
-- and Decided reduce an evaluation to its windows, and Rules, Sampled and Queue are about whole
-- observations. Ranges and Parsed are about what the parsers of observations let through,
-- Consistent, Accepting and Admitted about what exactly they accept and return, Storable about the
-- bags of parsed observations; Covers, Emitted, Proven, Canonical, Accepted, Kept and Roundtrip
-- follow selected evidence from the thresholds back through its parser.
--
-- Lifecycle (apps/sso/worker/alert-evaluator.ts): the state machine of one alert, on the
-- evaluations of Alert. Lifecycle itself is the stored state, Checks parseState, Intents the
-- intents and stableActiveResult, Advance advanceAlertLifecycle with a function for each of its
-- stages. Alarm, Checked, Shapes and Accepts describe the accepted states, Stable, Breach, Steps
-- and Evolution carry them through a step, Actions, Accounts and Announced are about the intents
-- of a step, History, Opening and Resolving about many steps.
--
-- Recovery (apps/sso/worker/recovery-codes.ts): Recovery itself is encodeRecoveryPayload,
-- displayRecoveryCode, canonicalRecoveryCode and generateRecoveryCodeSet; Encoding is about the
-- encoder, Reading about what is shown and read back, Sets and Drawing about a generated set.
-- Bytes and characters are numbers, a text is the list of its code units, and the encoder's word
-- of 32 bits is a number below 2^32; the random bytes and SHA-256 are arguments.
--
-- Durable (apps/sso/worker/durable-delivery.ts): the retry schedule that queued work shares, with
-- Durable/Policy on its delays.
--
-- Logout (apps/sso/worker/logout-delivery.ts, global-logout.ts, admin-logout-deliveries.ts over
-- apps/sso/migrations/0018_global_logout.sql). A store is the two delivery tables and the audit
-- rows of replays. Worker is recoverExpiredLogoutDelivery, Claim claimLogoutDelivery, Persist
-- postLogoutToken, persistAttemptResult and consumeLogoutDeliveryMessage, Outbox
-- logoutOutboxStatement and the replay route, Dispatch enqueueDueLogoutDeliveries. A D1 batch is
-- one atomic step, and what a batch has written stays written when the code throws after it.
-- Schema has the CHECK constraints, Transactions and History carry them through every order of
-- these operations; Exclusive and Fencing are about leases, Claiming, Committing and Progress
-- about the life of a delivery that is due, Recovering and Crash about a worker that is lost,
-- Replaying about replays. Claim and Persist take their retry policy from Durable.
--
-- Access (apps/sso/worker/roles.ts, account-access.ts, config.ts, admin-gate.ts, registration.ts):
-- Access itself is the role tables and effectivePlatformRole, Gate requireAdminPermission,
-- Registration authorizeRegistration, SignIn assertSessionUserActive, Hierarchy and Directory the
-- order of the roles. Gate reads the roles of Access. The model of normalizeEmail lower-cases
-- ASCII letters and trims white space up to U+00A0, where the source follows Unicode.
--
-- Numbers are natural numbers: the source accepts a count only as a non-negative safe integer, and
-- its products are BigInt or below 2^53; the one quotient of two numbers, in parseMetricEvidence,
-- is of at most 10^10 by at most 10^6, where Math.floor of the double is exact. Times are
-- milliseconds since 1970; a canonical UTC timestamp is compared as such a number, since its text
-- has a fixed width. Identifiers (UUIDs, keys, URIs, users) are numbers, and those that
-- crypto.randomUUID makes are arguments. The inner loop of the recovery encoder has as many rounds
-- as it has bits, where each takes five, and Encoding shows that it has ended then; the generation
-- of codes goes over the list of its draws, and the other loops of the code over finite lists.
--
-- Not modelled: the checks of exactRecord and of the types of untyped values in alert-rules.ts and
-- alert-evaluator.ts, whose records stand as records of these types; the text of timestamps and of
-- HMAC references, whose key version is always 1; the source descriptors of the rules;
-- alertWindowsAt, whose windows the evaluation drops and whose check of asOf the parser has
-- already made; UNIQUE constraints and foreign keys of the schema, of which the uniqueness of a
-- delivery key is a hypothesis where it matters; the format of URIs; the trigger of audit_event,
-- whose row auditEventMutationCommitted counts; token signing, HTTP and the queues, whose answers
-- are arguments; logging; the repositories that build observations or store the state of alerts,
-- the audit archive, recovery sessions, the routes of recovery codes, the user interface and the
-- routes.
pub mod Recovery
pub mod Common
pub mod Alert
pub mod Lifecycle
pub mod Durable
pub mod Logout
pub mod Access
