-- ===== src/Lib.antt =====
-- Verification of the SiteProof backend (backend/app): the queue of processing jobs, the trust
-- engine, the movement challenges, the verification sessions, the inspections, the evidence upload,
-- the automated results with their review, the signed receipts, and the processing pipeline.
--
-- The parts and how they interact. An administrator assigns an inspection to an inspector, who
-- acknowledges it and marks it ready (Inspections). The inspector's phone opens a session and
-- starts a capture at the site (Sessions), answers the server's movement challenges (Challenges),
-- completes the capture and uploads the evidence. The end of the upload (Uploads) enqueues a job,
-- which a worker claims, runs and completes or retries (Jobs). The job is one run of the pipeline (Pipeline): the analyses, the
-- calculation of the result (Results), and its receipt (Receipts). For the result the trust engine
-- turns the signals of the analyses into a score and a verdict, which the security gate can only
-- lower (Trust). A reviewer then decides on the inspection (Results).
--
-- Jobs: backend/app/services/processing_queue.py, backend/app/models/processing_job.py and
--   process_one of backend/app/worker.py. Job is the row and its changes, Table the rows and the
--   queries, Queue the operations (enqueue, claim, recover, heartbeat, mark_succeeded,
--   mark_failed), Worker the worker. Rows, Moves, Carries and Writes are what the operations do to
--   a row; Trace, Claims, Fencing, Enqueue and Backoff prove the properties. `locked` is the set of
--   rows that SKIP LOCKED passes over, and `won` the rows that others commit between the query and
--   the insert of an enqueue.
-- Trust: backend/app/services/verification/domain.py, scoring.py, policy.py and security_gate.py,
--   with the enumerations of backend/app/models/trust.py. Domain is the data, Scoring and Rules and
--   Decision are scoring.py, Policy is policy.py and Gate is security_gate.py; Verdicts, Bounds,
--   RuleLaws and GateLaws prove the properties. A dictionary that the code builds from a list is
--   the list of its values in the order of insertion (Prelude.Dict).
-- Challenges: backend/app/services/challenges/service.py, the candidates of generator.py and
--   backend/app/models/challenge.py. Challenge is the row, Rows the rows of a session and the
--   code's counts, Service is issue_next_challenge and start_challenge, Submit is submit_challenge.
--   Sequence, Counts and Places state the order of the rows and what it makes of the counts, Lookup
--   finds rows, Invariant and Writes keep the order, Trace, Completion and Resubmission prove the
--   properties. The validators, the hash of the evidence and the rounding of timedelta are
--   arguments (Tools); so are what the random sources choose (Fresh).
--   A nonce is ASCII text: on any other hmac.compare_digest raises, where the model's reply is a 409.
-- Sessions: backend/app/services/session_common.py, session_creation.py, session_capture.py and
--   the session of backend/app/models/verification.py. Session is the row, Site the tables and the
--   access checks, Creation and Capture the handlers; OneActive, Exclusive, StartLaws and
--   CaptureLaws prove the properties. The inspection of a Site is the row that the handler loads.
--   haversine_meters is an argument.
-- Inspections: backend/app/services/inspection_service.py, backend/app/models/inspection.py and
--   assignment.py. Service has the administrator's handlers, Progress the inspector's, Lifecycle
--   the properties.
-- Results: backend/app/services/verification/service.py and review.py, and the stored policies of
--   policy.py, with the results, signals and reviews of backend/app/models/trust.py. Result and
--   PolicyRows are the rows, Store the tables, Calculation the parts and Service the whole of
--   calculate_verification, Review is create_review_decision. Ledger is the abstract view: a
--   decision under each key (session, policy, version, engine), written once. Rows, Written and
--   Settles show that a calculation refines it, Outcomes states it; Kept and Trace are about runs of
--   calculations and reviews, Decides and Stored about what a calculation returns, ReviewLaws about
--   a review, Policies about the rows of policies. `Inputs` has what a call reads besides the
--   tables: the signals that SignalCollector returns, the rows of the analyses, the clock and the
--   ids. An exception that is no SiteProofError is an Outcome.
-- Receipts: backend/app/services/receipt_service.py and receipt_crypto.py, with
--   backend/app/models/receipt.py. Receipt has the rows, Crypto the signatures, Service the keys
--   and the issue, Integrity the verification and the revocation. Issued, Keys and Validity show
--   what an issue leaves, Trace and Kept what any run of issues and revocations keeps. `Crypto` is an
--   interface for hashlib, base64, Ed25519 and the canonical JSON text; IsCrypto names what is
--   assumed of it. The fields of a receipt that the code forbids to change are one record, Sealed.
-- Uploads: backend/app/services/evidence_upload_service.py, with the required types of
--   evidence_common.py and the evidence of backend/app/models/verification.py. Evidence is the row,
--   Accept is accept_evidence_upload over the interface of storage_service.py, Complete is
--   complete_evidence_upload, which commits the session and the job as one; Stored and Queued have
--   the properties. accept_evidence_upload commits twice, and no other request runs between. The
--   check of the stored files, validate_uploaded_evidence, is an argument.
-- Pipeline: backend/app/services/processing_pipeline.py. Run is the pipeline with the four analyses
--   as arguments, Success what follows when it raises nothing, and for the job that the worker
--   completes.
--
-- Conventions. A handler is one transaction: a function from the rows that it reads to its reply
-- and the rows that it commits. What the code raises before a commit leaves the rows as they
-- were. A reply is a value or the HTTP status and code of a SiteProofError (Prelude.Reply). The
-- several calls of utc_now in one handler are one time `now`. Times are microseconds, so a
-- duration in seconds is multiplied out; numbers are natural numbers without a bound, since
-- Python's are, and where the code subtracts, the comparison is written with sums or follows the
-- test that keeps the difference from being negative. Floats are an interface (Prelude.Float) with
-- the operations that the code uses; what is assumed of them is named in IsFloat, which a model over
-- millionths satisfies. No function needs fuel: all recursion is on lists.
--
-- Not modelled: the audit records and the responses, which no handler reads; the routes, schemas
-- and settings; the initiation of an upload, the sealing and the deep check of the evidence's
-- manifest, the collectors, the vision, fusion and advanced security analyses, the review queue,
-- the storage, and the Android and web applications.
pub mod Prelude
pub mod Jobs
pub mod Trust
pub mod Inspections
pub mod Sessions
pub mod Challenges
pub mod Results
pub mod Receipts
pub mod Pipeline
pub mod Uploads
