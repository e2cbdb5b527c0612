-- ===== src/Lib.antt =====
-- Verification of EbookAutomation: of its web service, the paid conversion of ebooks from the
-- purchase of tokens to the delivery of the converted book, and of its book filer, which moves the
-- books of a library as a signed manifest says.
--
-- The program's parts. A Stripe event mints tokens for a paid session; a token pays for one
-- premium conversion; the routes validate an upload or a parent job, consume the token, create
-- a job and hand it to the queue; the queue runs the pipeline, settles the job and gives the
-- token back if the job failed; a sweep expires jobs; a finished EPUB may be mailed to a Kindle
-- address, and the mail provider's events follow its delivery. All state is in SQLite tables,
-- shared by the handlers, and in the process-local circuit breaker. The book filer is a program
-- of its own: behind its gates it moves the rows of a manifest one by one, with an intent in the
-- journal before each move and a commit after it, so that a run can be resumed or undone.
--
-- The files, and what each models:
--   Common, Sql, Raises: shared names and lemmas; SQL statements on lists of rows in rowid
--     order; results that may be an exception.
--   Crypto: what web_service/crypto.py gives, as a parameter. HMAC-SHA256 and Fernet are
--     packages: of Fernet it is assumed that decryption undoes encryption under the same key, of
--     `bytes.hex` that `bytes.fromhex` undoes it.
--   TokenFormat: web_service/token_validation.py and the pattern of web_service/token_store.py.
--   TokenStore: web_service/token_store.py. Schema, Mint, Consume, Refund, Lookup and FailedMints
--     hold the definitions. Each function on the tokens is one transaction, so that an
--     interleaving of writers is a sequence of calls (Trace); the two statements of
--     `record_failed_mint` are two steps.
--   CircuitBreaker: web_service/circuit_breaker.py, on a clock of nanoseconds.
--   JobStore: web_service/job_store.py. Costs are numbers of micro-dollars.
--   JobQueue: web_service/job_queue.py. World is the state that the handlers share; the events
--     stand for the rows of web_service/recovery_events_store.py. What other tasks do at an
--     `await` is a function on the world, a field of the handler's Env.
--   Kindle: web_service/routes/send_to_kindle.py, the Kindle validators of
--     web_service/validation.py and web_service/routes/resend_webhook.py. A text is a list of
--     code points, and `lower` is Python's on ASCII text.
--   Stripe: web_service/routes/webhook.py, from the verified event on.
--   Checkout: web_service/routes/checkout.py. Stripe is a function of what it is asked: requests
--     that are the same, their idempotency key included, have one answer.
--   Pipeline: web_service/pipeline_runner.py. A subprocess is a function of its command and its time
--     limit on the files of the job's directory; a number in the tools' output is read by a
--     parameter.
--   Payment: the success page of web_service/routes/payment.py, as the data that it renders, and
--     web_service/routes/recover.py. What other handlers do while it waits for Stripe is a function
--     on the world.
--   Views: web_service/routes/status.py and web_service/routes/download.py.
--   RateLimit: the keys of web_service/rate_limit.py.
--   Conversion: web_service/routes/convert.py, web_service/routes/reconvert.py and
--     `validate_upload` of web_service/validation.py.
--   Text: the functions of Python's `str` that these use, on lists of code points.
--   BookFiler: tools/book_filer. Path and FileSystem are what it uses of `pathlib` and `os`: paths
--     as their parts, files and directories. Unique is `unique_path` of pathsafe.py, Move is
--     move.py and reparse.py, Journal is journal.py with the writes that a crash tears, Manifest
--     is manifest.py, Gates is calibration.py, Backup is backup.py; Routing, Apply, Undo and
--     Actuate are actuate.py; Dedup is dedup.py, Names the names of pathsafe.py, Classify is
--     classify.py on the taxonomy of taxonomy.py, Identity is identity.py. The other modules hold
--     proofs. What the operating system refuses (a locked file, a reparse point) is a record of
--     functions (Os), and `Path.resolve`, `json.dumps` and `sha256` are parameters (Library,
--     Setting).
--   Tests: each theorem at a concrete input.
--
-- Time is a number that each call is given; a bound `x < now - d` of a statement is written
-- `x + d < now`, since subtraction on the naturals stops at 0. Loops are structural recursion, but
-- for `unique_path`, whose loop has as fuel one more than the number of paths on the file system; no
-- loop can try more names. Where SQLite, the file system or a library may fail, the Env of the
-- handler says so: a locked database raises before anything is written. A run of the book filer may
-- be ended by an `OSError` before a row or the report; its journal takes every commit, and the crash
-- between a move and its commit is the state of a theorem of its own.
--
-- Not modelled: logging, HTTP and the limiter's counters, the text of messages, floating-point
-- costs, the HTML of pages; and of tools/ all but the book filer's actuator, deduplication,
-- classification and identity keys: its scanner, the extraction of text and the clients of other
-- services. The job queue takes the result of the pipeline as a parameter.
pub mod Common
pub mod Sql
pub mod Crypto
pub mod TokenFormat
pub mod CircuitBreaker
pub mod Raises
pub mod Text
pub mod BookFiler
pub mod TokenStore
pub mod JobStore
pub mod JobQueue
pub mod Kindle
pub mod Stripe
pub mod Payment
pub mod Pipeline
pub mod Checkout
pub mod Views
pub mod RateLimit
pub mod Conversion
pub mod Tests
