-- ===== src/Lib.antt =====
-- AI generation API: a model of the service that takes generation requests, charges partners for
-- them, runs them on a worker and reports the results.
--
-- A request comes in at `POST /generate`, which asks for an API key and the rate limits and calls
-- `create_task`; this looks up the mode and the price, writes the task, reserves its price and puts a
-- message into Celery's queue. The worker takes the message, checks the input images, renders the
-- prompt, calls the provider, stores the result, and sends a callback; an error leads to a retry or
-- to the dead letter, which refunds the price.
--
-- - Prelude: shared names, Boolean tests, decidable equality, lists, integers.
-- - Exec, Session, World: a call takes the state and gives a result or an error with the state that
--   it left. A session has what is committed and what its transaction sees; the world of the worker
--   has the database and the servers that callbacks go to. World.Hoare has triples for blocks.
-- - Errors: app/core/errors.py. Settings: app/core/config.py. Value: Python's dynamic values.
-- - Models: app/models/, one record a table. Models.Table reads and updates by primary key.
-- - BillingRepo, TaskRepo: app/repositories/billing_repo.py and task_repo.py.
-- - Billing: app/services/billing.py, `reserve`, `refund`, `commit_charge_audit` and `topup`.
--   Movement says what a call may commit, Commits that each call does so, Sound and Calls what holds
--   of the books, Charge and Refund what each branch does.
-- - Pricing: app/services/pricing.py. Precedence has the order of the places with a price.
-- - Modes: app/services/mode_registry.py. Safety: app/services/safety.py.
-- - Callback: app/services/callback_service.py. Attempts has the tries, Delivery their
--   record, Frame what is untouched.
-- - TaskService: app/services/task_service.py. Accept has the outcomes, Replay the idempotency.
-- - Engine: app/providers/base.py, app/providers/registry.py and app/services/prompt_builder.py.
--   Engine.Contract is what the worker may rely on of a provider.
-- - DeadLetter, Worker: app/queues/tasks.py. Blocks and Keeps have what a run keeps, Invariants two
--   such properties, Settles and Ends how runs end, Refunds what a dead letter gives back.
-- - RateLimiter: app/services/rate_limiter.py; Window has the requests of one window, Counters the
--   specification of `enforce`. ApiKeyRepo: app/repositories/api_key_repo.py, and
--   the guards in app/api/deps.py and app/api/routes/tasks.py.
-- - Security: app/core/security.py, and the guard of the admin routes in app/api/deps.py.
-- - Comfyui: app/providers/comfyui.py. Comfyui has the wait, Workflow the placeholders, Generate the
--   uploads and the whole of `generate`; Polling, Substitute and Steady have theorems. Json has the
--   escapes of `json.dumps`, Json.Reader an independent reader of JSON strings.
-- - Mock: app/providers/mock.py, with Mock.Progress.
-- - Storage: app/storage/. ImageFetch: app/services/image_fetch.py, with Reads.
-- - Routes: app/api/deps.py. Its children have app/api/routes/: Generation (generate.py), Accounts
--   (billing.py), Catalog (modes.py) and Uploads (uploads.py); Admission and Deposits have theorems.
-- - Scripts: scripts/create_api_key.py and scripts/topup.py, with Keys. Scripts.VideoModes:
--   scripts/ops/validate_video_modes.py, the files; Client has the API and `main`, Loops, Files, Polls
--   and Tasks what the parts report, and Passed the exit code. Scripts.Workflow:
--   scripts/ops/validate_video_workflow.py.
-- - Server: app/main.py and app/api/routes/health.py.
-- - BillingRepo.Usage, Listing and Statement: a partner's ledger and usage, in
--   app/repositories/billing_repo.py.
-- - Tests: runs at concrete inputs.
--
-- Bounds: amounts are integers without bound, as in Python; the 32 bits of the database's columns
-- are not modelled. Sums of money and progress are signed, counts are natural numbers. `run_task` has
-- as fuel the number of runs; `TASK_MAX_RETRIES + 1` runs are enough. `poll` has as fuel the number
-- of polls; it is enough where that many intervals, less one, reach the timeout. Times there are whole
-- milliseconds, where the source adds floats. `poll_task` has as fuel the number of polls; one for
-- each three seconds of the timeout, and one more, are enough.
--
-- Parameters: tenacity's `retry` with its documented laws, Jinja, the pictures of PIL, InsightFace,
-- the reading of YAML files, the ids of `uuid_str`, the clock, Redis, SHA-256, HMAC, PyJWT,
-- `json.loads`, `urlparse`, httpx, boto3, ComfyUI's server, the servers that receive callbacks, the
-- random text of a new key, and the API that a script calls. The worker takes the providers, the storage and
-- the loader of images as parameters; the providers, the storages and the loader are modelled beside it.
--
-- Not modelled: FastAPI's wiring, the validation of bodies but for the amount of a top-up and the type
-- of a mode, logging, metrics but for two labels, migrations and the scripts that Scripts leaves
-- out. The foreign keys of the ledger, the logs, the generations and the webhooks are checked; that
-- of a task is not: its API key is a row that `get_api_key` found, and no key is ever deleted. Calls act one at a time; a race is a call on the tables that another
-- call has left. A worker's process that is killed is not modelled.
pub mod Prelude
pub mod Errors
pub mod Exec
pub mod Value
pub mod Models
pub mod Session
pub mod Settings
pub mod BillingRepo
pub mod TaskRepo
pub mod Billing
pub mod Pricing
pub mod Modes
pub mod Safety
pub mod World
pub mod Callback
pub mod ApiKeyRepo
pub mod Security
pub mod RateLimiter
pub mod TaskService
pub mod Engine
pub mod DeadLetter
pub mod Comfyui
pub mod Worker
pub mod Tests
pub mod Json
pub mod Mock
pub mod Routes
pub mod Storage
pub mod ImageFetch
pub mod Scripts
pub mod Server
