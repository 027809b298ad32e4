-- ===== src/Lib.antt =====
-- robodata: the job queue and the workers of a curation service for robot datasets, and the requests that
-- reach it; and the workflow script that serialises the claims of agents on the repository's issues.
--
-- A request (backend/jobs/router.py) adds a job to the table `jobs` of PostgreSQL (backend/jobs/repo.py);
-- a worker process (backend/workers/runtime.py) claims it, runs the handler of its type and reports how it
-- ended (backend/jobs/lifecycle.py). An operator steers the workers by their desired state
-- (backend/workers/service.py).
--
-- Prelude           Booleans, lists and texts that the parts share; Prelude/Lists has their lemmas
-- Json              JSON values
-- Table             a table as the list of its rows: UPDATE … WHERE, ORDER BY … LIMIT 1
-- Jobs              the row of `jobs` and its enumerations (backend/core/db.py)
-- Jobs/Lifecycle    claim_next, requeue_abandoned, heartbeat, update_progress, cancellation, complete, fail
-- Jobs/Repo         enqueue, fetch, list_jobs, and the unique indices of backend/core/db.py
-- Jobs/Moves        the moves of a job's status, as a relation; Jobs/History what a row keeps over time
-- Jobs/Index        the table's invariant: distinct ids, one active row per type and dedupe key
-- Jobs/Later, Enqueue, Claim, Cancel, Requested, Listing   the proofs
-- Jobs/Operation    backend/jobs/dataset_operation_validation.py and the payloads of
--                   backend/datasets/services; Jobs/Canonical has its proof
-- Jobs/Router       backend/jobs/router.py; Jobs/Post has the proof of post_job
-- Jobs/Intake       backend/datasets/services/operation_intake.py; Jobs/Located (with Jobs/Lengths) says
--                   which payload it makes of a request, Jobs/Taken what it replies, and Jobs/Agree compares it with Jobs/Operation
-- Workers           the tables worker_controls and worker_heartbeats (backend/workers/repo.py)
-- Workers/Service   the state machine of backend/workers/service.py; Workers/Legal and Workers/Patch prove it
-- Workers/Runtime   one iteration of the worker's loop; Workers/Tick has its proofs
-- Paths             backend/datasets/services/path_policy.py
-- Cycles            detection of gripper cycles in backend/datasets/services/cycle_stamp_service.py;
--                   Cycles/Ascending and Cycles/Ends have its proofs
-- Rollback          backend/jobs/runner_helpers.py
-- Pipeline          tables and statements of backend/datasets/services/bronze_silver_pipeline.py
-- Pipeline/Batch    one batch; Pipeline/Settled, Kept and Files prove what it does to rows and files
-- Registry          the cache of backend/datasets/services/dataset_registry.py; Registry/Cache and
--                   Registry/Recency have its proofs, Registry/Get the one of the whole of get
-- Converter         task selection and the loop of backend/converter/queue_adapter.py;
--                   Converter/Select and Converter/Progress have their proofs
-- Agent             claims and receipts of .github/scripts/agent_control.py; Agent/Ready has its checks of an
--                   issue, Agent/Controller handle_request and Agent/Events the other events. Live, Matching,
--                   Fields, Safe, Choice, Plans, Grants and Exclusive prove what they do to the live claims;
--                   History runs them in sequence; Attempts, Refused and Reconcile have further proofs;
--                   Leaf and Unready prove what is asked of an issue;
--                   Agent/Request has the payload of a request, Formatted its proof, Pages the listings;
--                   Agent/Contract is .github/scripts/pr_contract.py, and Accepted its proof
-- Tests             concrete runs, and each theorem at an example
--
-- A handler of agent_control.py is the list of the calls that it makes on the project item and the issue,
-- in order, so that a run that fails or is cut short has made a first part of them. The workflow runs
-- one event of an issue at a time; its history is a sequence of such runs. What the regular expressions
-- find in a body, the receipts in a comment and the instant in a timestamp are read off the text by
-- arguments or are data.
--
-- The registry is shared by threads: what others do between its locked sections is an argument too.
--
-- A table is a list of rows in the order of insertion, and a statement is a function on it. Each statement
-- runs alone, as READ COMMITTED gives for one row; what other sessions do between two statements of one
-- request is an argument of the request, a function on the table. Rows that another transaction holds
-- locked are a predicate of claim_next (SKIP LOCKED). Time is a natural number of seconds that the caller
-- passes. A job's payload, progress and result are JSON values. The file system, what pydantic makes of a
-- request, the spelling of a number, the handlers and the converter (a submodule) are arguments.
--
-- All functions but the loops over GitHub's pages (Agent/Pages) are total by structural recursion. Those take
-- fuel, one unit for each page, which is enough if it exceeds a hundredth of the listing's length. A list of
-- attempts bounds the stable loads of the registry; the source makes two.
--
-- Not modelled: the request schemas of backend/datasets/routers/dataset_ops.py, the text of receipts and the
-- GraphQL gateway of agent_control.py, the dictionaries of file locks of the registry, the connection pool, LISTEN/NOTIFY and schema migrations, logging, sleeping, HTTP
-- headers, and the argument requested_by of enqueue, which the code does not use.
pub mod Agent
pub mod Converter
pub mod Cycles
pub mod Jobs
pub mod Json
pub mod Paths
pub mod Pipeline
pub mod Prelude
pub mod Registry
pub mod Rollback
pub mod Table
pub mod Tests
pub mod Workers
