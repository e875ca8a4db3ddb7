-- ===== src/Lib.antt =====
-- A verification library for L.O.G.O.S., an auditor of the security configuration of network
-- devices. The program takes configuration texts, parses them into a structural tree, interprets the
-- tree as security facts, resolves the facts into one effective state for each field and scope, and
-- judges the states by rules. The work runs as jobs, which workers claim under leases.
--
-- The parts and their files:
--   Base      what the modules share: lists, texts, JSON, sets, sorting, results.
--   Jobs      the life of a job (backend/app/jobs, backend/app/db/models/job.py). Jobs/Model holds
--             the row, Jobs/Store the table and its queries (repository.py), Jobs/Service the
--             transactions enqueue_job, claim_next_job, heartbeat_job, complete_job, fail_job and
--             recover_stale_jobs (service.py), Jobs/Runner one iteration of the worker (runner.py).
--   Parsing   the structural parser (backend/app/parsing). Parsing/Builder is IRBuilder
--             (ir_builder.py), Parsing/Tokenizer is tokenizer.py, Parsing/Lines and Parsing/Readers
--             are the readers of lines fortios_cli.py and indentation_cli.py.
--   Effective the effective states (backend/app/effective_state, backend/app/security_model).
--             Effective/Values, Scopes and Fields are typed values, scopes and the registry of
--             fields; Policy and Drafts are policy.py and models.py; Facts, Dependencies, Winner,
--             Partitions, Grouping and Resolver are resolver.py, in the order in which
--             resolve_security_facts uses them.
--   Compliance the findings of an audit (backend/app/compliance). Compliance/Evaluator is the
--             evaluation of a condition on a value (evaluator.py), one function for each operator;
--             Rules is rule_registry.py, with the shipped rules in Rules/Shipped and the registry in
--             Rules/Registry; Policy is policy.py; Findings, Evidence, Judgement and Service are
--             models.py, applicability.py and service.py, in the order in which
--             evaluate_audit_compliance uses them. It reads the states that Effective makes.
--   Snapshots the snapshots and their audits (backend/app/snapshots/service.py,
--             backend/app/audit/service.py). Snapshots/Rows holds the tables, Service the operations
--             on a snapshot, Submission create_audit, start_audit and validate_snapshot_evidence,
--             which enqueues a job of Jobs, and Runs the sequences of operations.
-- A module of proofs stands below the module that it is about; each Examples module holds runs on
-- small inputs.
--
-- How the model stands to the code. A UUID is its integer, whose order is that of its text. A text is
-- the list of its code points; `lower` and patterns that ignore case work on ASCII, `\d` and `int` on
-- ASCII digits. A time is a number of microseconds. A JSON value is a data type whose numbers are
-- integers: floats are left out. The table of jobs is a list of rows; a query with `FOR UPDATE SKIP
-- LOCKED` takes the keys that other transactions hold as an argument, and a transaction that raises
-- leaves the table as it was. An exception is a value: of the job service its kind, elsewhere its
-- code or message. Hashes are parameters (`identify` for nodes, `state_id` for states, `finding_id`,
-- `pack_id`, `policy_id`, and `sha256` for snapshots), as are the handlers of jobs, the registry of
-- mapping policies and the check of an assessment pack. Python's sets are lists without repetition;
-- a row is found by its key, the first of the list. An artifact's identifier in the evidence of a
-- fact is a text.
--
-- Loops. The loops over lines, rows and facts are recursions on the list; the loop over an index of the
-- indentation reader skips the lines of a block that has been read. The walk over dependencies has
-- fuel for 129 turns, and ends within them, since it stops after 128 nodes. Numbers
-- are written in decimal on fuel that exceeds the number.
--
-- Not modelled: the rules that an administrator publishes, interpretation, the validation of
-- uploads, batches of audits, the audit pipeline, profiles, training, remediation and reports,
-- whose services stand around the parts above; the readers of XML and JSON trees; the heartbeat thread and the endless
-- loop of the worker, which only repeats the iteration; logging; the HTTP interface,
-- authentication and the user interface, which are libraries and I/O.
mod Base
pub mod Jobs
pub mod Parsing
pub mod Effective
pub mod Compliance
pub mod Snapshots
