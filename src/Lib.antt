-- ===== src/Lib.antt =====
-- Verification of the job dispatcher: coordinators that accept jobs, lease them to workers under
-- fences, take commits and requeue overdue leases, all through one PostgreSQL database, and a
-- harness that checks the audits of a run.
--
-- The parts, and the code that each file models:
--   Schema (Rows, Lookup)       db/schema.sql: the tables as lists of rows, newest first; sequences;
--                               issue_fence(); the queries and updates that handlers share.
--   Json, Http                  the JSON values that handlers read, and the replies that they send.
--   Runtime (Gate, Rates, Windows)
--                               coordinator/db.py (the partition gate), ConnState of
--                               coordinator/ws.py, the entries of `app`, Redis, and RateCounters of
--                               coordinator/stats.py. A World is one coordinator, one of its
--                               connections, Redis and the database.
--   Jobs, Audit                 coordinator/app.py: handle_create_job, handle_get_job,
--                               handle_cancel_job; handle_audit.
--   Dispatch                    coordinator/dispatch.py: _claim_one, _default_issue, the inner loop of
--                               _dispatch_round (fill).
--   Round (Filled, Bounds)      _dispatch_round over all workers, and a turn of _run, of
--                               coordinator/dispatch.py.
--   Commit                      coordinator/commit.py: handle_heartbeat, handle_commit, _finish.
--   Reaper                      coordinator/reaper.py: the scan, _reap_one, the round.
--   Stream (Rows, Polls, Loop, Order, Ends, Finishes)
--                               coordinator/app.py: handle_stream_job.
--   Stats (Counts, Pages)       coordinator/stats.py: db_snapshot, render_workers_line;
--                               coordinator/app.py: handle_stats, format_uptime.
--   Ws (Registry, Concurrency, Connection, Routes, Sessions)
--                               coordinator/ws.py: the registry, handle_ws from the first frame to the
--                               end of a connection, _route, the change of a worker's concurrency.
--   Chaos (Faults)              coordinator/chaos.py: apply_fault_local, handle_chaos, the subscriber.
--   Worker (Slots, Retries)     worker/worker.py: ResizableSemaphore, _commit_with_retry.
--   Worker/Frames, Resizing     _read_loop and _handle; a change of concurrency on both sides.
--   Worker/Execution, Beats     what _execute makes of a frame; _run_with_heartbeats.
--   Worker/Confirming           what a rejection does to another commit of the job.
--   Worker/Tasks                the tasks of _execute as a step relation, their done callbacks, and
--                               _cancel_jobs;
--   Worker/Listed, Held, Slotted, Holding
--                               their numbers in `_jobs`, and their slots.
--   Worker/Dialing              the pauses of run.
--   Harness (Report)            chaos_harness.py: _verify, _audit_one, the ledger of _submit_one; the
--                               counts, percentiles and verdict of _format_report.
--   Protocol (Sound)            what the dispatcher promises of one job, without tables or processes.
--   Cluster                     the handlers as one step relation on the database, and the theorems:
--     Tables                    what each handler writes, whatever else it does;
--     Submits, Claims, Commits, Reaps, Overdue
--                               each transaction is a step of the protocol of every job;
--     Consistent, Bounds, Invariant, Safety, Finality
--                               the invariant of reachable databases and what follows for runs;
--     Keys, Replies, Dedup      idempotency keys over a run;
--     Acks, Races               replies to commits, and commits under interference;
--     Leases, Scan, Rounds, Capacity, Flood, Partition
--                               heartbeats, requeueing, claims, the dispatch loop, the shut gate;
--     Logs                      how the transition log grows, for Stream;
--     Handover, Completes       a job from its claim over the worker to its commit;
--     Results, Readback         the result column, from the commit to handle_get_job.
--   Harness/Trails .. Clean     the checks of _verify on what the coordinators answer.
--   Harness/Submissions, Run    the ledger of _submit_one over a run's replies, and a whole run.
--   Harness/Verdict, Percentiles
--                               the report of a run.
--   Examples                    concrete inputs, and each theorem on one of them.
--
-- How the code is read:
--   - A handler is a function from its environment (an `...Env` record: what the clocks, PostgreSQL,
--     Redis and the socket answer in this request) and a World to its outcome and the new World.
--     Times are arbitrary: nothing is assumed of the clocks, so skewed clocks are covered.
--   - A transaction acts as one step, except where the code reads without a lock and writes later:
--     handle_commit and handle_cancel_job take an argument `others`, what other sessions commit in
--     between. In a Step of Cluster `others` changes nothing; Races drops that assumption.
--   - A transaction that fails leaves the database; the `burn` step moves the sequences, which
--     PostgreSQL does not roll back.
--   - The text forms of PostgreSQL's uuid and jsonb are the record PgText, with two laws on ids: a
--     printed id parses to itself, and is not the empty text. A jsonb value is the Json that was
--     stored; how the driver prints it is left open.
--   - Python's `int` of a text or a float is the record Numerals, json.loads a function, and the two
--     comparisons of floats in the harness the record Floats; nothing is assumed of them.
--   - Monotonic clocks are whole numbers of a unit small enough for the constants: milliseconds for
--     streams and heartbeats, nanoseconds for uptimes and pauses. How late a sleep or a send is, is
--     part of the environment.
--   - A stream is given, for each turn of its loop, how late the turn reads the clock after the loop's
--     sleep, and the gate and the database of that turn; the databases are those of one run where a
--     theorem needs it.
--   - The claims of one worker in a dispatch round follow each other: no other session acts between
--     two of them, though each is awaited (coordinator/dispatch.py, lines 121 to 124).
--   - A task of a worker is numbered when it is created; `_jobs` holds the number and the frame. An
--     ended task stays until its done callback takes it out.
--   - Loops that end by a clock or a count of rows run on fuel, and enough fuel is shown to be given:
--     the dispatch loop of one worker on more than the pending jobs, if nothing is submitted meanwhile
--     (Cluster.Rounds), a stream on 241 turns (Stream.Ends), the heartbeats of a job on 21 rounds
--     (Worker.Beats). All other loops are structural.
--
-- Not modelled: start-up and clean-up, the timed loops, subscriptions, connection pools and logging
-- around these functions; a worker id that is no text; the submitters, killers and fault plan of
-- chaos_harness.py, and the text of its report.
mod Common
pub mod Json
pub mod Schema
pub mod Runtime
pub mod Http
pub mod Jobs
pub mod Dispatch
pub mod Commit
pub mod Reaper
pub mod Ws
pub mod Chaos
pub mod Worker
pub mod Round
pub mod Protocol
pub mod Cluster
pub mod Audit
pub mod Stream
pub mod Stats
pub mod Harness
mod Examples
