-- ===== src/Stream/Order.antt =====
-- What a client of handle_stream_job of coordinator/app.py sees over a run of the dispatcher.
use chaos_harness.Common.{
  ℕ, ◌+◌, String, ◌≡◌, refl, inl, inr, false, Option, none, some, List, [], arith, Option-cases,
}
use chaos_harness.Schema.{init, state_of, transitions_of}
use chaos_harness.Runtime.{World, PgText}
use chaos_harness.Runtime.Gate.{db_partitioned, not_connected, db_error, other_error, gate, gated}
use chaos_harness.Cluster.{here}
use chaos_harness.Cluster.Tables.{Result-cases}
use chaos_harness.Stream.{
  Event, StreamEnd, StreamEnv, streamed, reply_of, stream_max_ms, stream_loop, handle_stream_job,
}
use chaos_harness.Stream.Rows.{IsRead}
use chaos_harness.Stream.Polls.{log_events, is_ended}
use chaos_harness.Stream.Loop.{IsRun, IsStream, loop-Continues}

pub start-IsRead : (j : ℕ) → IsRead j 0 init
unfolding transitions_of
start-IsRead j = record { below = tt; counted = omega arith }

pub start_unfinished : (j : ℕ) → is_ended j init ≡ false
unfolding state_of
start_unfinished j = refl

pub log_events-init : (j : ℕ) → log_events j init ≡ []
unfolding log_events transitions_of
log_events-init j = refl

reply_of-streamed :
    (o : Option (List Event × StreamEnd)) (events : List Event) (end : StreamEnd)
    → reply_of o ≡ some (streamed events end)
    → o ≡ some (events, end)
reply_of-streamed none events end h = cc
reply_of-streamed (some (es, x)) events end h = cc

-- A stream answers an id that parses to a job.
stream_inverts :
    (u : PgText) (e : StreamEnv) (fuel : ℕ) (id : String) (w : World) (events : List Event)
    (end : StreamEnd)
    → handle_stream_job u e fuel id w ≡ some (streamed events end)
    → (j : ℕ) × (u.parse id ≡ some j)
      × (stream_loop e.polls (e.started + stream_max_ms) j fuel 0 0 e.started ≡ some (events, end))
unfolding handle_stream_job
stream_inverts u e fuel id w events end h = elim (Result-cases (gate e.mono w.app.db_gate)) [
  | inr (db_partitioned, q) ↦ let no_stream = rw (q, gated) at h in cc
  | inr (not_connected, q) ↦ let no_stream = rw (q, gated) at h in cc
  | inr (db_error, q) ↦ let no_stream = rw (q, gated) at h in cc
  | inr (other_error, q) ↦ let no_stream = rw (q, gated) at h in cc
  | inl (t, q) ↦ elim (Option-cases (u.parse id)) [
    | inl p ↦ let no_stream = rw (q, gated, p) at h in cc
    | inr (j, p) ↦ elim (Option-cases (state_of j w.db.jobs)) [
      | inl r ↦ let no_stream = rw (q, gated, p, r) at h in cc
      | inr (s, r) ↦ (j, p, reply_of-streamed _ events end (rw (q, gated, p, r) at h))
    ]
  ]
]

-- Over a run of the dispatcher, the events that a client has got when its stream ends are the job's
-- whole log, in order and each transition once, as one database of the run shows it: followed by
-- `done` if the stream says that it finished, when the job is final there; without it if the time
-- is up or a query failed, when the job is not; and a beginning of that if the client went away.
pub handle_stream_job-IsStream :
    (u : PgText) (e : StreamEnv) (fuel : ℕ) (id : String) (w : World) (events : List Event)
    (end : StreamEnd)
    → IsRun u e.polls
    → handle_stream_job u e fuel id w ≡ some (streamed events end)
    → (j : ℕ) × (u.parse id ≡ some j) × IsStream u e.polls j (events, end)
handle_stream_job-IsStream u e fuel id w events end run h =
    let (j, p, q) = stream_inverts u e fuel id w events end h in
    let all =
      loop-Continues u e.polls j run (e.started + stream_max_ms) fuel 0 0 e.started init here
        run.starts (start-IsRead j) (start_unfinished j) in
    (j, p, rw (q, log_events-init j) at all)
