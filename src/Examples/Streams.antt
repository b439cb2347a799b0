-- ===== src/Examples/Streams.antt =====
-- The stream of a job that is committed between the first turn and the second.
use chaos_harness.Common.{
  ℕ, zero, suc, ◌+◌, ◌≤◌, ltb, ◌≡◌, refl, true, Option, none, some, List, arith, is_some,
}
use chaos_harness.Schema.{Db, leased}
use chaos_harness.Cluster.{Reach, here, next}
use chaos_harness.Stream.{Event, StreamEnd, Poll, StreamEnv, finished, streamed, handle_stream_job}
use chaos_harness.Stream.Polls.{is_ended, whole}
use chaos_harness.Stream.Loop.{IsRun, IsStream}
use chaos_harness.Stream.Order.{handle_stream_job-IsStream}
use chaos_harness.Stream.Ends.{stream_ends}
use chaos_harness.Stream.Finishes.{clock, stream_finishes}
use chaos_harness.Examples.Ids.{ids}
use chaos_harness.Examples.Inputs.{at}
use chaos_harness.Examples.Runs.{again_db, done_db, to_again, commit_step, again_state, done_state}

abbrev db_at : ℕ → Db
db_at zero = again_db
db_at (suc k) = done_db

abbrev polled : ℕ → Poll
polled k = record {
  late = 0;
  mono = 0;
  db_gate = (at 0 again_db).app.db_gate;
  db = db_at k;
  query_ok = true;
  cut = none;
}

abbrev stream_env : StreamEnv
stream_env = record { mono = 0; started = 0; polls = polled }

goes_on : (k : ℕ) → Reach ids (polled k).db (polled (suc k)).db
goes_on zero = next here commit_step
goes_on (suc k) = here

polled-IsRun : IsRun ids polled
polled-IsRun = record { starts = to_again; goes = goes_on }

abbrev got : List Event
got = whole 0 done_db

ended_done : is_ended 0 done_db ≡ true
ended_done = rw done_state refl

read_early : (i : ℕ) → i ≤ 1 → ltb (clock polled 0 i) (0 + 120_000) ≡ true
read_early zero le = refl
read_early (suc zero) le = refl
read_early (suc (suc i)) le = absurd (omega arith)

streamed_once :
    (m : ℕ) × (m ≤ 1)
    × (is_ended 0 (polled m).db ≡ true)
    × (handle_stream_job ids stream_env 2 "j" (at 0 again_db)
        ≡ some (streamed (whole 0 (polled m).db) finished))
unfolding chaos_harness.Runtime.Gate.is_partitioned
streamed_once =
    stream_finishes ids stream_env 2 1 0 leased "j" (at 0 again_db) polled-IsRun refl refl refl
      again_state
      (λ i le. record {
        early = read_early i le;
        connected = refl;
        opened = refl;
        query = refl;
        writes = refl;
      })
      ended_done (omega arith)

stream_over : is_some (handle_stream_job ids stream_env 241 "j" (at 0 again_db)) ≡ true
stream_over = stream_ends ids stream_env 241 "j" (at 0 again_db) (omega arith)

replied : handle_stream_job ids stream_env 2 "j" (at 0 again_db) ≡ some (streamed got finished)
unfolding handle_stream_job chaos_harness.Schema.state_of chaos_harness.Commit.handle_commit
    chaos_harness.Dispatch.claim_one chaos_harness.Reaper.reap_one
    chaos_harness.Jobs.handle_create_job chaos_harness.Schema.id_of_key
    chaos_harness.Stream.Polls.log_events chaos_harness.Schema.transitions_of
replied = refl

done_job-IsStream :
    (j : ℕ) × (◌≡◌ {A = Option ℕ} (some 0) (some j)) × IsStream ids polled j (got, finished)
done_job-IsStream =
    handle_stream_job-IsStream ids stream_env 2 "j" (at 0 again_db) got finished polled-IsRun
      replied
