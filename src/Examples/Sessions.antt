-- ===== src/Examples/Sessions.antt =====
-- A worker's dials, frames and jobs, and a connection from its first frame to its end.
use chaos_harness.Common.{
  ℕ, ◌+◌, ◌*◌, ◌<◌, ◌≤◌, ◌≡◌, refl, String, str_eq, true, false, Bool, Option, some, none, List, [],
  ◌∷◌, arith, All, if◌then◌else◌,
}
use chaos_harness.Common.Int.{pos}
use chaos_harness.Json.{Json, Fields, num, str, obj, field, end}
use chaos_harness.Schema.{pending, succeeded, state_of, latest, leases_of}
use chaos_harness.Runtime.{World, ConnState}
use chaos_harness.Runtime.Gate.{ok}
use chaos_harness.Dispatch.{claim_one}
use chaos_harness.Commit.{handle_commit, accepted_fence, lease_key, is_valid}
use chaos_harness.Cluster.{Reach, Step, here, next}
use chaos_harness.Cluster.Readback.{succeeded_reply, result_read}
use chaos_harness.Jobs.{handle_get_job}
use chaos_harness.Cluster.Invariant.{Reach-IsConsistent, init-IsConsistent}
use chaos_harness.Cluster.Completes.{dispatched_succeeds}
use chaos_harness.Ws.{Hub}
use chaos_harness.Ws.Connection.{Message, text, closing, other, ServeEnv, handle_ws, first_frame}
use chaos_harness.Ws.Sessions.{IsQuiet, IsLeft, met, session_ends}
use chaos_harness.Worker.Frames.{Worker, handle}
use chaos_harness.Worker.Execution.{
  Beat, BeatsEnd, Work, prepare, run_with_heartbeats, commit_frame, heartbeat_interval_ms,
}
use chaos_harness.Worker.Beats.{Close, heartbeats-Close}
use chaos_harness.Worker.Dialing.{run_pauses, expected, pauses_double}
use chaos_harness.Examples.Ids.{ids}
use chaos_harness.Examples.Inputs.{claim_env, commit_env, at, message, numerals}
use chaos_harness.Examples.Runs.{queued_db, leased_db, again_db, to_queued, to_again}

abbrev pub loads : String → Option Json
loads t = if str_eq t "{}" then some (obj end) else none

abbrev sleeper : Fields
sleeper = field "job_id" (str "j") (
    field "fence" (num (pos 1)) (field "payload" (obj (field "sleep_ms" (num (pos 5000)) end)) end))

abbrev sleeper_work : Work
sleeper_work = record { job_id = str "j"; fence = num (pos 1); sleep_ms = 5000 }

sleeper_prepared : prepare numerals loads sleeper ≡ ok sleeper_work
unfolding prepare
sleeper_prepared = refl

-- Every sleep and every send takes 10 ms longer.
abbrev slow : Beat
slow = record { over = 10; sent = true; spent = 10 }

beating :
    (ts : List ℕ) × (stop : BeatsEnd) × (run_with_heartbeats slow 100 5000 (λ k. slow) 21
      ≡ some (100 ∷ ts, stop))
    × Close (heartbeat_interval_ms + 2 * 10) 100 (ts, stop)
beating =
    heartbeats-Close numerals loads slow 100 (λ k. slow) sleeper sleeper_work 10 sleeper_prepared
      refl (omega arith) (λ k. (omega arith, omega arith))

abbrev dials : List (Bool × ℕ)
dials = (false, 0) ∷ (false, 999_999) ∷ (true, 500_000) ∷ (false, 7) ∷ []

dialled :
    (run_pauses dials ≡ expected 0 dials)
    × All (λ p. (250_000_000 ≤ p) × (p < 15_000_000_000)) (run_pauses dials)
dialled = pauses_double dials (omega arith, (omega arith, (omega arith, (omega arith, tt))))

abbrev here_hub : Hub
here_hub = record { coord_id = "c2"; workers = []; conns = []; published = [] }

abbrev busy : Worker
busy = record {
  worker_id = "w1";
  concurrency = pos 1;
  slots = record { limit = 1; in_use = 1 };
  made = 1;
  jobs = (0, sleeper) ∷ [];
  acks = [];
}

abbrev claimed_world : World
claimed_world = (claim_one ids claim_env (at 0 queued_db)).1

abbrev pub sent_frame : Fields
sent_frame =
    field "type" (str "dispatch")
      (field "job_id" (str "j") (field "payload" (str "{}") (field "fence" (num (pos 1)) end)))

abbrev pub sent_work : Work
sent_work = record { job_id = str "j"; fence = num (pos 1); sleep_ms = 0 }

pub sent_prepared : prepare numerals loads sent_frame ≡ ok sent_work
unfolding prepare
sent_prepared = refl

-- The claim that Examples.Runs starts with.
turn_claims : (claim_one ids claim_env (at 0 queued_db)).0 ≡ ok true
unfolding claim_one chaos_harness.Jobs.handle_create_job chaos_harness.Schema.id_of_key state_of
turn_claims = refl

frame_read : (claim_one ids claim_env (at 0 queued_db)).1.conn.ws_sent ≡ obj sent_frame ∷ []
unfolding claim_one chaos_harness.Jobs.handle_create_job chaos_harness.Schema.id_of_key state_of
frame_read = refl

carried_out :
    (handle (obj sent_frame) busy
      ≡ (ok tt, record busy { made = 2; jobs = (1, sent_frame) ∷ (0, sleeper) ∷ [] }))
    × (j : ℕ) × (f : ℕ) × (state_of j queued_db.jobs ≡ some pending)
    × (lease_key (commit_frame "w1" sent_work) ≡ some (str (ids.print j), pos f))
    × (state_of j
          (handle_commit ids commit_env (commit_frame "w1" sent_work) (at 0 leased_db)).1.db.jobs
        ≡ some succeeded)
    × (accepted_fence j
          (handle_commit ids commit_env (commit_frame "w1" sent_work) (at 0 leased_db)).1.db.commits
        ≡ some (pos f))
unfolding chaos_harness.Runtime.Gate.is_partitioned
carried_out =
    dispatched_succeeds ids claim_env (at 0 queued_db) sent_frame busy numerals loads "w1" sent_work
      commit_env (at 0 leased_db) (Reach-IsConsistent init-IsConsistent to_queued) refl turn_claims
      frame_read sent_prepared refl (refl, refl) (λ d. refl) refl refl (omega arith)

-- A worker registers, commits its lease, and goes; meanwhile another one comes.
abbrev serving : ServeEnv
serving = record { commits = λ k. commit_env; between = λ k w. w }

serving-IsQuiet : IsQuiet ids serving
serving-IsQuiet = record { serial = λ k d. refl; steps = λ k w. here; keeps = λ k w. refl }

abbrev another : Hub → Hub
another h = record h { workers = ("w2", 7) ∷ h.workers }

abbrev first : Json
first = obj (
    field "type" (str "register")
      (field "worker_id" (str "w1") (field "concurrency" (num (pos 1)) end)))

abbrev messages : List Message
messages = text (some (obj (field "type" (str "commit") (message 1)))) ∷ other ∷ closing ∷ []

gone :
    Reach ids leased_db
      (handle_ws ids numerals serving another 1
        (some first)
        messages
        (here_hub, at 0 leased_db)).1.db
    × IsLeft
        (met another 1 here_hub (first_frame numerals (some first)))
        here_hub
        (handle_ws ids numerals serving another 1
          (some first)
          messages
          (here_hub, at 0 leased_db)).0
        (first_frame numerals (some first))
gone =
    session_ends ids numerals serving another 1 (some first) messages here_hub (at 0 leased_db)
      serving-IsQuiet (λ h s found. (s, found))

-- The job's second lease is committed with a result, and its first one tries after that.
abbrev reporting : Fields
reporting = field "result" (obj (field "ok" (num (pos 1)) end)) (message 2)

abbrev reported : World
reported = (handle_commit ids commit_env reporting (at 0 again_db)).1

abbrev read_later : World
read_later = at 0 (handle_commit ids commit_env (message 1) (at 0 reported.db)).1.db

read_back :
    handle_get_job ids 0 "j" read_later ≡ succeeded_reply ids 0 (obj (field "ok" (num (pos 1)) end))
unfolding lease_key is_valid latest leases_of accepted_fence
    chaos_harness.Runtime.Gate.is_partitioned claim_one chaos_harness.Reaper.reap_one
    chaos_harness.Jobs.handle_create_job chaos_harness.Schema.id_of_key state_of
    chaos_harness.Json.or_empty
read_back =
    result_read ids commit_env reporting (at 0 again_db) read_later "j" (pos 2) 0 0 to_again
      (refl, refl) (refl, refl) (λ d. refl) refl refl refl refl
      (next here (Step.commit commit_env (message 1) (at 0 reported.db) (λ d. refl) refl refl))
      (refl, refl)
