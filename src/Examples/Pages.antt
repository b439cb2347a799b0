-- ===== src/Examples/Pages.antt =====
-- The page of /stats and the harness's report, on concrete databases and latencies.
use chaos_harness.Common.{
  ◌*◌, ◌/◌, ◌≤◌, ◌≡◌, refl, true, false, ◌&&◌, some, none, List, [], ◌∷◌, ltb, length, select,
  exists, if◌then◌else◌, map,
}
use chaos_harness.Common.Int.{pos}
use chaos_harness.Schema.{Lease, is_live, state_of}
use chaos_harness.Runtime.Gate.{Database, ok, is_partitioned}
use chaos_harness.Ws.{Hub}
use chaos_harness.Dispatch.{has_capacity}
use chaos_harness.Stats.{
  Page, StatsEnv, count, is_held, snapshot, format_uptime, display_uptime, handle_stats,
}
use chaos_harness.Stats.Counts.{snapshot_counts}
use chaos_harness.Stats.Pages.{stats_answers}
use chaos_harness.Harness.Report.{Floats, Counters, exit_code, fail, pass, pass_with_notes}
use chaos_harness.Harness.{verify}
use chaos_harness.Harness.Trails.{is_unfinished}
use chaos_harness.Harness.Global.{Submission, tracked}
use chaos_harness.Harness.Clean.{IsStored}
use chaos_harness.Harness.Verdict.{audits, final_report, is_succeeded, run_judged}
use chaos_harness.Examples.Ids.{ids}
use chaos_harness.Examples.Inputs.{at, audit_env}
use chaos_harness.Examples.Runs.{leased_db, done_db, to_leased, to_done}

-- The clock stands at 40 s: the lease is stuck, and about to expire.
counted :
    ((snapshot (λ l. 40_000) (λ l. 40_000) leased_db).in_flight
      ≡ count (λ l. is_live l && is_held leased_db.jobs l) leased_db.leases)
    × ((snapshot (λ l. 40_000) (λ l. 40_000) leased_db).stuck
        ≤ (snapshot (λ l. 40_000) (λ l. 40_000) leased_db).in_flight)
    × ((snapshot (λ l. 40_000) (λ l. 40_000) leased_db).in_flight
        ≤ (snapshot (λ l. 40_000) (λ l. 40_000) leased_db).active_leases)
    × ((snapshot (λ l. 40_000) (λ l. 40_000) leased_db).expiring
        ≤ (snapshot (λ l. 40_000) (λ l. 40_000) leased_db).active_leases)
counted = snapshot_counts (λ l. 40_000) (λ l. 40_000) to_leased

abbrev two_workers : Hub
two_workers = record {
  coord_id = "c1";
  workers = ("w2", 2) ∷ ("w1", 1) ∷ [];
  conns =
      (1, record { worker_id = "w1"; limit = pos 1; inflight = "j" ∷ []; ws_sent = [] })
      ∷ (2, record { worker_id = "w2"; limit = pos 2; inflight = []; ws_sent = [] })
      ∷ [];
  published = [];
}

abbrev stats_env : StatsEnv
stats_env = record {
  mono = 0;
  uptime = 5_000_000_000;
  sec = 0;
  now₁ = λ l. 50;
  now₂ = λ l. 50;
  redis_ok = λ event. true;
}

abbrev open_gate : Database
open_gate = (at 0 leased_db).app.db_gate

answered_shut :
    (p : Page) × ((handle_stats stats_env two_workers
        (record (at 5 leased_db) { app = record (at 5 leased_db).app { db_gate = open_gate } })).0
      ≡ ok p)
    × (p.queue ≡ some (snapshot stats_env.now₁ stats_env.now₂ leased_db))
    × ((handle_stats stats_env two_workers (at 5 leased_db)).0 ≡ ok (record p { queue = none }))
    × ((handle_stats stats_env two_workers (at 5 leased_db)).1.db ≡ leased_db)
    × ((handle_stats stats_env two_workers (record (at 5 leased_db) {
      app = record (at 5 leased_db).app { logical_clock_offset_s = pos 30 };
    })).0
        ≡ ok (record p {
          queue = none;
          uptime = format_uptime (display_uptime stats_env.uptime (pos 30));
        }))
unfolding is_partitioned
answered_shut =
    stats_answers stats_env two_workers (at 5 leased_db) open_gate (pos 30) refl refl refl refl

-- The rank is cut off to a whole number.
abbrev floats : Floats
floats = record { rank = λ p n. pos (p * n / 100); few = λ x y. ltb (x * 100) y }

abbrev counters : Counters
counters = record { submit_ok = 1; submit_fail = 0; submit_dup = 0 }

abbrev one_submission : List Submission
one_submission = record { job = 0; key = "k" } ∷ []

one-IsStored : IsStored done_db (record { job = 0; key = "k" })
unfolding chaos_harness.Schema.id_of_key chaos_harness.Jobs.handle_create_job
    chaos_harness.Commit.handle_commit chaos_harness.Dispatch.claim_one
    chaos_harness.Reaper.reap_one state_of
one-IsStored = refl

opened : is_partitioned 0 (at 0 done_db).app.db_gate ≡ false
unfolding is_partitioned
opened = refl

judged :
    ((final_report ids audit_env (at 0 done_db) floats counters one_submission).unreachable ≡ 0)
    × ((final_report ids audit_env (at 0 done_db) floats counters one_submission).completed
        ≡ length (select (λ s. is_succeeded (state_of s.job done_db.jobs)) one_submission))
    × (exit_code (
          verify
            (map (tracked ids) one_submission)
            (audits ids audit_env (at 0 done_db) one_submission))
        ≡ (if exists (λ s. is_unfinished (state_of s.job done_db.jobs)) one_submission
            then 1
            else 0))
    × ((final_report ids audit_env (at 0 done_db) floats counters one_submission).verdict ≡ (
        if exists (λ s. is_unfinished (state_of s.job done_db.jobs)) one_submission
        then fail
        else (if floats.few counters.submit_fail counters.submit_ok
            then pass
            else pass_with_notes)))
judged =
    run_judged ids audit_env (at 0 done_db) refl opened opened opened (λ d. refl) (λ d. refl) floats
      counters one_submission to_done (one-IsStored, tt) (tt, tt)
