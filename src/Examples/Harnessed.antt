-- ===== src/Examples/Harnessed.antt =====
-- A harness run of two submissions with one key, between which the job is leased.
use chaos_harness.Common.{ℕ, String, ◌≡◌, refl, true, false, some, List, [], ◌∷◌, map, All}
use chaos_harness.Json.{obj}
use chaos_harness.Runtime.{World}
use chaos_harness.Runtime.Gate.{is_partitioned}
use chaos_harness.Jobs.{handle_create_job}
use chaos_harness.Cluster.{Step, here, next}
use chaos_harness.Harness.{Tracked, verify}
use chaos_harness.Harness.Global.{Submission, tracked}
use chaos_harness.Harness.Clean.{IsStored, unfinished_jobs}
use chaos_harness.Harness.Submissions.{ledger}
use chaos_harness.Harness.Verdict.{audits}
use chaos_harness.Harness.Run.{HarnessRun, starts, passes, replies, run_verified}
use chaos_harness.Examples.Ids.{ids}
use chaos_harness.Examples.Inputs.{body, create_env, claim_env, audit_env, at}
use chaos_harness.Examples.Runs.{queued_db, leased_db, first_reply, second_reply}
use chaos_harness.Schema.{init}
use chaos_harness.Schema.Lookup.{In}

abbrev two_replies : List (String × String)
two_replies = ("k", "j") ∷ ("k", "j") ∷ []

abbrev ended : World
ended = at 0 (handle_create_job ids create_env (some (obj body)) (at 0 leased_db)).1.db

-- The second reply arrives first.
harness_run : HarnessRun ids two_replies ended.db
unfolding chaos_harness.Json.get
harness_run =
    replies (("k", "j") ∷ []) [] create_env "k" body (at 0 leased_db) false 0
      (passes (replies [] [] create_env "k" body (at 0 init) true 0 starts refl first_reply)
        (next here (Step.claim claim_env (at 0 queued_db) refl refl)))
      refl second_reply

gate_open : is_partitioned 0 ended.app.db_gate ≡ false
unfolding is_partitioned
gate_open = refl

run_reported :
    (◌≡◌ {A = ℕ} (ledger two_replies).distinct_ids_logged 0)
    × All
        (λ (r : String × String). In r.1 (map (λ (t : Tracked). t.jid) (ledger two_replies).jobs))
        two_replies
    × All (λ (t : Tracked). In (t.key, t.jid) two_replies) (ledger two_replies).jobs
    × (ss : List Submission) × ((ledger two_replies).jobs ≡ map (tracked ids) ss)
    × All (IsStored ended.db) ss
    × (verify (ledger two_replies).jobs (audits ids audit_env ended ss)
        ≡ unfinished_jobs ids ended.db ss)
run_reported =
    run_verified ids two_replies audit_env ended harness_run refl gate_open gate_open gate_open
      (λ d. refl) (λ d. refl)
