-- ===== src/Examples/Runs.antt =====
-- A short run of the dispatcher, and the theorems on runs of it.
use chaos_harness.Common.{
  ℕ, ◌≡◌, ◌≤◌, ◌≢◌, refl, some, inl, true, false, length, select, All, arith,
}
use chaos_harness.Common.Int.{pos}
use chaos_harness.Json.{obj, str}
use chaos_harness.Schema.{
  Db, Lease, init, state_of, pending, leased, succeeded, leases_of, transitions_of, accepted_of,
  is_live,
}
use chaos_harness.Runtime.{PgText}
use chaos_harness.Runtime.Gate.{ok}
use chaos_harness.Jobs.{handle_create_job, created_reply}
use chaos_harness.Dispatch.{claim_one, lease_row}
use chaos_harness.Commit.{handle_commit, accepted_fence}
use chaos_harness.Reaper.{reap_one}
use chaos_harness.Protocol.{JobStep, Walk}
use chaos_harness.Cluster.{Step, Reach, here, next, view}
use chaos_harness.Cluster.Consistent.{IsConsistent}
use chaos_harness.Cluster.Invariant.{Step-JobStep, Reach-IsConsistent, init-IsConsistent}
use chaos_harness.Cluster.Safety.{CommittedOnce, committed_once, one_live_lease, history-Walk}
use chaos_harness.Cluster.Finality.{IsSuperseded, final_for_good, superseded_never_accepted}
use chaos_harness.Cluster.Dedup.{same_key_same_job}
use chaos_harness.Cluster.Acks.{retry_acked, IsAnswered}
use chaos_harness.Examples.Ids.{ids}
use chaos_harness.Examples.Inputs.{body, create_env, claim_env, commit_env, reap_env, at, message}

-- The job submitted, then leased; its lease overdue, the job leased again, and committed. Then the
-- first lease's holder tries.
abbrev pub queued_db : Db
queued_db = (handle_create_job ids create_env (some (obj body)) (at 0 init)).1.db

abbrev pub leased_db : Db
leased_db = (claim_one ids claim_env (at 0 queued_db)).1.db

abbrev pub first_lease : Lease
first_lease = lease_row 1 0 1 "w1" 20 100

abbrev reaped_db : Db
reaped_db = (reap_one ids reap_env first_lease (at 0 leased_db)).1.db

abbrev pub again_db : Db
again_db = (claim_one ids claim_env (at 0 reaped_db)).1.db

abbrev pub done_db : Db
done_db = (handle_commit ids commit_env (message 2) (at 0 again_db)).1.db

abbrev late_db : Db
late_db = (handle_commit ids commit_env (message 1) (at 0 done_db)).1.db

pub to_queued : Reach ids init queued_db
to_queued = next here (Step.create create_env (some (obj body)) (at 0 init) refl refl)

pub to_leased : Reach ids init leased_db
to_leased = next to_queued (Step.claim claim_env (at 0 queued_db) refl refl)

pub to_again : Reach ids init again_db
unfolding claim_one handle_create_job chaos_harness.Schema.id_of_key state_of
to_again =
    next
      (next to_leased
        (Step.reap reap_env first_lease (at 0 leased_db) (inl (refl, refl, refl)) refl refl))
      (Step.claim claim_env (at 0 reaped_db) refl refl)

pub commit_step : Step ids again_db done_db
commit_step = Step.commit commit_env (message 2) (at 0 again_db) (λ d. refl) refl refl

pub to_done : Reach ids init done_db
to_done = next to_again commit_step

late_step : Step ids done_db late_db
late_step = Step.commit commit_env (message 1) (at 0 done_db) (λ d. refl) refl refl

pub again_state : state_of 0 again_db.jobs ≡ some leased
unfolding state_of claim_one reap_one handle_create_job chaos_harness.Schema.id_of_key
again_state = refl

pub done_state : state_of 0 done_db.jobs ≡ some succeeded
unfolding state_of handle_commit claim_one reap_one handle_create_job chaos_harness.Schema.id_of_key
done_state = refl

pub done_fence : accepted_fence 0 done_db.commits ≡ some (pos 2)
unfolding accepted_fence handle_commit claim_one reap_one handle_create_job
    chaos_harness.Schema.id_of_key
done_fence = refl

late-IsConsistent : IsConsistent late_db
late-IsConsistent = Reach-IsConsistent init-IsConsistent (next to_done late_step)

commit_refines : JobStep (view 0 again_db) (view 0 done_db)
commit_refines = Step-JobStep 0 (Reach-IsConsistent init-IsConsistent to_again) commit_step

done_once : CommittedOnce (view 0 done_db)
done_once = committed_once to_done 0

again_one_lease : length (select is_live (leases_of 0 again_db.leases)) ≤ 1
again_one_lease = one_live_lease to_again 0

done_history : Walk (state_of 0 done_db.jobs) (transitions_of 0 done_db.job_transitions)
done_history = history-Walk to_done 0

late_final :
    (state_of 0 late_db.jobs ≡ some succeeded)
    × (accepted_of 0 late_db.commits ≡ accepted_of 0 done_db.commits)
    × (transitions_of 0 late_db.job_transitions ≡ transitions_of 0 done_db.job_transitions)
late_final =
    final_for_good 0 succeeded (Reach-IsConsistent init-IsConsistent to_done) (next here late_step)
      done_state refl

first_lease-IsSuperseded : IsSuperseded 1 (leases_of 0 again_db.leases)
unfolding leases_of claim_one reap_one handle_create_job chaos_harness.Schema.id_of_key
first_lease-IsSuperseded = inl (omega arith)

none_accepted : All (λ c. c.fence ≢ pos 1) (accepted_of 0 again_db.commits)
unfolding accepted_of claim_one reap_one handle_create_job chaos_harness.Schema.id_of_key
none_accepted = tt

late_rejected : All (λ c. c.fence ≢ pos 1) (accepted_of 0 late_db.commits)
late_rejected =
    superseded_never_accepted 0 1 (Reach-IsConsistent init-IsConsistent to_again)
      (next (next here commit_step) late_step) first_lease-IsSuperseded none_accepted

pub first_reply :
    (handle_create_job ids create_env (some (obj body)) (at 0 init)).0
    ≡ ok (created_reply ids true 0)
unfolding handle_create_job chaos_harness.Schema.id_of_key state_of
first_reply = refl

pub second_reply :
    (handle_create_job ids create_env (some (obj body)) (at 0 leased_db)).0
    ≡ ok (created_reply ids false 0)
unfolding handle_create_job chaos_harness.Schema.id_of_key claim_one state_of
second_reply = refl

resubmitted :
    (◌≡◌ {A = ℕ} 0 0)
    × (false ≡ false)
    × ((handle_create_job ids create_env (some (obj body)) (at 0 leased_db)).1.db ≡ leased_db)
unfolding chaos_harness.Json.get
resubmitted =
    same_key_same_job ids "k" create_env create_env body body (at 0 init) (at 0 leased_db) true
      false 0 0 refl refl first_reply (next here (Step.claim claim_env (at 0 queued_db) refl refl))
      second_reply

retried :
    ((handle_commit ids commit_env (message 2) (at 0 late_db)).1.db ≡ late_db)
    × IsAnswered commit_env "j"
        (at 0 late_db)
        (handle_commit ids commit_env (message 2) (at 0 late_db)).1
unfolding chaos_harness.Commit.lease_key chaos_harness.Runtime.Gate.is_partitioned
retried =
    retry_acked ids done_db commit_env (message 2) (at 0 late_db) "j" (pos 2) 0 to_done done_fence
      (next here late_step) (refl, refl) (refl, refl) (λ d. refl) refl
