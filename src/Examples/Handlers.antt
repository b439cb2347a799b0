-- ===== src/Examples/Handlers.antt =====
-- Single requests and rounds, and the theorems on them.
use chaos_harness.Common.{
  ℕ, ◌+◌, ◌≡◌, ◌≢◌, refl, some, none, inl, inr, false, not, [], ◌∷◌, List, Option, All, map,
  if◌then◌else◌, arith, is_some,
}
use chaos_harness.Common.Int.{ℤ, pos, clamp_zero}
use chaos_harness.Json.{obj, str, end}
use chaos_harness.Schema.{
  Db, Lease, init, state_of, pending, leased, succeeded, leases_of, is_live, latest, id_of_key,
}
use chaos_harness.Runtime.{PgText, World, ConnState}
use chaos_harness.Runtime.Gate.{ok, raise, db_partitioned}
use chaos_harness.Http.{partitioned}
use chaos_harness.Jobs.{handle_create_job, handle_get_job, handle_cancel_job}
use chaos_harness.Dispatch.{ClaimEnv, claim, claim_one, fill, lease_row}
use chaos_harness.Commit.{CommitEnv, handle_commit, handle_heartbeat, accepted_fence}
use chaos_harness.Reaper.{ReapEnv, overdue, reap_one}
use chaos_harness.Audit.{handle_audit, refused}
use chaos_harness.Runtime.Gate.{is_partitioned}
use chaos_harness.Protocol.{IsExpired}
use chaos_harness.Cluster.Invariant.{Reach-IsConsistent, init-IsConsistent}
use chaos_harness.Cluster.Finality.{IsSuperseded}
use chaos_harness.Cluster.Leases.{reap_recovers, heartbeat_renews, is_named}
use chaos_harness.Cluster.Rounds.{IsClaim, claim_takes}
use chaos_harness.Cluster.Capacity.{IsWithin, fill_bounded}
use chaos_harness.Cluster.Partition.{partition_closes}
use chaos_harness.Cluster.Acks.{IsAnswered, undone_but_acked}
use chaos_harness.Cluster.Races.{HasOne, accepts_once, stale_accepted}
use chaos_harness.Examples.Ids.{ids}
use chaos_harness.Examples.Inputs.{
  body, create_env, claim_env, commit_env, reap_env, cancel_env, audit_env, at, message,
}
use chaos_harness.Examples.Runs.{queued_db, leased_db, first_lease, to_queued, to_leased}

recovered :
    (state_of 0 (reap_one ids reap_env first_lease (at 0 leased_db)).1.db.jobs ≡ some pending)
    × All IsExpired (leases_of 0 (reap_one ids reap_env first_lease (at 0 leased_db)).1.db.leases)
unfolding leases_of claim_one handle_create_job chaos_harness.Schema.id_of_key state_of
    chaos_harness.Reaper.overdue
recovered =
    reap_recovers ids reap_env first_lease [] (at 0 leased_db)
      (Reach-IsConsistent init-IsConsistent to_leased) refl refl refl (refl, refl) refl

claimed_oldest : IsClaim claim_env "w1" 100 queued_db (claim claim_env "w1" 100 "c1" queued_db)
claimed_oldest =
    claim_takes claim_env "w1" 100 "c1" queued_db (Reach-IsConsistent init-IsConsistent to_queued)

abbrev full_world : World
full_world = (claim_one ids claim_env (at 0 queued_db)).1

filled-IsWithin : IsWithin 1 full_world.conn
unfolding fill handle_create_job chaos_harness.Schema.id_of_key state_of
filled-IsWithin =
    fill_bounded ids (λ f. claim_env) 2 (at 0 queued_db) full_world 1 (ok tt)
      (omega arith, omega arith) refl

renewed : handle_heartbeat ids 0 50 (message 1) (at 0 leased_db) ≡ (
  ok tt,
  record (at 0 leased_db) {
    db = record leased_db {
      leases =
          map
            (λ (l : Lease).
              if is_named 0 (pos 1) l then record l { expires_at_ms = 50 + 100 } else l)
            leased_db.leases;
    };
  },
)
unfolding chaos_harness.Commit.lease_key chaos_harness.Commit.uuid_param
    chaos_harness.Common.Int.fits_bigint chaos_harness.Runtime.Gate.is_partitioned
renewed =
    heartbeat_renews ids 0 50 (message 1) (at 0 leased_db) (str "j") 0 (pos 1) refl refl refl
      (refl, refl)

closed :
    (handle_get_job ids 0 "j" (at 5 leased_db) ≡ partitioned)
    × (handle_cancel_job ids cancel_env "j" (at 5 leased_db) ≡ (partitioned, at 5 leased_db))
    × (handle_audit ids audit_env (some "j") (at 5 leased_db) ≡ refused partitioned)
    × (handle_create_job ids create_env (some (obj body)) (at 5 leased_db)
        ≡ (ok partitioned, at 5 leased_db))
    × (claim_one ids claim_env (at 5 leased_db) ≡ (raise db_partitioned, at 5 leased_db))
    × (handle_heartbeat ids 0 50 (message 1) (at 5 leased_db)
        ≡ (raise db_partitioned, at 5 leased_db))
    × (handle_commit ids commit_env (message 1) (at 5 leased_db)
        ≡ (raise db_partitioned, at 5 leased_db))
    × (reap_one ids reap_env first_lease (at 5 leased_db) ≡ (raise db_partitioned, at 5 leased_db))
    × ((handle_create_job ids create_env none (at 5 leased_db)).1 ≡ at 5 leased_db)
    × ((handle_heartbeat ids 0 50 end (at 5 leased_db)).1 ≡ at 5 leased_db)
    × ((handle_commit ids commit_env end (at 5 leased_db)).1 ≡ at 5 leased_db)
unfolding chaos_harness.Runtime.Gate.is_partitioned chaos_harness.Commit.lease_key
    chaos_harness.Json.get chaos_harness.Json.get_or chaos_harness.Json.as_obj
closed =
    partition_closes ids 0 (at 5 leased_db) cancel_env audit_env create_env claim_env commit_env
      reap_env "j" "k" body end (message 1) (str "j") (pos 1) 50 first_lease none end (refl, refl)
      refl (record { named = refl; some_text = refl; short = refl; dict = refl }) refl

-- Another session's reaper and dispatcher, between the reads of a commit and its writes.
abbrev take_over : Db → Db
take_over d =
    (claim_one ids claim_env (at 0 (reap_one ids reap_env first_lease (at 0 d)).1.db)).1.db

abbrev raced_env : CommitEnv
raced_env = record commit_env { others = take_over }

raced_once : HasOne 0 (handle_commit ids raced_env (message 1) (at 0 leased_db)).1.db
unfolding chaos_harness.Schema.accepted_of claim_one handle_create_job
    chaos_harness.Schema.id_of_key state_of reap_one
raced_once = accepts_once ids raced_env (message 1) (at 0 leased_db) 0 (omega arith) (omega arith)

raced_stale :
    (accepted_fence 0 (handle_commit ids raced_env (message 1) (at 0 leased_db)).1.db.commits
      ≡ some (pos 1))
    × IsSuperseded 1
        (leases_of 0 (handle_commit ids raced_env (message 1) (at 0 leased_db)).1.db.leases)
unfolding chaos_harness.Commit.lease_key chaos_harness.Runtime.Gate.is_partitioned
    chaos_harness.Commit.is_valid latest leases_of claim_one handle_create_job
    chaos_harness.Schema.id_of_key state_of accepted_fence reap_one
raced_stale =
    stale_accepted ids raced_env (message 1) (at 0 leased_db) "j" 1 0 (refl, refl) (refl, refl) refl
      refl refl (inl (omega arith)) refl refl

abbrev undone_env : CommitEnv
undone_env = record commit_env { commit_ok = false }

undone_acked :
    ((handle_commit ids undone_env (message 1) (at 0 leased_db)).1.db ≡ leased_db)
    × IsAnswered undone_env "j"
        (at 0 leased_db)
        (handle_commit ids undone_env (message 1) (at 0 leased_db)).1
unfolding chaos_harness.Commit.lease_key chaos_harness.Runtime.Gate.is_partitioned
    chaos_harness.Commit.is_valid latest leases_of claim_one handle_create_job
    chaos_harness.Schema.id_of_key state_of accepted_fence
undone_acked =
    undone_but_acked ids undone_env (message 1) (at 0 leased_db) "j" (pos 1) 0 (refl, refl)
      (refl, refl) (λ d. refl) refl refl refl refl

abbrev dead_env : ClaimEnv
dead_env = record claim_env { send_ok = false }
