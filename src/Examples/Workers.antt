-- ===== src/Examples/Workers.antt =====
-- A worker's slots and its retries.
use chaos_harness.Common.{◌≡◌, ◌⊎◌, refl, false, some, [], ◌∷◌, arith}
use chaos_harness.Common.Int.{pos}
use chaos_harness.Runtime.{World, ConnState}
use chaos_harness.Schema.Lookup.{In}
use chaos_harness.Dispatch.{claim_one}
use chaos_harness.Ws.{Hub, conn_of}
use chaos_harness.Ws.Registry.{all}
use chaos_harness.Round.{run_turn, dispatch_round, fill_all}
use chaos_harness.Round.Filled.{IsKept}
use chaos_harness.Round.Bounds.{turn_bounded}
use chaos_harness.Worker.{confirmed, commit_with_retry}
use chaos_harness.Worker.Retries.{exchange, retries_confirm}
use chaos_harness.Cluster.{Reach, here}
use chaos_harness.Examples.Ids.{ids}
use chaos_harness.Examples.Inputs.{claim_env, commit_env, at, message}
use chaos_harness.Examples.Runs.{queued_db, done_db, to_done, done_fence}

-- A coordinator that is to drop three acks.
abbrev dropping : World
dropping = record (at 0 done_db) { app = record (at 0 done_db).app { drop_acks_remaining = 3 } }

confirmed_at_last :
    ((commit_with_retry (exchange ids (λ k. commit_env) (message 2)) dropping).0 ≡ confirmed)
    × ((commit_with_retry (exchange ids (λ k. commit_env) (message 2)) dropping).1.db ≡ done_db)
unfolding chaos_harness.Commit.lease_key chaos_harness.Runtime.Gate.is_partitioned
confirmed_at_last =
    retries_confirm ids (λ k. commit_env) (message 2) "j" (pos 2) 0 done_db dropping (refl, refl)
      to_done done_fence here
      (λ k. record { opened = (refl, refl); serial = λ d. refl; commits = refl; sends = refl })
      (omega arith)

-- One worker in the registry, and one whose connection has been replaced.
abbrev hub : Hub
hub = record {
  coord_id = "c1";
  workers = ("w1", 1) ∷ [];
  conns = (1, (at 0 queued_db).conn) ∷ (2, (at 0 queued_db).conn) ∷ [];
  published = [];
}

abbrev awake : World
awake = record (at 0 queued_db) { app = record (at 0 queued_db).app { wake = false } }

abbrev turned : World
turned = (claim_one ids claim_env awake).1

abbrev turned_hub : Hub
turned_hub = record hub { conns = (1, turned.conn) ∷ (2, (at 0 queued_db).conn) ∷ [] }

turn_taken : run_turn ids (λ c f. claim_env) 2 5 (hub, at 0 queued_db) ≡ some (turned_hub, turned)
unfolding run_turn dispatch_round fill_all chaos_harness.Dispatch.fill chaos_harness.Dispatch.paused
    conn_of chaos_harness.Ws.change_conn chaos_harness.Ws.Registry.all claim_one
    chaos_harness.Jobs.handle_create_job chaos_harness.Schema.id_of_key
    chaos_harness.Schema.state_of
turn_taken = refl

turned-IsKept :
    Reach ids queued_db turned.db
    × (turned_hub.workers ≡ hub.workers)
    × (t : ConnState) × (conn_of 1 turned_hub.conns ≡ some t)
    × IsKept 1 (at 0 queued_db).conn t
    × (In 1 (all hub.workers) ⊎ (t ≡ (at 0 queued_db).conn))
unfolding conn_of
turned-IsKept =
    turn_bounded ids (λ c f. claim_env) 2 5 1 1 (at 0 queued_db).conn hub turned_hub
      (at 0 queued_db) turned refl (omega arith, omega arith) turn_taken
