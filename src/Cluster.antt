-- ===== src/Cluster.antt =====
-- The whole dispatcher as a step relation on the database: any coordinator, with any state of its
-- process and of its connections, runs one handler of coordinator/*.py. Transactions are serial:
-- no other session commits inside one (`IsSerial`).
pub mod Tables
pub mod Consistent
pub mod Submits
pub mod Claims
pub mod Commits
pub mod Bounds
pub mod Overdue
pub mod Reaps
pub mod Invariant
pub mod Safety
pub mod Finality
pub mod Keys
pub mod Replies
pub mod Dedup
pub mod Acks
pub mod Races
pub mod Partition
pub mod Leases
pub mod Rounds
pub mod Capacity
pub mod Flood
pub mod Scan
pub mod Logs
pub mod Handover
pub mod Completes
pub mod Results
pub mod Readback
use chaos_harness.Common.{
  ℕ, ◌+◌, String, ◌≡◌, ◌≢◌, ◌⊎◌, Bool, true, false, Option, none, some, List, [], ◌∷◌,
}
use chaos_harness.Json.{Json, Fields}
use chaos_harness.Schema.{Db, Lease, init, state_of, leases_of, accepted_of, transitions_of}
use chaos_harness.Runtime.{World, PgText}
use chaos_harness.Jobs.{CreateEnv, CancelEnv, handle_create_job, handle_cancel_job}
use chaos_harness.Dispatch.{ClaimEnv, claim_one}
use chaos_harness.Commit.{CommitEnv, handle_heartbeat, handle_commit}
use chaos_harness.Reaper.{ReapEnv, reap_one}
use chaos_harness.Protocol.{View}

-- One job as the tables show it.
abbrev pub view : ℕ → Db → View
view j d = record {
  state = state_of j d.jobs;
  leases = leases_of j d.leases;
  accepted = accepted_of j d.commits;
  history = transitions_of j d.job_transitions;
}

abbrev pub IsSerial : (Db → Db) → Type 0
IsSerial others = (d : Db) → others d ≡ d

-- The row was read from the leases, now or earlier: id, job and fence of a lease never change.
abbrev pub IsScanned : Lease → List Lease → Type 0
IsScanned row [] = ⊥
IsScanned row (l ∷ ls) =
    ((l.id ≡ row.id) × (l.job_id ≡ row.job_id) × (l.fence ≡ row.fence)) ⊎ IsScanned row ls

pub data Step (u : PgText) (d d' : Db) : Type 0 where
  create :
      (e : CreateEnv) (body : Option Json) (w : World)
      → w.db ≡ d
      → d' ≡ (handle_create_job u e body w).1.db
      → Step u d d'
  cancel :
      (e : CancelEnv) (id : String) (w : World)
      → IsSerial e.others
      → w.db ≡ d
      → d' ≡ (handle_cancel_job u e id w).1.db
      → Step u d d'
  claim : (e : ClaimEnv) (w : World) → w.db ≡ d → d' ≡ (claim_one u e w).1.db → Step u d d'
  heartbeat :
      (mono now : ℕ) (m : Fields) (w : World)
      → w.db ≡ d
      → d' ≡ (handle_heartbeat u mono now m w).1.db
      → Step u d d'
  commit :
      (e : CommitEnv) (m : Fields) (w : World)
      → IsSerial e.others
      → w.db ≡ d
      → d' ≡ (handle_commit u e m w).1.db
      → Step u d d'
  reap :
      (e : ReapEnv) (row : Lease) (w : World)
      → IsScanned row d.leases
      → w.db ≡ d
      → d' ≡ (reap_one u e row w).1.db
      → Step u d d'
  -- A transaction that is undone still moves the sequences.
  burn :
      (fences transitions leases commits : ℕ)
      → d' ≡ record d {
        fence_seq = d.fence_seq + fences;
        transition_ids = d.transition_ids + transitions;
        lease_ids = d.lease_ids + leases;
        commit_ids = d.commit_ids + commits;
      }
      → Step u d d'

pub data Reach (u : PgText) (s : Db) : Db → Type 0 where
  here : Reach u s s
  next : {d d' : Db} → Reach u s d → Step u d d' → Reach u s d'
