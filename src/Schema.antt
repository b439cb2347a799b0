-- ===== src/Schema.antt =====
-- db/schema.sql: the tables, and the statements that several handlers of coordinator/ share.
-- A table is the list of its rows, the newest first. Times are milliseconds of the database clock,
-- each reading an argument of the statement that takes it; nothing is assumed of the clock.
-- `fence_seq` and the `*_ids` are sequences, each with its last value.
mod Rows
pub mod Lookup
pub use Rows.{
  JobState, pending, leased, succeeded, failed, cancelled, Job, Transition, Lease, Commit, Db,
  state_eq_pending, state_eq_leased,
}
unfoldable pub use Rows.{state_eq}
use chaos_harness.Common.{
  ℕ, suc, ◌+◌, max, String, Bool, true, false, not, ◌&&◌, Option, none, some, List, [], ◌∷◌, ltb,
  ◌==◌, str_eq, if◌then◌else◌, is_some, select, update, exists, first,
}
use chaos_harness.Common.Int.{ℤ, pos}
use chaos_harness.Json.{Json}

-- issue_fence(): the fence and the time of issue, allocated under the lock of one row.
unfoldable pub issue_fence : ℕ → Db → ℕ × ℕ × Db
issue_fence now db =
    let ms = max now (db.last_issued + 1) in
    let fence = suc db.fence_seq in (fence, ms, record db { last_issued = ms; fence_seq = fence })

abbrev pub transition_row : ℕ → ℕ → ℕ → Option JobState → JobState → String → Transition
transition_row id now job from to coord = record {
  id = id;
  job_id = job;
  from_state = from;
  to_state = to;
  at_ms = now;
  coordinator = coord;
}

-- record_transition of coordinator/app.py.
unfoldable pub record_transition : ℕ → ℕ → Option JobState → JobState → String → Db → Db
record_transition now job from to coord db =
    let id = suc db.transition_ids in
    record db {
      job_transitions = transition_row id now job from to coord ∷ db.job_transitions;
      transition_ids = id;
    }

abbrev pub is_job : ℕ → Job → Bool
is_job j r = r.job_id == j

-- SELECT state FROM jobs WHERE job_id = …; the primary key leaves at most one row.
unfoldable pub state_of : ℕ → List Job → Option JobState
state_of j [] = none
state_of j (r ∷ rs) = let later = state_of j rs in if r.job_id == j then some r.state else later

-- SELECT job_id FROM jobs WHERE idempotency_key = …
unfoldable pub id_of_key : String → List Job → Option ℕ
id_of_key k [] = none
id_of_key k (r ∷ rs) =
    let later = id_of_key k rs in if str_eq r.idempotency_key k then some r.job_id else later

-- UPDATE jobs SET state = …, updated_at = now() WHERE job_id = …
unfoldable pub set_state : ℕ → JobState → ℕ → List Job → List Job
unfolding update
set_state j s now = update (is_job j) (λ r. record r { state = s; updated_at = now })

-- The rows of one job.
unfoldable pub leases_of : ℕ → List Lease → List Lease
unfolding select
leases_of j = select (λ l. l.job_id == j)

unfoldable pub transitions_of : ℕ → List Transition → List Transition
unfolding select
transitions_of j = select (λ t. t.job_id == j)

unfoldable pub commits_of : ℕ → List Commit → List Commit
unfolding select
commits_of j = select (λ c. c.job_id == j)

-- The rows of the partial index `one_accept` for one job.
unfoldable pub accepted_of : ℕ → List Commit → List Commit
unfolding select
accepted_of j = select (λ c. c.job_id == j && c.accepted)

-- expired_at_ms IS NULL
abbrev pub is_live : Lease → Bool
is_live l = not (is_some l.expired_at_ms)

-- ORDER BY fence DESC LIMIT 1
unfoldable pub latest : List Lease → Option Lease
latest [] = none
latest (l ∷ ls) = elim (latest ls) [
  | none ↦ some l
  | some m ↦ if ltb m.fence l.fence then some l else some m
]

-- An empty schema, as the first start of a coordinator leaves it.
abbrev pub init : Db
init = record {
  jobs = [];
  job_transitions = [];
  leases = [];
  commits = [];
  fence_seq = 0;
  last_issued = 0;
  transition_ids = 0;
  lease_ids = 0;
  commit_ids = 0;
}
