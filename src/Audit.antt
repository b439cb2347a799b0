-- ===== src/Audit.antt =====
-- handle_audit of coordinator/app.py: the three append-only logs of one job. The rows of the JSON
-- reply are the records below; `none` is null.
use chaos_harness.Common.{
  ℕ, String, Bool, ◌&&◌, ◌||◌, Option, none, some, List, map, ltb, leb, ◌==◌, str_eq, if◌then◌else◌,
}
use chaos_harness.Common.Int.{ℤ}
use chaos_harness.Common.Sort.{sort}
use chaos_harness.Schema.{
  JobState, Transition, Lease, Commit, Db, transitions_of, commits_of, leases_of,
}
use chaos_harness.Runtime.{World, PgText}
use chaos_harness.Runtime.Gate.{Exc, db_partitioned, gated}
use chaos_harness.Http.{Response, failure, partitioned, invalid_id}

pub record TransitionEntry : Type 0 where
  pub from : Option JobState
  pub to : JobState
  pub at_ms : ℕ
  pub coordinator : String

pub record CommitEntry : Type 0 where
  pub accepted : Bool
  pub fence : ℤ
  pub worker : String
  pub at_ms : ℕ

pub record LeaseEntry : Type 0 where
  pub fence : ℕ
  pub worker : String
  pub issued_at_ms : ℕ
  pub expired_at_ms : Option ℕ

pub record Trail : Type 0 where
  pub transitions : List TransitionEntry
  pub commits : List CommitEntry
  pub lease_history : List LeaseEntry

pub data AuditReply : Type 0 where
  refused : Response → AuditReply
  answered : Trail → AuditReply

-- ORDER BY at_ms, id; ORDER BY issued_at_ms, fence.
abbrev pub before : ℕ → ℕ → ℕ → ℕ → Bool
before a i b j = ltb a b || (a == b && leb i j)

abbrev pub transition_le : Transition → Transition → Bool
transition_le s t = before s.at_ms s.id t.at_ms t.id

abbrev pub commit_le : Commit → Commit → Bool
commit_le c d = before c.at_ms c.id d.at_ms d.id

abbrev pub lease_le : Lease → Lease → Bool
lease_le l m = before l.issued_at_ms l.fence m.issued_at_ms m.fence

abbrev pub transition_entry : Transition → TransitionEntry
transition_entry t = record {
  from = t.from_state;
  to = t.to_state;
  at_ms = t.at_ms;
  coordinator = t.coordinator;
}

abbrev pub commit_entry : Commit → CommitEntry
commit_entry c = record {
  accepted = c.accepted;
  fence = c.fence;
  worker = c.worker;
  at_ms = c.at_ms;
}

abbrev pub lease_entry : Lease → LeaseEntry
lease_entry l = record {
  fence = l.fence;
  worker = l.worker;
  issued_at_ms = l.issued_at_ms;
  expired_at_ms = l.expired_at_ms;
}

-- The three queries, each on the database that it meets.
unfoldable pub transition_rows : ℕ → Db → List Transition
unfolding sort transitions_of
transition_rows j d = sort transition_le (transitions_of j d.job_transitions)

unfoldable pub commit_rows : ℕ → Db → List Commit
unfolding sort commits_of
commit_rows j d = sort commit_le (commits_of j d.commits)

unfoldable pub lease_rows : ℕ → Db → List Lease
unfolding sort leases_of
lease_rows j d = sort lease_le (leases_of j d.leases)

-- The three databases are the one of each query: they run in no common transaction.
unfoldable pub trail_of : ℕ → Db → Db → Db → Trail
unfolding transition_rows commit_rows lease_rows
trail_of j d₁ d₂ d₃ = record {
  transitions = map transition_entry (transition_rows j d₁);
  commits = map commit_entry (commit_rows j d₂);
  lease_history = map lease_entry (lease_rows j d₃);
}

abbrev audit_failure : Exc → AuditReply
audit_failure db_partitioned = refused partitioned
audit_failure _ = refused invalid_id

pub record AuditEnv : Type 0 where
  pub mono₁ : ℕ
  pub mono₂ : ℕ
  pub mono₃ : ℕ
  pub later₁ : Db → Db
  pub later₂ : Db → Db

unfoldable pub audit_job : AuditEnv → Option ℕ → World → AuditReply
unfolding trail_of
audit_job e none w = gated e.mono₁ w.app.db_gate audit_failure (refused invalid_id)
audit_job e (some j) w =
    let d₂ = e.later₁ w.db in
    gated e.mono₁ w.app.db_gate audit_failure (
      gated e.mono₂ w.app.db_gate audit_failure
        (gated e.mono₃ w.app.db_gate audit_failure (answered (trail_of j w.db d₂ (e.later₂ d₂)))))

-- A missing or empty `job_id` is refused.
unfoldable pub handle_audit : PgText → AuditEnv → Option String → World → AuditReply
unfolding audit_job
handle_audit u e none w = refused (failure 400 "job_id query param required")
handle_audit u e (some id) w =
    if str_eq id ""
    then refused (failure 400 "job_id query param required")
    else audit_job e (u.parse id) w
