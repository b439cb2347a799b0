-- ===== src/Schema/Rows.antt =====
-- db/schema.sql: the columns of the tables.
use chaos_harness.Common.{ℕ, String, Bool, true, false, Option, List, ◌≡◌, arith}
use chaos_harness.Common.Int.{ℤ}
use chaos_harness.Json.{Json}

-- `state in: pending | leased | succeeded | failed | cancelled`
pub data JobState : Type 0 where
  pending leased succeeded failed cancelled : JobState

unfoldable pub state_eq : JobState → JobState → Bool
state_eq pending pending = true
state_eq leased leased = true
state_eq succeeded succeeded = true
state_eq failed failed = true
state_eq cancelled cancelled = true
state_eq _ _ = false

pub state_eq_pending : (s : JobState) → state_eq s pending ≡ true → s ≡ pending
unfolding state_eq
state_eq_pending s h = ground arith

pub state_eq_leased : (s : JobState) → state_eq s leased ≡ true → s ≡ leased
unfolding state_eq
state_eq_leased s h = ground arith

pub record Job : Type 0 where
  pub job_id : ℕ
  pub idempotency_key : String
  pub payload : Json
  pub state : JobState
  pub result : Option Json
  pub created_at : ℕ
  pub updated_at : ℕ

pub record Transition : Type 0 where
  pub id : ℕ
  pub job_id : ℕ
  pub from_state : Option JobState
  pub to_state : JobState
  pub at_ms : ℕ
  pub coordinator : String

pub record Lease : Type 0 where
  pub id : ℕ
  pub job_id : ℕ
  pub fence : ℕ
  pub worker : String
  pub issued_at_ms : ℕ
  pub expires_at_ms : ℕ
  pub expired_at_ms : Option ℕ

-- A rejected attempt keeps whatever integer the worker sent as its fence.
pub record Commit : Type 0 where
  pub id : ℕ
  pub job_id : ℕ
  pub fence : ℤ
  pub worker : String
  pub accepted : Bool
  pub at_ms : ℕ

pub record Db : Type 0 where
  pub jobs : List Job
  pub job_transitions : List Transition
  pub leases : List Lease
  pub commits : List Commit
  pub fence_seq : ℕ
  pub last_issued : ℕ
  pub transition_ids : ℕ
  pub lease_ids : ℕ
  pub commit_ids : ℕ
