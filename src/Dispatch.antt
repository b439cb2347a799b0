-- ===== src/Dispatch.antt =====
-- coordinator/dispatch.py: the claim with its fenced lease, the push to the worker, the round.
use chaos_harness.Common.{
  ℕ, zero, suc, ◌+◌, String, Bool, true, false, not, ◌&&◌, Option, none, some, List, [], ◌∷◌, ltb,
  if◌then◌else◌, select, length,
}
use chaos_harness.Common.Int.{pos, negsuc}
use chaos_harness.Json.{Json, Fields, num, str, obj, field, end}
use chaos_harness.Schema.{
  pending, leased, Job, Lease, Db, issue_fence, record_transition, set_state, state_eq,
}
use chaos_harness.Runtime.{App, ConnState, World, PgText, send, add, discard}
use chaos_harness.Runtime.Gate.{Result, ok, raise, db_error, gated}

-- What the clocks, PostgreSQL and the socket answer during one claim.
pub record ClaimEnv : Type 0 where
  pub mono : ℕ
  -- The jobs whose rows other transactions lock, which SKIP LOCKED passes over.
  pub locked : ℕ → Bool
  pub now : ℕ
  pub issue_ms : ℕ
  pub transition_ms : ℕ
  pub commit_ok : Bool
  pub send_ok : Bool

-- WHERE state='pending' … FOR UPDATE SKIP LOCKED
unfoldable pub claimable : (ℕ → Bool) → Job → Bool
unfolding state_eq
claimable locked r = state_eq r.state pending && not (locked r.job_id)

-- ORDER BY created_at LIMIT 1
unfoldable pub oldest : List Job → Option Job
oldest [] = none
oldest (r ∷ rs) = elim (oldest rs) [
  | none ↦ some r
  | some s ↦ if ltb r.created_at s.created_at then some r else some s
]

-- The row that the INSERT of _default_issue adds, live and with the deadline `issued + ttl`.
abbrev pub lease_row : ℕ → ℕ → ℕ → String → ℕ → ℕ → Lease
lease_row id j fence worker issued ttl = record {
  id = id;
  job_id = j;
  fence = fence;
  worker = worker;
  issued_at_ms = issued;
  expires_at_ms = issued + ttl;
  expired_at_ms = none;
}

-- _default_issue: the fence, and the database with the lease and the transition.
unfoldable pub default_issue : ClaimEnv → ℕ → String → ℕ → String → Db → ℕ × Db
unfolding issue_fence record_transition
default_issue e j worker ttl coord db =
    let (fence, issued, db') = issue_fence e.issue_ms db in
    let id = suc db'.lease_ids in
    (
      fence,
      record_transition e.transition_ms j (some pending) leased coord (record db' {
        leases = lease_row id j fence worker issued ttl ∷ db'.leases;
        lease_ids = id;
      }),
    )

-- The transaction of _claim_one: the job and its fence, and the database after it.
unfoldable pub claim : ClaimEnv → String → ℕ → String → Db → Option (Job × ℕ) × Db
unfolding set_state default_issue claimable oldest select
claim e worker ttl coord db = elim (oldest (select (claimable e.locked) db.jobs)) [
  | none ↦ (none, db)
  | some r ↦
      let (fence, db') =
        default_issue e r.job_id worker ttl coord
          (record db { jobs = set_state r.job_id leased e.now db.jobs }) in
      (some (r, fence), db')
]

abbrev pub dispatch_fields : PgText → Job → ℕ → Fields
dispatch_fields u r fence = field "type" (str "dispatch") (
    field "job_id" (str (u.print r.job_id))
      (field "payload" (str (u.jsonb_text r.payload)) (field "fence" (num (pos fence)) end)))

unfoldable pub dispatch_message : PgText → Job → ℕ → Json
dispatch_message u r fence = obj (dispatch_fields u r fence)

abbrev set_inflight : List String → World → World
set_inflight keys w = record w { conn = record w.conn { inflight = keys } }

-- The push after the COMMIT: a send that fails drops the reservation.
unfoldable pub push : PgText → Bool → Job → ℕ → World → World
unfolding send add discard dispatch_message
push u send_ok r fence w =
    let key = u.print r.job_id in
    let reserved = set_inflight (add key w.conn.inflight) w in
    if send_ok
    then send true (dispatch_message u r fence) reserved
    else set_inflight (discard key reserved.conn.inflight) reserved

-- _claim_one: was a job claimed?
unfoldable pub claim_one : PgText → ClaimEnv → World → Result Bool × World
unfolding claim push gated
claim_one u e w =
    gated e.mono w.app.db_gate (λ x. (raise x, w))
      (let (claimed, db) = claim e w.conn.worker_id w.app.lease_ttl_ms w.app.coord_id w.db in
        if e.commit_ok
        then elim claimed [
          | none ↦ (ok false, record w { db = db })
          | some (r, fence) ↦ (ok true, push u e.send_ok r fence (record w { db = db }))
        ]
        else (raise db_error, w))

-- `len(self.inflight) < self.limit`
unfoldable pub has_capacity : ConnState → Bool
has_capacity c = elim c.limit [ pos n ↦ ltb (length c.inflight) n | negsuc n ↦ false ]

-- The inner loop of _dispatch_round, for one worker. `e` has the answers of each turn by the fuel
-- that is left, and `none` means that the fuel ran out.
unfoldable pub fill : PgText → (ℕ → ClaimEnv) → ℕ → World → Option (Result (Unit {0}) × World)
unfolding claim_one has_capacity
fill u e zero w = none
fill u e (suc f) w =
    let (r, w') = claim_one u (e f) w in
    let turn : Option (Result (Unit {0}) × World) = elim r [
      | raise x ↦ some (raise x, w')
      | ok true ↦ fill u e f w'
      | ok false ↦ some (ok tt, w')
    ] in
    if has_capacity w.conn then turn else some (ok tt, w)

-- `_paused`: is the pause_dispatch window still open?
unfoldable pub paused : ℕ → App → Bool
paused mono app = ltb mono app.dispatch_paused_until
