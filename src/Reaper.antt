-- ===== src/Reaper.antt =====
-- coordinator/reaper.py: expiry of overdue leases and the return of their jobs to the queue.
use chaos_harness.Common.{
  ℕ, zero, suc, ◌-◌, String, Bool, true, false, ◌&&◌, Option, none, some, List, [], ◌∷◌, ltb, leb,
  ◌==◌, if◌then◌else◌, select, update, first, max,
}
use chaos_harness.Json.{str}
use chaos_harness.Schema.{
  JobState, pending, leased, Lease, Db, record_transition, state_of, set_state, leases_of,
  accepted_of, is_live, latest,
}
use chaos_harness.Runtime.{World, PgText, publish}
use chaos_harness.Runtime.Gate.{Result, ok, raise, db_error, gated}
use chaos_harness.Jobs.{wakeup_channel}

-- WHERE expired_at_ms IS NULL AND expires_at_ms < db_now_ms()
unfoldable pub overdue : ℕ → Lease → Bool
overdue now l = is_live l && ltb l.expires_at_ms now

-- ORDER BY expires_at_ms
unfoldable pub insert_by_expiry : Lease → List Lease → List Lease
insert_by_expiry l [] = l ∷ []
insert_by_expiry l (m ∷ ms) =
    let later = insert_by_expiry l ms in
    if leb l.expires_at_ms m.expires_at_ms then l ∷ m ∷ ms else m ∷ later

unfoldable pub by_expiry : List Lease → List Lease
unfolding insert_by_expiry
by_expiry [] = []
by_expiry (l ∷ ls) = insert_by_expiry l (by_expiry ls)

-- LIMIT
unfoldable pub limit : ℕ → List Lease → List Lease
limit zero ls = []
limit (suc n) [] = []
limit (suc n) (l ∷ ls) = l ∷ limit n ls

-- The candidates of one round.
unfoldable pub candidates : ℕ → Db → List Lease
unfolding overdue by_expiry limit select
candidates now db = limit 100 (by_expiry (select (overdue now) db.leases))

pub record ReapEnv : Type 0 where
  pub mono : ℕ
  -- db_now_ms() of the expiry, of its overdue time and of the transition; now() for `updated_at`.
  pub expire_ms : ℕ
  pub overdue_ms : ℕ
  pub transition_ms : ℕ
  pub now : ℕ
  pub publish_ok : Bool
  pub commit_ok : Bool

-- WHERE id = $1 AND expired_at_ms IS NULL AND expires_at_ms < db_now_ms()
unfoldable pub to_expire : ReapEnv → ℕ → Lease → Bool
unfolding overdue
to_expire e id l = l.id == id && overdue e.expire_ms l

unfoldable pub expire : ReapEnv → ℕ → List Lease → List Lease
unfolding update to_expire
expire e id = update (to_expire e id) (λ l. record l { expired_at_ms = some e.expire_ms })

-- $2 = (SELECT max(fence) FROM leases WHERE job_id = …)
unfoldable pub is_max_fence : ℕ → Option Lease → Bool
is_max_fence fence none = false
is_max_fence fence (some l) = fence == l.fence

abbrev pub is_leased : Option JobState → Bool
is_leased (some leased) = true
is_leased _ = false

abbrev is_nil {ℓ} : {A : Type ℓ} → List A → Bool
is_nil [] = true
is_nil (_ ∷ _) = false

-- The condition of the requeueing UPDATE.
unfoldable pub may_requeue : ℕ → ℕ → Db → Bool
unfolding state_of leases_of latest is_max_fence accepted_of
may_requeue j fence db =
    is_leased (state_of j db.jobs)
    && (is_max_fence fence (latest (leases_of j db.leases)) && is_nil (accepted_of j db.commits))

unfoldable pub requeue : ReapEnv → ℕ → String → Db → Db
unfolding set_state record_transition
requeue e j coord db =
    record_transition e.transition_ms j (some leased) pending coord
      (record db { jobs = set_state j pending e.now db.jobs })

-- The transaction of _reap_one on a lease that is still to be expired: was the job requeued?
unfoldable pub reap : ReapEnv → ℕ → ℕ → ℕ → String → Db → Bool × Db
unfolding expire may_requeue requeue
reap e id j fence coord db =
    let db₁ = record db { leases = expire e id db.leases } in
    if may_requeue j fence db₁ then (true, requeue e j coord db₁) else (false, db₁)

-- What follows a requeue, in the process and on Redis; `late` is the lease's overdue time.
unfoldable pub note_requeue : PgText → ReapEnv → ℕ → ℕ → World → World
unfolding publish
note_requeue u e j late w = publish e.publish_ok wakeup_channel (str (u.print j)) (record w {
  app = record w.app { max_rels_latency_ms = max w.app.max_rels_latency_ms late; wake = true };
})

-- _reap_one on one row of the scan. The maximum is taken inside the transaction, before its COMMIT.
unfoldable pub reap_one : PgText → ReapEnv → Lease → World → Result (Unit {0}) × World
unfolding to_expire reap note_requeue gated first
reap_one u e row w =
    gated e.mono w.app.db_gate (λ x. (raise x, w))
      (elim (first (to_expire e row.id) w.db.leases) [
        | none ↦ if e.commit_ok then (ok tt, w) else (raise db_error, w)
        | some l ↦
            let (requeued, db) = reap e row.id row.job_id row.fence w.app.coord_id w.db in
            let late = e.overdue_ms - l.expires_at_ms in
            if e.commit_ok
            then (
              ok tt,
              if requeued
                  then note_requeue u e row.job_id late (record w { db = db })
                  else record w { db = db },
            )
            else (
              raise db_error,
              if requeued
                  then record w {
                    app = record w.app { max_rels_latency_ms = max w.app.max_rels_latency_ms late };
                  }
                  else w,
            )
      ])

-- The loop of _reap_round over the rows of its scan: an exception ends it. Other sessions commit
-- between two turns.
unfoldable reap_rows :
    PgText → (Lease → ReapEnv × (Db → Db)) → List Lease → World → Result (Unit {0}) × World
unfolding reap_one
reap_rows u e [] w = (ok tt, w)
reap_rows u e (row ∷ rows) w =
    let (env, others) = e row in
    let (r, w') = reap_one u env row (record w { db = others w.db }) in
    elim r [ raise x ↦ (raise x, w') | ok _ ↦ reap_rows u e rows w' ]
