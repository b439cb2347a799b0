-- ===== src/Cluster/Invariant.antt =====
-- Every handler refines the protocol of chaos_harness.Protocol and keeps the tables consistent.
use chaos_harness.Common.{ℕ, String, ◌≡◌, refl, sym, subst, true, false, Option, none}
use chaos_harness.Common.Int.{ℤ}
use chaos_harness.Json.{Json, Fields}
use chaos_harness.Schema.{Lease, Db, state_of, leases_of, accepted_of, transitions_of, latest}
use chaos_harness.Jobs.{CreateEnv, CancelEnv}
use chaos_harness.Dispatch.{ClaimEnv}
use chaos_harness.Commit.{CommitEnv, accepted_fence, is_valid, accept, insert_commit}
use chaos_harness.Reaper.{ReapEnv}
use chaos_harness.Protocol.{JobStep, stay}
use chaos_harness.Cluster.{view, IsScanned}
use chaos_harness.Cluster.Consistent.{IsConsistent}
use chaos_harness.Protocol.Sound.{JobStep-IsSound}
use chaos_harness.Runtime.{World, PgText}
use chaos_harness.Schema.{init}
use chaos_harness.Jobs.{handle_create_job, handle_cancel_job}
use chaos_harness.Dispatch.{claim_one}
use chaos_harness.Commit.{handle_heartbeat, handle_commit}
use chaos_harness.Reaper.{reap_one}
use chaos_harness.Cluster.{Step, Reach, here, next, IsSerial}
use chaos_harness.Cluster.Tables.{
  create_cases, claim_cases, heartbeat_cases, reap_cases, cancel_cases, commit_cases,
}
use chaos_harness.Cluster.Bounds.{
  IsBounded, insert-IsBounded, cancel-IsBounded, claim-IsBounded, renew-IsBounded, reap-IsBounded,
  accept-IsBounded, reject-IsBounded, burn-IsBounded,
}
use chaos_harness.Cluster.Submits.{insert-JobStep, cancel-JobStep}
use chaos_harness.Cluster.Claims.{claim-JobStep}
use chaos_harness.Cluster.Commits.{renew-JobStep, accept-JobStep, reject-JobStep}
use chaos_harness.Cluster.Reaps.{reap-JobStep}

-- What a handler makes of a database: its constraints hold, and each job makes a step.
abbrev Refines : Db → Db → Type 0
Refines d d' = IsBounded d' × ((i : ℕ) → JobStep (view i d) (view i d'))

abbrev bounds : {d : Db} → IsConsistent d → IsBounded d
bounds c = (c.distinct, c.fresh)

same : {d : Db} → IsConsistent d → Refines d d
same c = (bounds c, λ i. stay refl)

module _ (u : PgText) (w : World) (c : IsConsistent w.db) where
  create-Refines :
      (e : CreateEnv) (body : Option Json) → Refines w.db (handle_create_job u e body w).1.db
  create-Refines e body = create_cases (Refines w.db) u e body w (same c) λ key payload b j d q. (
    insert-IsBounded w.db (bounds c) e key payload w.app.coord_id b j d q,
    λ i. insert-JobStep i w.db e key payload w.app.coord_id b j d q,
  )

  cancel-Refines :
      (e : CancelEnv) (id : String)
      → IsSerial e.others
      → Refines w.db (handle_cancel_job u e id w).1.db
  cancel-Refines e id serial =
      cancel_cases (Refines w.db) u e id w (λ d h. subst (Refines w.db) (sym (serial d)) h) (same c)
        λ j. (
          cancel-IsBounded w.db (bounds c) e j w.app.coord_id,
          λ i. cancel-JobStep i w.db c e j w.app.coord_id,
        )

  claim-Refines : (e : ClaimEnv) → Refines w.db (claim_one u e w).1.db
  claim-Refines e = claim_cases (Refines w.db) u e w (same c) (
    claim-IsBounded w.db (bounds c) e w.conn.worker_id w.app.lease_ttl_ms w.app.coord_id,
    λ i. claim-JobStep i w.db c e w.conn.worker_id w.app.lease_ttl_ms w.app.coord_id,
  )

  heartbeat-Refines :
      (mono now : ℕ) (m : Fields) → Refines w.db (handle_heartbeat u mono now m w).1.db
  heartbeat-Refines mono now m = heartbeat_cases (Refines w.db) u mono now m w (same c) λ j f. (
    renew-IsBounded w.db (bounds c) now j f w.app.lease_ttl_ms,
    λ i. renew-JobStep i w.db now j f w.app.lease_ttl_ms,
  )

  reap-Refines :
      (e : ReapEnv) (row : Lease)
      → IsScanned row w.db.leases
      → Refines w.db (reap_one u e row w).1.db
  reap-Refines e row scanned = reap_cases (Refines w.db) u e row w (same c) λ l q. (
    reap-IsBounded w.db (bounds c) e row.id row.job_id row.fence w.app.coord_id,
    λ i. reap-JobStep e row l w.app.coord_id w.db c scanned q i,
  )

  accept-Refines :
      (e : CommitEnv) (j : ℕ) (f : ℤ) (result : Json) (d : Db)
      → d ≡ w.db
      → is_valid e.read_ms f (latest (leases_of j w.db.leases)) ≡ true
      → accepted_fence j d.commits ≡ none
      → Refines w.db (accept e j f result w.conn.worker_id w.app.coord_id d)
  accept-Refines e j f result d q valid free =
      subst (λ x. Refines w.db (accept e j f result w.conn.worker_id w.app.coord_id x)) (sym q)
        (
          accept-IsBounded w.db (bounds c) e j f result w.conn.worker_id w.app.coord_id,
          λ i.
              accept-JobStep e j f result w.conn.worker_id w.app.coord_id w.db valid
                (subst (λ x. accepted_fence j x.commits ≡ none) q free) i (c.sound i),
        )

  reject-Refines :
      (now j : ℕ) (f : ℤ) (d : Db)
      → d ≡ w.db
      → Refines w.db (insert_commit now j f w.conn.worker_id false d)
  reject-Refines now j f d q =
      subst (λ x. Refines w.db (insert_commit now j f w.conn.worker_id false x)) (sym q)
        (
          reject-IsBounded w.db (bounds c) now j f w.conn.worker_id,
          λ i. reject-JobStep i w.db now j f w.conn.worker_id,
        )

  commit-Refines :
      (e : CommitEnv) (m : Fields) → IsSerial e.others → Refines w.db (handle_commit u e m w).1.db
  commit-Refines e m serial =
      commit_cases (Refines w.db) u e w (same c) (subst (Refines w.db) (sym (serial w.db)) (same c))
        (λ j f result valid free.
          accept-Refines e j f result (e.others w.db) (serial w.db) valid free)
        (λ j f. reject-Refines e.insert_ms j f (e.others w.db) (serial w.db)) m

-- From a world whose database is d to d itself.
at_db :
    {d d' : Db} (w : World) (f : World → Db)
    → w.db ≡ d
    → d' ≡ f w
    → (IsConsistent w.db → Refines w.db (f w))
    → IsConsistent d
    → Refines d d'
at_db {d' = d'} w f from to run c =
    subst (λ x. Refines x d') from
      (subst (Refines w.db) (sym to) (run (subst IsConsistent (sym from) c)))

Step-Refines : {u : PgText} {d d' : Db} → Step u d d' → IsConsistent d → Refines d d'
Step-Refines {u} (Step.create e body w from to) c =
    at_db w (λ v. (handle_create_job u e body v).1.db) from to (λ k. create-Refines u w k e body) c
Step-Refines {u} (Step.cancel e id w serial from to) c =
    at_db w (λ v. (handle_cancel_job u e id v).1.db) from to (λ k. cancel-Refines u w k e id serial)
      c
Step-Refines {u} (Step.claim e w from to) c =
    at_db w (λ v. (claim_one u e v).1.db) from to (λ k. claim-Refines u w k e) c
Step-Refines {u} (Step.heartbeat mono now m w from to) c =
    at_db w (λ v. (handle_heartbeat u mono now m v).1.db) from to
      (λ k. heartbeat-Refines u w k mono now m) c
Step-Refines {u} (Step.commit e m w serial from to) c =
    at_db w (λ v. (handle_commit u e m v).1.db) from to (λ k. commit-Refines u w k e m serial) c
Step-Refines {u} (Step.reap e row w scanned from to) c =
    at_db w (λ v. (reap_one u e row v).1.db) from to
      (λ k. reap-Refines u w k e row (subst (λ x. IsScanned row x.leases) (sym from) scanned)) c
Step-Refines {u} {d} (Step.burn fences transitions leases commits to) c =
    subst (Refines d) (sym to)
      (burn-IsBounded d (bounds c) fences transitions leases commits, λ i. stay refl)

-- On a consistent database, a step of the dispatcher is a step, or none, of each job's protocol.
pub Step-JobStep :
    {u : PgText} {d d' : Db} (i : ℕ) → IsConsistent d → Step u d d' → JobStep (view i d) (view i d')
Step-JobStep i c s = (Step-Refines s c).1 i

pub Step-IsConsistent : {u : PgText} {d d' : Db} → IsConsistent d → Step u d d' → IsConsistent d'
Step-IsConsistent c s =
    let (bounded, steps) = Step-Refines s c in
    record {
      distinct = bounded.0;
      fresh = bounded.1;
      sound = λ i. JobStep-IsSound (steps i) (c.sound i);
    }

pub init-IsConsistent : IsConsistent init
unfolding state_of leases_of accepted_of transitions_of
init-IsConsistent = record {
  distinct = tt;
  fresh = tt;
  sound = λ i. record { owned = (refl, refl); falling = tt; walk = tt };
}

-- From a consistent database every reachable one is consistent.
pub Reach-IsConsistent : {u : PgText} {d d' : Db} → IsConsistent d → Reach u d d' → IsConsistent d'
Reach-IsConsistent c here = c
Reach-IsConsistent c (next r s) = Step-IsConsistent (Reach-IsConsistent c r) s
