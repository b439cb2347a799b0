-- ===== src/Cluster/Completes.antt =====
-- A job's way through coordinator/dispatch.py, worker/worker.py and coordinator/commit.py: the frame
-- of a claim, the worker's commit of it, and what any coordinator makes of that.
use chaos_harness.Common.{
  ℕ, suc, ◌+◌, ◌<◌, max, String, ◌≡◌, refl, sym, ap, subst, ◌∙◌, Bool, true, Option, none, some,
  List, [], ◌∷◌, arith, &&_parts, select, ==_self,
}
use chaos_harness.Common.Int.{ℤ, pos}
use chaos_harness.Json.{Json, Fields, str, obj, get, or_empty}
use chaos_harness.Schema.{
  pending, leased, succeeded, Job, Lease, Commit, Db, state_of, leases_of, accepted_of, latest,
  set_state, JobState, failed, cancelled, state_eq_pending,
}
use chaos_harness.Schema.Lookup.{In, In-select, state_of-In, set_state_self}
use chaos_harness.Runtime.{World, PgText}
use chaos_harness.Runtime.Gate.{ok}
use chaos_harness.Dispatch.{push, ClaimEnv, claim_one, dispatch_fields, lease_row, claimable}
use chaos_harness.Commit.{
  CommitEnv, lease_key, accepted_fence, is_valid, accept, handle_commit, insert_commit,
}
use chaos_harness.Chaos.{Numerals}
use chaos_harness.Protocol.{IsOwned, IsFalling}
use chaos_harness.Protocol.Sound.{latest-falling}
use chaos_harness.Cluster.{Step, IsSerial}
use chaos_harness.Cluster.Consistent.{IsConsistent}
use chaos_harness.Cluster.Invariant.{Step-IsConsistent}
use chaos_harness.Cluster.Commits.{state_of-set_result}
use chaos_harness.Cluster.Rounds.{claimed, claim_takes, push_keeps, IsClaim}
use chaos_harness.Cluster.Acks.{written, IsOpen}
use chaos_harness.Cluster.Handover.{IsTurn, turn, frame_sent, frame_handled, commit_named}
use chaos_harness.Worker.Frames.{Worker, handle}
use chaos_harness.Worker.Execution.{Work, prepare, commit_frame}

-- The database after the claim: the job is leased, its latest lease is the new one.
module _ (r : Job) (f id ttl issued now : ℕ) (worker : String) (d d' : Db) (c : IsConsistent d)
    (c' : IsConsistent d') (found : In r d.jobs)
    (jobs : d'.jobs ≡ set_state r.job_id leased now d.jobs)
    (leases : d'.leases ≡ lease_row id r.job_id f worker issued ttl ∷ d.leases) where
  abbrev held : Lease
  held = lease_row id r.job_id f worker issued ttl

  held_leased : state_of r.job_id d'.jobs ≡ some leased
  held_leased =
      rw jobs
        (set_state_self r.job_id leased r.state now d.jobs (state_of-In r d.jobs c.distinct found))

  held-latest : latest (leases_of r.job_id d'.leases) ≡ some held
  unfolding leases_of select
  held-latest =
      let all : leases_of r.job_id d'.leases ≡ held ∷ leases_of r.job_id d.leases =
        rw leases (rw (==_self r.job_id) refl) in
      let falling = subst IsFalling all (c'.sound r.job_id).falling in
      ap latest all ∙ latest-falling held (leases_of r.job_id d.leases) falling

  held_valid :
      (read : ℕ)
      → read < issued + ttl
      → is_valid read (pos f) (latest (leases_of r.job_id d'.leases)) ≡ true
  unfolding is_valid
  held_valid read less = rw held-latest (ground arith)

  leased_free :
      (s : Option JobState) (ls : List Lease) (cs : List Commit)
      → IsOwned s ls cs
      → s ≡ some leased
      → cs ≡ []
  leased_free (some leased) ls cs o e = o.1
  leased_free none ls cs o e = absurd (cc)
  leased_free (some pending) ls cs o e = o.1
  leased_free (some succeeded) ls cs o e = absurd (cc)
  leased_free (some failed) ls cs o e = absurd (cc)
  leased_free (some cancelled) ls cs o e = o.1

  held_free : accepted_fence r.job_id d'.commits ≡ none
  unfolding accepted_fence
  held_free =
      let free =
        leased_free (state_of r.job_id d'.jobs) (leases_of r.job_id d'.leases)
          (accepted_of r.job_id d'.commits) (c'.sound r.job_id).owned held_leased in
      rw (free, accepted_fence) refl

-- What an accepted commit shows.
accepted_shows :
    (e : CommitEnv) (j : ℕ) (f : ℤ) (result : Json) (worker coord : String) (d : Db) (s : JobState)
    → state_of j d.jobs ≡ some s
    → (state_of j (accept e j f result worker coord d).jobs ≡ some succeeded)
      × (accepted_fence j (accept e j f result worker coord d).commits ≡ some f)
unfolding accept insert_commit accepted_fence accepted_of select
accepted_shows e j f result worker coord d s h = (
  rw (state_of-set_result j j result e.now d.jobs, ==_self j, h) refl,
  rw (==_self j, accepted_fence) refl,
)

claim_step : (u : PgText) (e : ClaimEnv) (w : World) → Step u w.db (claim_one u e w).1.db
claim_step u e w = Step.claim e w refl refl

claimable_pending : (locked : ℕ → Bool) (r : Job) → claimable locked r ≡ true → r.state ≡ pending
unfolding claimable
claimable_pending locked r h = state_eq_pending r.state (&&_parts _ _ h).0

-- The worker's commit of the lease, at any coordinator.
commits_held :
    (u : PgText) (r : Job) (f id ttl issued now : ℕ) (holder : String) (d d' : Db)
    → IsConsistent d
    → IsConsistent d'
    → In r d.jobs
    → d'.jobs ≡ set_state r.job_id leased now d.jobs
    → d'.leases ≡ lease_row id r.job_id f holder issued ttl ∷ d.leases
    → (s : Numerals) (loads : String → Option Json) (worker : String) (p : Work) (c : CommitEnv)
      (g : World)
    → prepare s loads (dispatch_fields u r f) ≡ ok p
    → g.db ≡ d'
    → IsOpen c.mono g
    → IsSerial c.others
    → c.jsonb_ok ≡ true
    → c.commit_ok ≡ true
    → c.read_ms < issued + ttl
    → (state_of r.job_id (handle_commit u c (commit_frame worker p) g).1.db.jobs ≡ some succeeded)
      × (accepted_fence r.job_id (handle_commit u c (commit_frame worker p) g).1.db.commits
          ≡ some (pos f))
commits_held u r f id ttl issued now holder d d' k k' found jobs leases s loads worker p c g
      prepared same opened serial jsonb commits early =
    let valid =
      held_valid r f id ttl issued now holder d d' k k' found jobs leases c.read_ms early in
    let free = held_free r f id ttl issued now holder d d' k k' found jobs leases in
    let is_leased = held_leased r f id ttl issued now holder d d' k k' found jobs leases in
    let still = serial g.db ∙ same in
    let m = commit_frame worker p in
    let run =
      (written u c m g (u.print r.job_id) (pos f) r.job_id
          (commit_named u s loads worker r f p prepared) (u.parse-print r.job_id) opened.0 opened.1
          (ap (λ (x : Db). is_valid c.read_ms (pos f) (latest (leases_of r.job_id x.leases))) same
            ∙ valid)
          (ap (λ (x : Db). accepted_fence r.job_id x.commits) same ∙ free)
          (ap (λ (x : Db). accepted_fence r.job_id x.commits) still ∙ free) jsonb).0
        commits in
    let shows =
      accepted_shows c r.job_id (pos f) (or_empty (get "result" m)) g.conn.worker_id g.app.coord_id
        (c.others g.db) leased (ap (λ (x : Db). state_of r.job_id x.jobs) still ∙ is_leased) in
    (
      ap (λ (x : Db). state_of r.job_id x.jobs) run ∙ shows.0,
      ap (λ (x : Db). accepted_fence r.job_id x.commits) run ∙ shows.1,
    )

-- On a consistent database, a turn claims a job, and its push arrives. Then a worker that reads the
-- frame starts a task for it, and if the task gets to commit, any coordinator whose gate and
-- database let that commit through before the lease's deadline, with no other session in between,
-- makes the job, which was pending, succeed under the fence of its lease.
pub dispatched_succeeds :
    (u : PgText) (e : ClaimEnv) (w : World) (m : Fields) (v : Worker) (s : Numerals)
    (loads : String → Option Json) (worker : String) (p : Work) (c : CommitEnv) (g : World)
    → IsConsistent w.db
    → e.send_ok ≡ true
    → (claim_one u e w).0 ≡ ok true
    → (claim_one u e w).1.conn.ws_sent ≡ obj m ∷ w.conn.ws_sent
    → prepare s loads m ≡ ok p
    → g.db ≡ (claim_one u e w).1.db
    → IsOpen c.mono g
    → IsSerial c.others
    → c.jsonb_ok ≡ true
    → c.commit_ok ≡ true
    → c.read_ms < max e.issue_ms (w.db.last_issued + 1) + w.app.lease_ttl_ms
    → (handle (obj m) v ≡ (ok tt, record v { made = suc v.made; jobs = (v.made, m) ∷ v.jobs }))
      × (j : ℕ) × (f : ℕ) × (state_of j w.db.jobs ≡ some pending)
      × (lease_key (commit_frame worker p) ≡ some (str (u.print j), pos f))
      × (state_of j (handle_commit u c (commit_frame worker p) g).1.db.jobs ≡ some succeeded)
      × (accepted_fence j (handle_commit u c (commit_frame worker p) g).1.db.commits ≡ some (pos f))
unfolding IsTurn
dispatched_succeeds u e w m v s loads worker p c g consistent sends h read prepared same opened
      serial jsonb commits early =
    let (r, f, q, next) = turn u e w h in
    let d' = (claimed e w).1 in
    let taken =
      subst (IsClaim e w.conn.worker_id w.app.lease_ttl_ms w.db)
        (ap (λ (o : Option (Job × ℕ)). (o, d')) q)
        (claim_takes e w.conn.worker_id w.app.lease_ttl_ms w.app.coord_id w.db consistent) in
    let (found, was) = In-select (claimable e.locked) r w.db.jobs taken.0 in
    let stored : (claim_one u e w).1.db ≡ d' =
      ap (λ (x : World). x.db) next ∙ (push_keeps u e.send_ok r f _).0 in
    let after : IsConsistent d' =
      subst IsConsistent stored (Step-IsConsistent consistent (claim_step u e w)) in
    let sent : obj m ∷ w.conn.ws_sent ≡ obj (dispatch_fields u r f) ∷ w.conn.ws_sent =
      sym read
      ∙ ap (λ (x : World). x.conn.ws_sent) next
      ∙ subst
          (λ b.
            (push u b r f (record w { db = d' })).conn.ws_sent
            ≡ obj (dispatch_fields u r f) ∷ w.conn.ws_sent)
          (sym sends) (frame_sent u r f _) in
    let frame : dispatch_fields u r f ≡ m = cc in
    let named = subst (λ x. prepare s loads x ≡ ok p) (sym frame) prepared in
    let done =
      commits_held u r f (suc w.db.lease_ids) w.app.lease_ttl_ms
        (max e.issue_ms (w.db.last_issued + 1)) e.now w.conn.worker_id w.db d' consistent after
        found taken.3 taken.4 s loads worker p c g named (same ∙ stored) opened serial jsonb commits
        early in
    (
      subst
          (λ x.
            handle (obj x) v ≡ (ok tt, record v { made = suc v.made; jobs = (v.made, x) ∷ v.jobs }))
          frame (frame_handled u r f v),
      r.job_id,
      f,
      state_of-In r w.db.jobs consistent.distinct found
          ∙ ap some (claimable_pending e.locked r was),
      commit_named u s loads worker r f p named,
      done.0,
      done.1,
    )
