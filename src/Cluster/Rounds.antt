-- ===== src/Cluster/Rounds.antt =====
-- The claim and the inner loop of `_dispatch_round` of coordinator/dispatch.py: which job is
-- claimed, that the loop ends, and the capacity of the worker.
use chaos_harness.Common.{
  ℕ, zero, suc, ◌+◌, ◌<◌, ◌≤◌, String, ◌≡◌, refl, ap, subst, inl, inr, Bool, true, false, Option,
  none, some, List, [], ◌∷◌, arith, Bool-cases, Option-cases, select, update, length, is_some, ltb,
  All, All-mono, max, &&_parts,
}
use chaos_harness.Schema.{
  pending, leased, Job, Lease, Db, set_state, state_eq, record_transition, issue_fence,
}
use chaos_harness.Schema.Lookup.{In, In-select}
use chaos_harness.Runtime.{World, PgText, send}
use chaos_harness.Runtime.Gate.{Exc, Result, ok, raise, db_error, gated, gate}
use chaos_harness.Dispatch.{
  ClaimEnv, claimable, oldest, claim, default_issue, claim_one, push, fill, lease_row,
}
use chaos_harness.Cluster.Consistent.{IsConsistent, fences-All}
use chaos_harness.Cluster.Tables.{Result-cases}
use chaos_harness.Cluster.Claims.{oldest-In}

-- The jobs in the queue.
abbrev pub queued : List Job → ℕ
queued rs = length (select (λ r. state_eq r.state pending) rs)

queued_le : (j now : ℕ) (rs : List Job) → queued (set_state j leased now rs) ≤ queued rs
unfolding set_state select update state_eq
queued_le j now [] = omega arith
queued_le j now (r ∷ rs) = ground (arith, queued_le j now rs)

queued_less :
    (now : ℕ) (r : Job) (rs : List Job)
    → In r rs
    → state_eq r.state pending ≡ true
    → queued (set_state r.job_id leased now rs) < queued rs
unfolding set_state select update state_eq
queued_less now r [] h q = absurd h
queued_less now r (x ∷ rs) (inl e) q =
    ground
      (arith, queued_le r.job_id now rs, ap (λ (s : Job). s.job_id) e, ap (λ (s : Job). s.state) e)
queued_less now r (x ∷ rs) (inr h) q = ground (arith, queued_less now r rs h q)

pub oldest-none : (rs : List Job) → oldest rs ≡ none → rs ≡ []
unfolding oldest
oldest-none [] h = refl
oldest-none (x ∷ rs) h =
    absurd (elim (Option-cases (oldest rs)) [ inl q ↦ ground arith | inr (s, q) ↦ ground arith ])

oldest_least :
    (rs : List Job) (r : Job)
    → oldest rs ≡ some r
    → All (λ (s : Job). r.created_at ≤ s.created_at) rs
unfolding oldest
oldest_least [] r h = tt
oldest_least (x ∷ rs) r h = elim (Option-cases (oldest rs)) [
  | inl q ↦ let same : x ≡ r = ground arith in rw (oldest-none rs q) (rw same (omega arith), tt)
  | inr (s, q) ↦
      let least = oldest_least rs s q in
      elim (Bool-cases (ltb x.created_at s.created_at)) [
        | inl older ↦
            let same : x ≡ r = ground arith in
            subst (λ (y : Job). All (λ (z : Job). y.created_at ≤ z.created_at) (x ∷ rs)) same
              (omega arith, All-mono rs (λ z k. ground arith) least)
        | inr newer ↦
            let same : s ≡ r = ground arith in
            subst (λ (y : Job). All (λ (z : Job). y.created_at ≤ z.created_at) (x ∷ rs)) same
              (ground arith, least)
      ]
]

-- What a claim gives, and the database that it leaves.
abbrev pub IsClaim : ClaimEnv → String → ℕ → Db → Option (Job × ℕ) × Db → Type 0
IsClaim e worker ttl d (none, d') = (d' ≡ d) × (select (claimable e.locked) d.jobs ≡ [])
IsClaim e worker ttl d (some (r, f), d') =
    In r (select (claimable e.locked) d.jobs)
    × All (λ (s : Job). r.created_at ≤ s.created_at) (select (claimable e.locked) d.jobs)
    × All (λ (l : Lease). l.fence < f) d.leases
    × (d'.jobs ≡ set_state r.job_id leased e.now d.jobs)
    × (d'.leases
        ≡ lease_row (suc d.lease_ids) r.job_id f worker (max e.issue_ms (d.last_issued + 1)) ttl
          ∷ d.leases)

-- On a consistent database: a claim that finds a job takes a pending, unlocked one, no younger than
-- any other such job, under a fence above all that the database has; it makes the job leased and
-- adds a live lease whose deadline is its time of issue + TTL. A claim that finds none leaves the
-- database, which has no such job.
pub claim_takes :
    (e : ClaimEnv) (worker : String) (ttl : ℕ) (coord : String) (d : Db)
    → IsConsistent d
    → IsClaim e worker ttl d (claim e worker ttl coord d)
unfolding claim default_issue issue_fence record_transition
claim_takes e worker ttl coord d c =
    elim (Option-cases (oldest (select (claimable e.locked) d.jobs))) [
      | inl q ↦ rw (claim, q) (refl, oldest-none _ q)
      | inr (r, q) ↦
          rw (claim, q)
            (oldest-In _ r q, oldest_least _ r q, fences-All _ _ _ d.leases c.fresh, refl, refl)
    ]

-- No claim adds a job to the queue.
pub claim_queue :
    (e : ClaimEnv) (worker : String) (ttl : ℕ) (coord : String) (d : Db)
    → queued (claim e worker ttl coord d).1.jobs ≤ queued d.jobs
unfolding claim default_issue issue_fence record_transition
claim_queue e worker ttl coord d =
    elim (Option-cases (oldest (select (claimable e.locked) d.jobs))) [
      | inl q ↦ rw (claim, q) (omega arith)
      | inr (r, q) ↦ rw (claim, q) (queued_le r.job_id e.now d.jobs)
    ]

-- The turns of the loop. A claim that succeeds takes a job out of the queue.
claim_shrinks :
    (e : ClaimEnv) (worker : String) (ttl : ℕ) (coord : String) (d : Db)
    → is_some (claim e worker ttl coord d).0 ≡ true
    → queued (claim e worker ttl coord d).1.jobs < queued d.jobs
unfolding claim default_issue issue_fence record_transition claimable
claim_shrinks e worker ttl coord d h =
    elim (Option-cases (oldest (select (claimable e.locked) d.jobs))) [
      | inl q ↦ absurd (ground arith)
      | inr (r, q) ↦
          let (found, free) = In-select (claimable e.locked) r d.jobs (oldest-In _ r q) in
          rw (claim, q) (queued_less e.now r d.jobs found (&&_parts _ _ free).0)
    ]

pub push_keeps :
    (u : PgText) (b : Bool) (r : Job) (f : ℕ) (w : World)
    → ((push u b r f w).db ≡ w.db) × ((push u b r f w).conn.limit ≡ w.conn.limit)
unfolding push send
push_keeps u b r f w = ground arith

abbrev pub claimed : ClaimEnv → World → Option (Job × ℕ) × Db
claimed e w = claim e w.conn.worker_id w.app.lease_ttl_ms w.app.coord_id w.db

module _ (P : Result Bool × World → Type 0) (u : PgText) (e : ClaimEnv) (w : World) where
  pub turn_cases :
      ((x : Exc) → P (raise x, w))
      → ((claimed e w).0 ≡ none → P (ok false, record w { db = (claimed e w).1 }))
      → ((r : Job) (f : ℕ)
          → (claimed e w).0 ≡ some (r, f)
          → P (ok true, push u e.send_ok r f (record w { db = (claimed e w).1 })))
      → P (claim_one u e w)
  unfolding claim_one gated
  turn_cases raised idle taken = elim (Result-cases (gate e.mono w.app.db_gate)) [
    | inr (x, q) ↦ rw (claim_one, gated, q) (raised x)
    | inl (t, q) ↦ elim (Option-cases (claimed e w).0) [
      | inl o ↦ rw (claim_one, gated, q, o) (ground (arith, raised db_error, idle o))
      | inr ((r, f), o) ↦ rw (claim_one, gated, q, o) (ground (arith, raised db_error, taken r f o))
    ]
  ]

pub turn_shrinks :
    (u : PgText) (e : ClaimEnv) (w : World)
    → (claim_one u e w).0 ≡ ok true
    → queued (claim_one u e w).1.db.jobs < queued w.db.jobs
turn_shrinks u e w =
    turn_cases (λ r. r.0 ≡ ok true → queued r.1.db.jobs < queued w.db.jobs) u e w (λ x h. cc)
      (λ o h. cc)
      (λ r f o h.
        rw (push_keeps u e.send_ok r f _).0
          (claim_shrinks e w.conn.worker_id w.app.lease_ttl_ms w.app.coord_id w.db (rw o refl)))

-- The inner loop ends: with more fuel than there are pending jobs it does not run out, whatever
-- the sockets, the clocks, the locks and the COMMITs answer.
pub fill_ends :
    (u : PgText) (e : ℕ → ClaimEnv) (fuel : ℕ) (w : World)
    → queued w.db.jobs < fuel
    → is_some (fill u e fuel w) ≡ true
unfolding fill
fill_ends u e zero w h = absurd (omega arith)
fill_ends u e (suc fuel) w h = elim (Result-cases (claim_one u (e fuel) w).0) [
  | inr (x, q) ↦ ground (arith)
  | inl (true, q) ↦
      let less = turn_shrinks u (e fuel) w q in
      ground (arith, fill_ends u e fuel (claim_one u (e fuel) w).1 (omega arith))
  | inl (false, q) ↦ ground arith
]
