-- ===== src/Cluster/Results.antt =====
-- The result column of jobs: written once by coordinator/commit.py, and read by handle_get_job of
-- coordinator/app.py.
use chaos_harness.Common.{
  ℕ, String, ◌≡◌, refl, sym, ◌∙◌, subst, inl, inr, Bool, Option, none, some, List, [], ◌∷◌, arith,
  ◌==◌, ==_iff, if◌then◌else◌, is_some, select, update, first, Bool-cases, Option-cases,
}
use chaos_harness.Common.Int.{ℤ}
use chaos_harness.Json.{Json}
use chaos_harness.Schema.{
  JobState, pending, leased, succeeded, failed, cancelled, Job, Lease, Commit, Db, init, is_job,
  state_of, id_of_key, set_state, leases_of, accepted_of, latest,
}
use chaos_harness.Runtime.Gate.{ok}
use chaos_harness.Jobs.{CreateEnv, CancelEnv, insert_job, add_job, cancel_job}
use chaos_harness.Dispatch.{ClaimEnv, claim, claimable, oldest, default_issue}
use chaos_harness.Commit.{CommitEnv, accepted_fence, accept, insert_commit, set_result}
use chaos_harness.Reaper.{ReapEnv, reap, expire, may_requeue, requeue}
use chaos_harness.Protocol.{IsOwned}
use chaos_harness.Cluster.Consistent.{IsConsistent}
use chaos_harness.Cluster.Commits.{accepted_none}

-- SELECT result FROM jobs WHERE job_id = …
pub result_of : ℕ → List Job → Option Json
result_of j [] = none
result_of j (r ∷ rs) = let later = result_of j rs in if r.job_id == j then r.result else later

result_of-update :
    (f : Job → Job) (p : Job → Bool)
    → ((r : Job) → (f r).job_id ≡ r.job_id)
    → ((r : Job) → (f r).result ≡ r.result)
    → (j : ℕ) (rs : List Job) → result_of j (update p f rs) ≡ result_of j rs
unfolding result_of update
result_of-update f p ids results j [] = refl
result_of-update f p ids results j (r ∷ rs) =
    ground (arith, ids r, results r, result_of-update f p ids results j rs)

result_of-set_state :
    (i j : ℕ) (s : JobState) (now : ℕ) (rs : List Job)
    → result_of i (set_state j s now rs) ≡ result_of i rs
unfolding set_state
result_of-set_state i j s now rs = result_of-update _ (is_job j) (λ r. refl) (λ r. refl) i rs

pub result_of-set_result :
    (i j : ℕ) (v : Json) (now : ℕ) (rs : List Job)
    → result_of i (set_result j v now rs)
      ≡ (if j == i then (if is_some (state_of i rs) then some v else none) else result_of i rs)
unfolding set_result update result_of state_of
result_of-set_result i j v now [] = ground arith
result_of-set_result i j v now (r ∷ rs) = ground (arith, result_of-set_result i j v now rs)

-- The row that handle_get_job finds.
pub row_found :
    (j : ℕ) (s : JobState) (rs : List Job)
    → state_of j rs ≡ some s
    → (r : Job) × (first (is_job j) rs ≡ some r)
      × (r.job_id ≡ j)
      × (r.state ≡ s)
      × (r.result ≡ result_of j rs)
unfolding state_of first result_of
row_found j s [] h = cc
row_found j s (r ∷ rs) h = elim (Bool-cases (r.job_id == j)) [
  | inl e ↦ (r, rw e refl, (==_iff r.job_id j).0 e, ground arith, rw e refl)
  | inr e ↦
      let (x, found, id, state, result) = row_found j s rs (ground arith) in
      (x, rw e found, id, state, rw e result)
]

-- A job that has succeeded keeps its result.
abbrev pub Keeps : ℕ → Db → Db → Type 0
Keeps j d d' = result_of j d'.jobs ≡ result_of j d.jobs

module _ (j : ℕ) (d : Db) (done : state_of j d.jobs ≡ some succeeded) where
  pub insert-Keeps :
      (e : CreateEnv) (key : String) (payload : Json) (coord : String) (b : Bool) (i : ℕ) (d' : Db)
      → insert_job e key payload coord d ≡ ok (b, i, d')
      → Keeps j d d'
  unfolding insert_job add_job chaos_harness.Schema.record_transition result_of
  insert-Keeps e key payload coord b i d' q = elim (Option-cases (id_of_key key d.jobs)) [
    | inr (k, r) ↦ let same : d ≡ d' = ground arith in subst (Keeps j d) same refl
    | inl r ↦ elim (Option-cases (state_of e.new_id d.jobs)) [
      | inr (s, t) ↦ absurd (ground arith)
      | inl t ↦
          let same : add_job e key payload coord d ≡ d' = ground arith in
          subst (Keeps j d) same (elim (Bool-cases (e.new_id == j)) [
            | inr n ↦ rw n refl
            | inl n ↦
                let there : some succeeded ≡ none =
                  sym done ∙ subst (λ x. state_of x d.jobs ≡ none) ((==_iff e.new_id j).0 n) t in
                absurd (cc)
          ])
    ]
  ]

  pub cancel_at :
      (e : CancelEnv) (i : ℕ) (coord : String) (s : Option JobState)
      → state_of i d.jobs ≡ s
      → Keeps j d (cancel_job e i coord d).1
  unfolding cancel_job chaos_harness.Schema.record_transition
  cancel_at e i coord (some pending) q =
      rw (q, cancel_job) (result_of-set_state j i cancelled e.now d.jobs)
  cancel_at e i coord (some leased) q = rw (q, cancel_job) refl
  cancel_at e i coord (some succeeded) q = rw (q, cancel_job) refl
  cancel_at e i coord (some failed) q = rw (q, cancel_job) refl
  cancel_at e i coord (some cancelled) q = rw (q, cancel_job) refl
  cancel_at e i coord none q = rw (q, cancel_job) refl

  pub claim-Keeps :
      (e : ClaimEnv) (worker : String) (ttl : ℕ) (coord : String)
      → Keeps j d (claim e worker ttl coord d).1
  unfolding claim default_issue chaos_harness.Schema.issue_fence
      chaos_harness.Schema.record_transition
  claim-Keeps e worker ttl coord =
      elim (Option-cases (oldest (select (claimable e.locked) d.jobs))) [
        | inl q ↦ rw (q, claim) refl
        | inr (r, q) ↦ rw (q, claim) (result_of-set_state j r.job_id leased e.now d.jobs)
      ]

  pub reap-Keeps : (e : ReapEnv) (id i f : ℕ) (coord : String) → Keeps j d (reap e id i f coord d).1
  unfolding reap requeue chaos_harness.Schema.record_transition
  reap-Keeps e id i f coord =
      elim (Bool-cases (may_requeue i f (record d { leases = expire e id d.leases }))) [
        | inl q ↦ rw q (result_of-set_state j i pending e.now d.jobs)
        | inr q ↦ rw q refl
      ]

  -- An accept of a job needs that it has none yet.
  pub accept-Keeps :
      (c : IsConsistent d) (e : CommitEnv) (i : ℕ) (f : ℤ) (v : Json) (worker coord : String)
      → accepted_fence i d.commits ≡ none
      → Keeps j d (accept e i f v worker coord d)
  unfolding accept insert_commit chaos_harness.Schema.record_transition
  accept-Keeps c e i f v worker coord free = elim (Bool-cases (i == j)) [
    | inr n ↦ result_of-set_result j i v e.now d.jobs ∙ rw n refl
    | inl n ↦
        let none_yet =
          accepted_none j d.commits
            (subst (λ x. accepted_fence x d.commits ≡ none) ((==_iff i j).0 n) free) in
        absurd (
          no_commit (leases_of j d.leases) (
            subst (λ x. IsOwned (some succeeded) (leases_of j d.leases) x) none_yet
              (subst (λ x. IsOwned x (leases_of j d.leases) (accepted_of j d.commits)) done
                (c.sound j).owned)))
  ]
    where
      no_commit : (ls : List Lease) → IsOwned (some succeeded) ls [] → ⊥
      no_commit [] h = h
      no_commit (l ∷ ls) h = h
