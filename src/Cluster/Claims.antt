-- ===== src/Cluster/Claims.antt =====
-- The claim of coordinator/dispatch.py, seen from any one job.
use chaos_harness.Common.{
  ℕ, suc, ◌+◌, max, String, ◌≡◌, refl, ap, subst, ◌∙◌, inl, inr, Bool, Option, none, some, List, [],
  ◌∷◌, arith, select, Bool-cases, Option-cases, &&_parts, ◌==◌, ==_iff, ltb,
}
use chaos_harness.Schema.{
  pending, leased, Job, Db, transition_row, state_of, leases_of, transitions_of, record_transition,
  issue_fence, state_eq_pending,
}
use chaos_harness.Schema.Lookup.{
  AreDistinct, In, In-select, state_of-set_state, set_state_other, state_of-In,
}
use chaos_harness.Dispatch.{ClaimEnv, claim, claimable, oldest, default_issue, lease_row}
use chaos_harness.Protocol
use chaos_harness.Protocol.{View, JobStep, stay, IsSound, IsFalling, IsExpired, Head, mark}
use chaos_harness.Cluster.{view}
use chaos_harness.Cluster.Consistent.{IsConsistent, fences_below}

pub oldest-In : (rs : List Job) (r : Job) → oldest rs ≡ some r → In r rs
unfolding oldest
oldest-In [] r h = cc
oldest-In (x ∷ rs) r h = elim (Option-cases (oldest rs)) [
  | inl q ↦ inl (ground arith)
  | inr (s, q) ↦ elim (Bool-cases (ltb x.created_at s.created_at)) [
    | inl older ↦ inl (ground arith)
    | inr newer ↦
        let same : s ≡ r = ground arith in inr (subst (λ x. In x rs) same (oldest-In rs s q))
  ]
]

-- The row that the claim picks is a pending job.
picked_pending :
    (locked : ℕ → Bool) (rs : List Job) (r : Job)
    → AreDistinct rs
    → oldest (select (claimable locked) rs) ≡ some r
    → state_of r.job_id rs ≡ some pending
unfolding claimable
picked_pending locked rs r distinct h =
    let (found, free) = In-select (claimable locked) r rs (oldest-In _ r h) in
    state_of-In r rs distinct found ∙ ap some (state_eq_pending r.state (&&_parts _ _ free).0)

module _ (i : ℕ) (d : Db) (c : IsConsistent d) where
  claim_at :
      (e : ClaimEnv) (worker : String) (ttl : ℕ) (coord : String) (o : Option Job)
      → oldest (select (claimable e.locked) d.jobs) ≡ o
      → JobStep (view i d) (view i (claim e worker ttl coord d).1)
  unfolding claim default_issue issue_fence record_transition transitions_of leases_of
  claim_at e worker ttl coord none q = stay (rw (q, claim) refl)
  claim_at e worker ttl coord (some r) q = elim (Bool-cases (r.job_id == i)) [
    | inl same ↦
        let here : state_of i d.jobs ≡ some pending =
          subst (λ k. state_of k d.jobs ≡ some pending) ((==_iff r.job_id i).0 same)
            (picked_pending e.locked d.jobs r c.distinct q) in
        Protocol.claim
          (transition_row (suc d.transition_ids) e.transition_ms r.job_id (some pending) leased
            coord)
          (lease_row (suc d.lease_ids) r.job_id (suc d.fence_seq) worker
            (max e.issue_ms (d.last_issued + 1)) ttl)
          here refl refl refl (fences_below i _ _ _ d.leases c.fresh)
          (rw (q, claim) (rw (state_of-set_state i r.job_id leased e.now d.jobs, same, here) refl))
    | inr other ↦
        stay (rw (q, claim) (rw (set_state_other i r.job_id leased e.now d.jobs other, other) refl))
  ]

  pub claim-JobStep :
      (e : ClaimEnv) (worker : String) (ttl : ℕ) (coord : String)
      → JobStep (view i d) (view i (claim e worker ttl coord d).1)
  claim-JobStep e worker ttl coord =
      claim_at e worker ttl coord (oldest (select (claimable e.locked) d.jobs)) refl
