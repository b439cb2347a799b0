-- ===== src/Cluster/Reaps.antt =====
-- The transaction of coordinator/reaper.py, seen from any one job.
use chaos_harness.Common.{
  ℕ, suc, String, ◌≡◌, refl, sym, ap, subst, ◌∙◌, inl, inr, Bool, true, false, Option, some, List,
  [], arith, if◌then◌else◌, first, update, Bool-cases, &&_parts, All, All-select_met, All-zip, ◌==◌,
  ==_iff, ==_self,
}
use chaos_harness.Schema.{
  JobState, pending, leased, Lease, Db, transition_row, state_of, leases_of, accepted_of,
  transitions_of, latest, record_transition,
}
use chaos_harness.Schema.Lookup.{state_of-set_state, set_state_other, select-update}
use chaos_harness.Reaper.{
  ReapEnv, reap, to_expire, expire, may_requeue, requeue, is_max_fence, is_leased,
}
use chaos_harness.Protocol
use chaos_harness.Protocol.{View, JobStep, stay, IsSound, IsFalling, IsOwned, IsExpired, Head, mark}
use chaos_harness.Cluster.{view, IsScanned}
use chaos_harness.Cluster.Consistent.{IsConsistent}
use chaos_harness.Cluster.Overdue.{
  Fact, expiring, scanned-IsKeyed, first-IsDue, IsKeyed, IsDue, Head-other, Head-leased,
}

leases_of-expire :
    (i : ℕ) (e : ReapEnv) (id : ℕ) (ls : List Lease)
    → leases_of i (expire e id ls) ≡ update (to_expire e id) (mark e.expire_ms) (leases_of i ls)
unfolding leases_of expire
leases_of-expire i e id ls =
    select-update (λ l. l.job_id == i) (to_expire e id) (mark e.expire_ms) (λ l. refl) ls

pub leases_of-expired :
    (i : ℕ) (e : ReapEnv) (id : ℕ) (ls : List Lease)
    → leases_of i (expire e id ls) ≡ expire e id (leases_of i ls)
unfolding expire
leases_of-expired i e id ls = leases_of-expire i e id ls

is_leased-true : (s : Option JobState) → is_leased s ≡ true → s ≡ some leased
is_leased-true s h = ground arith

requeue_parts :
    (j f : ℕ) (d : Db)
    → may_requeue j f d ≡ true
    → (state_of j d.jobs ≡ some leased) × (is_max_fence f (latest (leases_of j d.leases)) ≡ true)
unfolding may_requeue
requeue_parts j f d h =
    let (s, rest) = &&_parts (is_leased (state_of j d.jobs)) _ h in
    (is_leased-true (state_of j d.jobs) s, (&&_parts _ _ rest).0)

no_requeue_parts :
    (j f : ℕ) (d : Db)
    → may_requeue j f d ≡ false
    → state_of j d.jobs ≡ some leased
    → accepted_of j d.commits ≡ []
    → is_max_fence f (latest (leases_of j d.leases)) ≡ false
unfolding may_requeue
no_requeue_parts j f d h s a =
    let same : may_requeue j f d ≡ is_max_fence f (latest (leases_of j d.leases)) =
      rw (s, a) (ground arith) in
    sym same ∙ h

module _ (e : ReapEnv) (row r : Lease) (coord : String) (d : Db) (c : IsConsistent d)
    (scanned : IsScanned row d.leases) (found : first (to_expire e row.id) d.leases ≡ some r) where
  facts : (i : ℕ) → All (Fact e row i) (leases_of i d.leases)
  unfolding leases_of
  facts i =
      All-select_met (λ l. IsKeyed row l × IsDue e row.id l) (λ l. l.job_id == i) d.leases
        (All-zip (IsKeyed row) (IsDue e row.id) d.leases
          (scanned-IsKeyed row _ _ _ d.leases c.fresh scanned)
          (first-IsDue e row.id r _ _ _ d.leases c.fresh found))

  expired : Db
  expired = record d { leases = expire e row.id d.leases }

  largest_of :
      (i : ℕ)
      → is_max_fence row.fence (latest (leases_of i expired.leases))
        ≡ is_max_fence row.fence (latest (expire e row.id (leases_of i d.leases)))
  unfolding expired
  largest_of i =
      ap (λ ls. is_max_fence row.fence (latest ls)) (leases_of-expired i e row.id d.leases)

  -- The expiry of a lease that is not the latest of a leased job.
  expire-JobStep :
      (i : ℕ)
      → (state_of i d.jobs ≡ some leased → Head false (expiring e row) (leases_of i d.leases))
      → JobStep (view i d) (view i expired)
  unfolding expired
  expire-JobStep i kept =
      Protocol.expire (expiring e row) e.expire_ms kept
        (λ k. record (view i d) { leases = leases_of-expire i e row.id d.leases k })

  kept_self :
      may_requeue row.job_id row.fence expired ≡ false
      → state_of row.job_id d.jobs ≡ some leased
      → Head false (expiring e row) (leases_of row.job_id d.leases)
  unfolding expired
  kept_self no_requeue held =
      let sound = c.sound row.job_id in
      let owned : IsOwned (some leased) (leases_of row.job_id d.leases)
          (accepted_of row.job_id d.commits) =
        subst (λ s. IsOwned s (leases_of row.job_id d.leases) (accepted_of row.job_id d.commits))
          held sound.owned in
      Head-leased e row row.job_id false (leases_of row.job_id d.leases) (facts row.job_id)
        sound.falling
        (sym (largest_of row.job_id)
          ∙ no_requeue_parts row.job_id row.fence expired no_requeue held owned.1)

  requeue_self :
      may_requeue row.job_id row.fence expired ≡ true
      → JobStep (view row.job_id d) (view row.job_id (requeue e row.job_id coord expired))
  unfolding expired requeue record_transition transitions_of
  requeue_self may =
      let j = row.job_id in
      let (held, is_max) = requeue_parts j row.fence expired may in
      Protocol.requeue
        (transition_row (suc d.transition_ids) e.transition_ms j (some leased) pending coord)
        (expiring e row) e.expire_ms held refl refl
        (Head-leased e row j true (leases_of j d.leases) (facts j) (c.sound j).falling
          (sym (largest_of j) ∙ is_max))
        (rw
          (
            ==_self j,
            state_of-set_state j j pending e.now d.jobs,
            ==_self j,
            held,
            leases_of-expire j e row.id d.leases,
          )
          refl)

  -- Another job's leases are not reached, and its row is not either.
  other_self :
      (i : ℕ)
      → (row.job_id == i) ≡ false
      → JobStep (view i d) (view i (requeue e row.job_id coord expired))
  unfolding expired requeue record_transition transitions_of
  other_self i other =
      Protocol.expire (expiring e row) e.expire_ms
        (λ _. Head-other e row i (leases_of i d.leases) (facts i) other)
        (rw
          (
            other,
            set_state_other i row.job_id pending e.now d.jobs other,
            leases_of-expire i e row.id d.leases,
          )
          refl)

  reap_at :
      (b : Bool) (i : ℕ)
      → may_requeue row.job_id row.fence expired ≡ b
      → JobStep (view i d) (view i (if b then requeue e row.job_id coord expired else expired))
  reap_at true i may = elim (Bool-cases (row.job_id == i)) [
    | inl same ↦
        subst (λ k. JobStep (view k d) (view k (requeue e row.job_id coord expired)))
          ((==_iff row.job_id i).0 same) (requeue_self may)
    | inr other ↦ other_self i other
  ]
  reap_at false i may = expire-JobStep i (λ held. elim (Bool-cases (row.job_id == i)) [
    | inl same ↦
        let here = (==_iff row.job_id i).0 same in
        subst (λ k. Head false (expiring e row) (leases_of k d.leases)) here
          (kept_self may (subst (λ k. state_of k d.jobs ≡ some leased) (sym here) held))
    | inr other ↦ Head-other e row i (leases_of i d.leases) (facts i) other
  ])

  pub reap-JobStep :
      (i : ℕ) → JobStep (view i d) (view i (reap e row.id row.job_id row.fence coord d).1)
  unfolding reap expired
  reap-JobStep i = elim (Bool-cases (may_requeue row.job_id row.fence expired)) [
    | inl may ↦ rw may (reap_at true i may)
    | inr kept ↦ rw kept (reap_at false i kept)
  ]
