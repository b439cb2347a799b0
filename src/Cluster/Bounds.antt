-- ===== src/Cluster/Bounds.antt =====
-- The constraints of db/schema.sql that no job shows alone: distinct ids and keys, and leases in
-- the order of their fences, of their times of issue and of their ids.
use chaos_harness.Common.{
  ℕ, suc, ◌+◌, ◌≤◌, String, ◌≡◌, refl, subst, inl, inr, Bool, false, none, some, List, [], ◌∷◌,
  arith, if◌then◌else◌, select, update, Bool-cases, Option-cases,
}
use chaos_harness.Common.Int.{ℤ}
use chaos_harness.Json.{Json}
use chaos_harness.Schema.{
  pending, leased, succeeded, cancelled, Lease, Db, state_of, id_of_key, is_job, record_transition,
  issue_fence,
}
use chaos_harness.Schema.Lookup.{AreDistinct, AreDistinct-set_state, AreDistinct-update}
use chaos_harness.Runtime.Gate.{ok}
use chaos_harness.Jobs.{CreateEnv, CancelEnv, add_job, insert_job, cancel_job}
use chaos_harness.Dispatch.{ClaimEnv, claim, claimable, oldest, default_issue}
use chaos_harness.Commit.{CommitEnv, renew, accept, insert_commit, set_result}
use chaos_harness.Reaper.{ReapEnv, reap, to_expire, expire, may_requeue, requeue}
use chaos_harness.Protocol.{mark}
use chaos_harness.Cluster.Consistent.{IsFresh}

-- What does not concern single jobs.
abbrev pub IsBounded : Db → Type 0
IsBounded d =
    AreDistinct d.jobs × IsFresh (suc d.fence_seq) (suc d.last_issued) (suc d.lease_ids) d.leases

IsFresh-mono :
    (f t n f' t' n' : ℕ) (ls : List Lease)
    → f ≤ f'
    → t ≤ t'
    → n ≤ n'
    → IsFresh f t n ls
    → IsFresh f' t' n' ls
IsFresh-mono f t n f' t' n' [] a b c h = tt
IsFresh-mono f t n f' t' n' (l ∷ ls) a b c h = (omega arith, omega arith, omega arith, h.3)

module _ (p : Lease → Bool) (g : Lease → Lease)
    (keeps : (l : Lease)
      → ((g l).fence ≡ l.fence) × ((g l).issued_at_ms ≡ l.issued_at_ms) × ((g l).id ≡ l.id)) where
  same_keys :
      (l : Lease)
      → ((if p l then g l else l).fence ≡ l.fence)
        × ((if p l then g l else l).issued_at_ms ≡ l.issued_at_ms)
        × ((if p l then g l else l).id ≡ l.id)
  same_keys l = ground (arith, keeps l)

  IsFresh-update : (f t n : ℕ) (ls : List Lease) → IsFresh f t n ls → IsFresh f t n (update p g ls)
  unfolding update
  IsFresh-update f t n [] h = tt
  IsFresh-update f t n (l ∷ ls) h =
      let (a, b, c) = same_keys l in
      rw (a, b, c) (h.0, h.1, h.2, IsFresh-update l.fence l.issued_at_ms l.id ls h.3)

module _ (d : Db) (h : IsBounded d) where
  add-IsBounded :
      (e : CreateEnv) (key : String) (payload : Json) (coord : String)
      → state_of e.new_id d.jobs ≡ none
      → id_of_key key d.jobs ≡ none
      → IsBounded (add_job e key payload coord d)
  unfolding add_job record_transition
  add-IsBounded e key payload coord new_id new_key = ((new_id, new_key, h.0), h.1)

  pub insert-IsBounded :
      (e : CreateEnv) (key : String) (payload : Json) (coord : String) (b : Bool) (j : ℕ) (d' : Db)
      → insert_job e key payload coord d ≡ ok (b, j, d')
      → IsBounded d'
  unfolding insert_job
  insert-IsBounded e key payload coord b j d' q = elim (Option-cases (id_of_key key d.jobs)) [
    | inr (k, r) ↦ let same : d ≡ d' = ground arith in subst IsBounded same h
    | inl r ↦ elim (Option-cases (state_of e.new_id d.jobs)) [
      | inr (s, t) ↦ absurd (ground arith)
      | inl t ↦
          let same : add_job e key payload coord d ≡ d' = ground arith in
          subst IsBounded same (add-IsBounded e key payload coord t r)
    ]
  ]

  pub cancel-IsBounded :
      (e : CancelEnv) (j : ℕ) (coord : String) → IsBounded (cancel_job e j coord d).1
  unfolding cancel_job record_transition
  cancel-IsBounded e j coord =
      let moved = AreDistinct-set_state j cancelled e.now d.jobs h.0 in ground arith

  pub claim-IsBounded :
      (e : ClaimEnv) (worker : String) (ttl : ℕ) (coord : String)
      → IsBounded (claim e worker ttl coord d).1
  unfolding claim default_issue issue_fence record_transition
  claim-IsBounded e worker ttl coord =
      elim (Option-cases (oldest (select (claimable e.locked) d.jobs))) [
        | inl q ↦ rw (q, claim) h
        | inr (r, q) ↦
            rw (q, claim)
              (
                AreDistinct-set_state r.job_id leased e.now d.jobs h.0,
                (
                  omega arith,
                  omega arith,
                  omega arith,
                  IsFresh-mono _ _ _ _ _ _ d.leases (omega arith) (omega arith) (omega arith) h.1,
                ),
              )
      ]

  pub renew-IsBounded : (now j : ℕ) (f : ℤ) (ttl : ℕ) → IsBounded (renew now j f ttl d)
  unfolding renew
  renew-IsBounded now j f ttl = (
    h.0,
    IsFresh-update _ (λ l. record l { expires_at_ms = now + ttl }) (λ l. (refl, refl, refl)) _ _ _
        d.leases h.1,
  )

  pub reap-IsBounded :
      (e : ReapEnv) (id j f : ℕ) (coord : String) → IsBounded (reap e id j f coord d).1
  unfolding reap requeue record_transition expire
  reap-IsBounded e id j f coord =
      let moved = AreDistinct-set_state j pending e.now d.jobs h.0 in
      let fresh =
        IsFresh-update (to_expire e id) (mark e.expire_ms) (λ l. (refl, refl, refl)) _ _ _ d.leases
          h.1 in
      elim (Bool-cases (may_requeue j f (record d { leases = expire e id d.leases }))) [
        | inl q ↦ rw q (moved, fresh)
        | inr q ↦ rw q (h.0, fresh)
      ]

  pub accept-IsBounded :
      (e : CommitEnv) (j : ℕ) (f : ℤ) (result : Json) (worker coord : String)
      → IsBounded (accept e j f result worker coord d)
  unfolding accept insert_commit record_transition set_result
  accept-IsBounded e j f result worker coord = (
    AreDistinct-update
        (λ r. record r { result = some result; state = succeeded; updated_at = e.now }) (λ r. refl)
        (λ r. refl) (is_job j) d.jobs h.0,
    h.1,
  )

  pub reject-IsBounded :
      (now j : ℕ) (f : ℤ) (worker : String) → IsBounded (insert_commit now j f worker false d)
  unfolding insert_commit
  reject-IsBounded now j f worker = h

  pub burn-IsBounded :
      (fences transitions leases commits : ℕ)
      → IsBounded (record d {
        fence_seq = d.fence_seq + fences;
        transition_ids = d.transition_ids + transitions;
        lease_ids = d.lease_ids + leases;
        commit_ids = d.commit_ids + commits;
      })
  burn-IsBounded fences transitions leases commits =
      (h.0, IsFresh-mono _ _ _ _ _ _ d.leases (omega arith) (omega arith) (omega arith) h.1)
