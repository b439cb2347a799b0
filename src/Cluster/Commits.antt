-- ===== src/Cluster/Commits.antt =====
-- The transactions of coordinator/commit.py, seen from any one job.
use chaos_harness.Common.{
  ℕ, suc, ◌+◌, ◌<◌, String, ◌≡◌, refl, sym, subst, inl, inr, Bool, true, false, ◌&&◌, Option, none,
  some, List, [], arith, if◌then◌else◌, is_some, Bool-cases, &&_parts, ◌==◌, ==_iff, ==_self,
}
use chaos_harness.Common.Int.{ℤ, pos, int_eq, int_eq_iff}
use chaos_harness.Json.{Json}
use chaos_harness.Schema.{
  leased, succeeded, Job, Lease, Commit, Db, transition_row, state_of, leases_of, accepted_of,
  transitions_of, latest, is_live, record_transition,
}
use chaos_harness.Schema.Lookup.{state_of-update, select-update}
use chaos_harness.Commit.{
  CommitEnv, accepted_fence, is_valid, renew, accept, insert_commit, set_result, commit_row,
}
use chaos_harness.Protocol
use chaos_harness.Protocol.Sound.{accept-owned}
use chaos_harness.Protocol.{View, JobStep, stay, IsSound, IsFalling, IsExpired, Head, mark}
use chaos_harness.Cluster.{view}

pub renew-JobStep :
    (i : ℕ) (d : Db) (now j : ℕ) (f : ℤ) (ttl : ℕ)
    → JobStep (view i d) (view i (renew now j f ttl d))
unfolding renew leases_of
renew-JobStep i d now j f ttl =
    let p : Lease → Bool = λ l. l.job_id == j && (int_eq (pos l.fence) f && is_live l) in
    Protocol.renew p (now + ttl) (λ k. record (view i d) {
      leases =
          select-update (λ l. l.job_id == i) p (λ l. record l { expires_at_ms = now + ttl })
            (λ l. refl) d.leases k;
    })

pub reject-JobStep :
    (i : ℕ) (d : Db) (now j : ℕ) (f : ℤ) (worker : String)
    → JobStep (view i d) (view i (insert_commit now j f worker false d))
unfolding insert_commit accepted_of
reject-JobStep i d now j f worker = elim (Bool-cases (j == i)) [
  | inl same ↦ stay (rw same refl)
  | inr other ↦ stay (rw other refl)
]

pub accepted_none : (j : ℕ) (cs : List Commit) → accepted_fence j cs ≡ none → accepted_of j cs ≡ []
unfolding accepted_fence
accepted_none j cs h = ground arith

-- A valid fence is that of the latest lease, which is live.
is_valid-true :
    (now : ℕ) (f : ℤ) (o : Option Lease)
    → is_valid now f o ≡ true
    → (l : Lease) × (o ≡ some l) × (f ≡ pos l.fence) × (is_live l ≡ true) × (now < l.expires_at_ms)
unfolding is_valid
is_valid-true now f none h = cc
is_valid-true now f (some l) h =
    let (same, rest) = &&_parts _ _ h in
    let (live, early) = &&_parts _ _ rest in
    (l, refl, sym ((int_eq_iff (pos l.fence) f).0 same), live, ground arith)

pub state_of-set_result :
    (i j : ℕ) (result : Json) (now : ℕ) (rs : List Job)
    → state_of i (set_result j result now rs) ≡ (
        if j == i
        then (if is_some (state_of i rs) then some succeeded else none)
        else state_of i rs)
unfolding set_result
state_of-set_result i j result now =
    state_of-update (λ r. record r { result = some result; state = succeeded; updated_at = now })
      (λ r. refl) succeeded (λ r. refl) i j

module _ (e : CommitEnv) (j : ℕ) (f : ℤ) (result : Json) (worker coord : String) (d : Db)
    (valid : is_valid e.read_ms f (latest (leases_of j d.leases)) ≡ true)
    (free : accepted_fence j d.commits ≡ none) where
  accept_self :
      IsSound (view j d) → JobStep (view j d) (view j (accept e j f result worker coord d))
  unfolding accept insert_commit record_transition transitions_of accepted_of
  accept_self sound =
      let row = commit_row (suc d.commit_ids) j f worker true e.insert_ms in
      let t =
        transition_row (suc d.transition_ids) e.transition_ms j (some leased) succeeded coord in
      let (l, last, same, live, _) = is_valid-true e.read_ms f _ valid in
      let none_yet = accepted_none j d.commits free in
      let held =
        (accept-owned (view j d).state (view j d).leases (view j d).accepted row l sound.falling
          last live same none_yet sound.owned).0 in
      Protocol.accept t row l last live same none_yet refl refl
        (rw (==_self j, state_of-set_result j j result e.now d.jobs, ==_self j, held) refl)

  pub accept-JobStep :
      (i : ℕ)
      → IsSound (view i d)
      → JobStep (view i d) (view i (accept e j f result worker coord d))
  unfolding accept insert_commit record_transition transitions_of accepted_of
  accept-JobStep i sound = elim (Bool-cases (j == i)) [
    | inl same ↦
        let here = (==_iff j i).0 same in
        subst
          (λ k.
            IsSound (view k d) → JobStep (view k d) (view k (accept e j f result worker coord d)))
          here accept_self sound
    | inr other ↦ stay (rw (state_of-set_result i j result e.now d.jobs, other) refl)
  ]
