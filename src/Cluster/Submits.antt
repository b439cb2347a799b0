-- ===== src/Cluster/Submits.antt =====
-- handle_create_job and handle_cancel_job, seen from any one job.
use chaos_harness.Common.{
  ℕ, suc, String, ◌≡◌, refl, sym, subst, inl, inr, Bool, Option, none, some, arith, Bool-cases,
  Option-cases, ◌==◌, ==_iff,
}
use chaos_harness.Json.{Json}
use chaos_harness.Schema.{
  JobState, pending, leased, succeeded, failed, cancelled, Db, transition_row, state_of, id_of_key,
  transitions_of, record_transition,
}
use chaos_harness.Schema.Lookup.{state_of-set_state, set_state_other}
use chaos_harness.Runtime.Gate.{ok}
use chaos_harness.Jobs.{CreateEnv, CancelEnv, add_job, insert_job, cancel_job}
use chaos_harness.Protocol
use chaos_harness.Protocol.{View, JobStep, stay, IsSound, IsFalling, IsExpired, Head, mark}
use chaos_harness.Cluster.{view}
use chaos_harness.Cluster.Consistent.{IsConsistent}

module _ (i : ℕ) (d : Db) where
  add-JobStep :
      (e : CreateEnv) (key : String) (payload : Json) (coord : String)
      → state_of e.new_id d.jobs ≡ none
      → JobStep (view i d) (view i (add_job e key payload coord d))
  unfolding add_job state_of transitions_of
  add-JobStep e key payload coord fresh = elim (Bool-cases (e.new_id == i)) [
    | inl same ↦
        Protocol.submit (transition_row (suc d.transition_ids) e.at_ms e.new_id none pending coord)
          (rw (sym ((==_iff _ _).0 same)) fresh) refl refl (rw same refl)
    | inr other ↦ stay (rw other refl)
  ]

  pub insert-JobStep :
      (e : CreateEnv) (key : String) (payload : Json) (coord : String) (b : Bool) (j : ℕ) (d' : Db)
      → insert_job e key payload coord d ≡ ok (b, j, d')
      → JobStep (view i d) (view i d')
  unfolding insert_job
  insert-JobStep e key payload coord b j d' h = elim (Option-cases (id_of_key key d.jobs)) [
    | inr (k, q) ↦ stay (ground arith)
    | inl q ↦ elim (Option-cases (state_of e.new_id d.jobs)) [
      | inr (s, r) ↦ ground arith
      | inl r ↦
          let same : add_job e key payload coord d ≡ d' = ground arith in
          subst (λ (x : Db). JobStep (view i d) (view i x)) same (add-JobStep e key payload coord r)
    ]
  ]

module _ (i : ℕ) (d : Db) (c : IsConsistent d) where
  cancel_at :
      (e : CancelEnv) (j : ℕ) (coord : String) (s : Option JobState)
      → state_of j d.jobs ≡ s
      → JobStep (view i d) (view i (cancel_job e j coord d).1)
  unfolding cancel_job record_transition transitions_of
  cancel_at e j coord (some pending) q = elim (Bool-cases (j == i)) [
    | inl same ↦
        let here : state_of i d.jobs ≡ some pending =
          subst (λ k. state_of k d.jobs ≡ some pending) ((==_iff j i).0 same) q in
        Protocol.cancel
          (transition_row (suc d.transition_ids) e.at_ms j (some pending) cancelled coord) here refl
          refl
          (rw (q, cancel_job) (rw (state_of-set_state i j cancelled e.now d.jobs, same, here) refl))
    | inr other ↦
        stay
          (rw (q, cancel_job) (rw (set_state_other i j cancelled e.now d.jobs other, other) refl))
  ]
  cancel_at e j coord none q = stay (rw (q, cancel_job) refl)
  cancel_at e j coord (some leased) q = stay (rw (q, cancel_job) refl)
  cancel_at e j coord (some succeeded) q = stay (rw (q, cancel_job) refl)
  cancel_at e j coord (some failed) q = stay (rw (q, cancel_job) refl)
  cancel_at e j coord (some cancelled) q = stay (rw (q, cancel_job) refl)

  pub cancel-JobStep :
      (e : CancelEnv) (j : ℕ) (coord : String)
      → JobStep (view i d) (view i (cancel_job e j coord d).1)
  cancel-JobStep e j coord = cancel_at e j coord (state_of j d.jobs) refl
