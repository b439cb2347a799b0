-- ===== src/Cluster/Keys.antt =====
-- The idempotency keys of db/schema.sql over a run: the UNIQUE column, and handle_create_job of
-- coordinator/app.py, which finds a stored key.
use chaos_harness.Common.{
  ℕ, String, ◌≡◌, refl, sym, ap, subst, ◌∙◌, inl, inr, Bool, false, none, some, List, arith, str_eq,
  eq_iff, Bool-cases, Option-cases, select,
}
use chaos_harness.Common.Int.{ℤ}
use chaos_harness.Json.{Json}
use chaos_harness.Schema.{
  Job, Db, is_job, id_of_key, set_state, pending, leased, cancelled, succeeded, record_transition,
  issue_fence,
}
use chaos_harness.Schema.Lookup.{id_of_key-update}
use chaos_harness.Runtime.{World, PgText}
use chaos_harness.Runtime.Gate.{ok}
use chaos_harness.Jobs.{CreateEnv, CancelEnv, add_job, insert_job, cancel_job}
use chaos_harness.Dispatch.{ClaimEnv, claim, default_issue, claimable, oldest}
use chaos_harness.Commit.{CommitEnv, accept, renew, insert_commit, set_result}
use chaos_harness.Reaper.{ReapEnv, reap, requeue}
use chaos_harness.Cluster.{Step, Reach, here, next}
use chaos_harness.Cluster.Tables.{
  create_cases, claim_cases, heartbeat_cases, reap_cases, cancel_cases, commit_cases,
}

-- The key leads to the job.
abbrev pub IsKeyOf : String → ℕ → Db → Type 0
IsKeyOf k j d = id_of_key k d.jobs ≡ some j

module _ (k : String) (j : ℕ) where
  key_set_state :
      (i : ℕ) (s : _) (now : ℕ) (rs : List Job)
      → id_of_key k rs ≡ some j
      → id_of_key k (set_state i s now rs) ≡ some j
  unfolding set_state
  key_set_state i s now rs h =
      id_of_key-update (λ r. record r { state = s; updated_at = now }) (λ r. refl) (λ r. refl) k
        (is_job i) rs
      ∙ h

  key_insert :
      (e : CreateEnv) (key : String) (payload : Json) (coord : String) (d d' : Db) (b : Bool)
      (i : ℕ)
      → insert_job e key payload coord d ≡ ok (b, i, d')
      → IsKeyOf k j d
      → IsKeyOf k j d'
  unfolding insert_job add_job record_transition id_of_key
  key_insert e key payload coord d d' b i q h = elim (Option-cases (id_of_key key d.jobs)) [
    | inr (i', found) ↦ ground arith
    | inl missing ↦ elim (Bool-cases (str_eq key k)) [
      | inl same ↦
          let clash : none ≡ some j =
            sym missing ∙ ap (λ (x : String). id_of_key x d.jobs) ((eq_iff key k).0 same) ∙ h in
          cc
      | inr other ↦ ground arith
    ]
  ]

  key_accept :
      (e : CommitEnv) (i : ℕ) (f : ℤ) (result : Json) (worker coord : String) (d : Db)
      → IsKeyOf k j d
      → IsKeyOf k j (accept e i f result worker coord d)
  unfolding accept insert_commit set_result record_transition
  key_accept e i f result worker coord d h =
      id_of_key-update
        (λ r. record r { result = some result; state = succeeded; updated_at = e.now }) (λ r. refl)
        (λ r. refl) k (is_job i) d.jobs
      ∙ h

  key_claim :
      (e : ClaimEnv) (worker : String) (ttl : ℕ) (coord : String) (d : Db)
      → IsKeyOf k j d
      → IsKeyOf k j (claim e worker ttl coord d).1
  unfolding claim default_issue issue_fence record_transition
  key_claim e worker ttl coord d h =
      elim (Option-cases (oldest (select (claimable e.locked) d.jobs))) [
        | inl q ↦ rw (q, claim) h
        | inr (r, q) ↦ rw (q, claim) (key_set_state r.job_id leased e.now d.jobs h)
      ]

  renew_keeps :
      (now i : ℕ) (f : ℤ) (w : World)
      → IsKeyOf k j w.db
      → IsKeyOf k j (renew now i f w.app.lease_ttl_ms w.db)
  unfolding renew
  renew_keeps now i f w h = h

  insert_keeps :
      (now i : ℕ) (f : ℤ) (worker : String) (d : Db)
      → IsKeyOf k j d
      → IsKeyOf k j (insert_commit now i f worker false d)
  unfolding insert_commit
  insert_keeps now i f worker d h = h

  key_reap :
      (e : ReapEnv) (i id fence : ℕ) (coord : String) (d : Db)
      → IsKeyOf k j d
      → IsKeyOf k j (reap e id i fence coord d).1
  unfolding reap requeue record_transition
  key_reap e i id fence coord d h = ground (arith, key_set_state i pending e.now d.jobs h)

  key_cancel :
      (e : CancelEnv) (i : ℕ) (coord : String) (d : Db)
      → IsKeyOf k j d
      → IsKeyOf k j (cancel_job e i coord d).1
  unfolding cancel_job record_transition
  key_cancel e i coord d h = ground (arith, key_set_state i cancelled e.now d.jobs h)

  Step-IsKeyOf : {u : PgText} {d d' : Db} → Step u d d' → IsKeyOf k j d → IsKeyOf k j d'
  Step-IsKeyOf {u} (Step.create e body w from to) h =
      let h' = subst (IsKeyOf k j) (sym from) h in
      subst (IsKeyOf k j) (sym to) (
        create_cases (IsKeyOf k j) u e body w h'
          λ key payload b i d q. key_insert e key payload w.app.coord_id w.db d b i q h')
  Step-IsKeyOf {u} (Step.cancel e id w serial from to) h =
      let h' = subst (IsKeyOf k j) (sym from) h in
      subst (IsKeyOf k j) (sym to) (
        cancel_cases (IsKeyOf k j) u e id w (λ d q. subst (IsKeyOf k j) (sym (serial d)) q) h'
          λ i. key_cancel e i w.app.coord_id w.db h')
  Step-IsKeyOf {u} (Step.claim e w from to) h =
      let h' = subst (IsKeyOf k j) (sym from) h in
      subst (IsKeyOf k j) (sym to) (
        claim_cases (IsKeyOf k j) u e w h'
          (key_claim e w.conn.worker_id w.app.lease_ttl_ms w.app.coord_id w.db h'))
  Step-IsKeyOf {u} (Step.heartbeat mono now m w from to) h =
      let h' = subst (IsKeyOf k j) (sym from) h in
      subst (IsKeyOf k j) (sym to)
        (heartbeat_cases (IsKeyOf k j) u mono now m w h' (λ i f. renew_keeps now i f w h'))
  Step-IsKeyOf {u} (Step.commit e m w serial from to) h =
      let h' = subst (IsKeyOf k j) (sym (serial w.db ∙ from)) h in
      subst (IsKeyOf k j) (sym to) (
        commit_cases (IsKeyOf k j) u e w (subst (IsKeyOf k j) (sym from) h) h'
          (λ i f result valid free.
            key_accept e i f result w.conn.worker_id w.app.coord_id (e.others w.db) h')
          (λ i f. insert_keeps e.insert_ms i f w.conn.worker_id (e.others w.db) h') m)
  Step-IsKeyOf {u} (Step.reap e row w scanned from to) h =
      let h' = subst (IsKeyOf k j) (sym from) h in
      subst (IsKeyOf k j) (sym to) (
        reap_cases (IsKeyOf k j) u e row w h'
          λ l q. key_reap e row.job_id row.id row.fence w.app.coord_id w.db h')
  Step-IsKeyOf {u} (Step.burn fences transitions leases commits to) h =
      subst (IsKeyOf k j) (sym to) h

  pub Reach-IsKeyOf : {u : PgText} {d d' : Db} → Reach u d d' → IsKeyOf k j d → IsKeyOf k j d'
  Reach-IsKeyOf here h = h
  Reach-IsKeyOf (next r s) h = Step-IsKeyOf s (Reach-IsKeyOf r h)
