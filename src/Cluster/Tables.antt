-- ===== src/Cluster/Tables.antt =====
-- The database's part of each handler: what reaches the tables, whatever else the handler does.
use chaos_harness.Common.{
  ℕ, String, ◌≡◌, refl, ◌⊎◌, inl, inr, Bool, true, false, Option, none, some, arith, first,
  Bool-cases, Option-cases,
}
use chaos_harness.Common.Int.{ℤ}
use chaos_harness.Json.{Json, Fields, obj, end, get, get_or, as_obj, as_str, str, or_empty}
use chaos_harness.Schema.{Lease, Db, leases_of, latest}
use chaos_harness.Runtime.{World, PgText}
use chaos_harness.Runtime.Gate.{Exc, Result, ok, raise}
use chaos_harness.Jobs.{
  CreateEnv, CancelEnv, insert_job, store_job, create_with_key, cancel_job, handle_create_job,
  handle_cancel_job,
}
use chaos_harness.Dispatch.{ClaimEnv, claim, claim_one}
use chaos_harness.Commit.{
  CommitEnv, accepted_fence, is_valid, renew, accept, insert_commit, handle_heartbeat,
  handle_commit, try_accept, reject, commit_body, close, commit_text, lease_key, uuid_param,
}
use chaos_harness.Reaper.{ReapEnv, reap, reap_one, to_expire}

pub Result-cases :
    {A : Type 0} (r : Result A) → ((a : A) × (r ≡ ok a)) ⊎ ((x : Exc) × (r ≡ raise x))
Result-cases (ok a) = inl (a, refl)
Result-cases (raise x) = inr (x, refl)

module _ (P : Db → Type 0) where
  store_cases :
      (u : PgText) (e : CreateEnv) (key : String) (payload : Json) (w : World)
      → P w.db
      → ((b : Bool) (j : ℕ) (d : Db)
          → insert_job e key payload w.app.coord_id w.db ≡ ok (b, j, d)
          → P d)
      → P (store_job u e key payload w).1.db
  unfolding store_job
  store_cases u e key payload w same stored =
      elim (Result-cases (insert_job e key payload w.app.coord_id w.db)) [
        | inl ((b, j, d), q) ↦ ground (arith, stored b j d q)
        | inr (x, q) ↦ ground arith
      ]

  key_cases :
      (u : PgText) (e : CreateEnv) (body : Fields) (key : String) (w : World)
      → P w.db
      → ((payload : Json) → P (store_job u e key payload w).1.db)
      → P (create_with_key u e body key w).1.db
  unfolding create_with_key
  key_cases u e body key w same stored =
      elim (Option-cases (as_obj (get_or "payload" body (obj end)))) [
        | inl q ↦ ground arith
        | inr (fs, q) ↦ ground (arith, stored (obj fs))
      ]

  pub create_cases :
      (u : PgText) (e : CreateEnv) (body : Option Json) (w : World)
      → P w.db
      → ((key : String) (payload : Json) (b : Bool) (j : ℕ) (d : Db)
          → insert_job e key payload w.app.coord_id w.db ≡ ok (b, j, d)
          → P d)
      → P (handle_create_job u e body w).1.db
  unfolding handle_create_job
  create_cases u e none w same stored = same
  create_cases u e (some json) w same stored = elim (Option-cases (as_obj json)) [
    | inl q ↦ ground arith
    | inr (fs, q) ↦ elim (Option-cases (as_str (get "idempotency_key" fs))) [
      | inl r ↦ ground arith
      | inr (key, r) ↦ ground (
        arith,
        key_cases u e fs key w same
            (λ payload. store_cases u e key payload w same (stored key payload)),
      )
    ]
  ]

  pub claim_cases :
      (u : PgText) (e : ClaimEnv) (w : World)
      → P w.db
      → P (claim e w.conn.worker_id w.app.lease_ttl_ms w.app.coord_id w.db).1
      → P (claim_one u e w).1.db
  unfolding claim_one
  claim_cases u e w same claimed = ground arith

  pub heartbeat_cases :
      (u : PgText) (mono now : ℕ) (m : Fields) (w : World)
      → P w.db
      → ((j : ℕ) (f : ℤ) → P (renew now j f w.app.lease_ttl_ms w.db))
      → P (handle_heartbeat u mono now m w).1.db
  unfolding handle_heartbeat
  heartbeat_cases u mono now m w same renewed = elim (Option-cases (lease_key m)) [
    | inl q ↦ ground arith
    | inr ((id, f), q) ↦ elim (Option-cases (uuid_param u id)) [
      | inl r ↦ ground arith
      | inr (j, r) ↦ ground (arith, renewed j f)
    ]
  ]

  pub reap_cases :
      (u : PgText) (e : ReapEnv) (row : Lease) (w : World)
      → P w.db
      → ((l : Lease)
          → first (to_expire e row.id) w.db.leases ≡ some l
          → P (reap e row.id row.job_id row.fence w.app.coord_id w.db).1)
      → P (reap_one u e row w).1.db
  unfolding reap_one
  reap_cases u e row w same reaped = elim (Option-cases (first (to_expire e row.id) w.db.leases)) [
    | inl q ↦ ground arith
    | inr (l, q) ↦ ground (arith, reaped l q)
  ]

  pub cancel_cases :
      (u : PgText) (e : CancelEnv) (id : String) (w : World)
      → ((d : Db) → P d → P (e.others d))
      → P w.db
      → ((j : ℕ) → P (cancel_job e j w.app.coord_id w.db).1)
      → P (handle_cancel_job u e id w).1.db
  unfolding handle_cancel_job
  cancel_cases u e id w others same cancelled = elim (Option-cases (u.parse id)) [
    | inl q ↦ ground arith
    | inr (j, q) ↦
        ground (arith, cancelled j, others (cancel_job e j w.app.coord_id w.db).1 (cancelled j))
  ]

  module _ (e : CommitEnv) (j : ℕ) (sent : String) (f : ℤ) (result : Json) (w : World) where
    accept_cases :
        P w.db
        → (accepted_fence j w.db.commits ≡ none
            → P (accept e j f result w.conn.worker_id w.app.coord_id w.db))
        → P (try_accept e j sent f result w).1.db
    unfolding try_accept
    accept_cases same accepted = elim (Option-cases (accepted_fence j w.db.commits)) [
      | inl q ↦ ground (arith, accepted q)
      | inr (g, q) ↦ ground arith
    ]

    reject_cases :
        P w.db
        → P (insert_commit e.insert_ms j f w.conn.worker_id false w.db)
        → P (reject e j sent f w).1.db
    unfolding reject
    reject_cases same rejected = ground arith

  close_cases :
      (e : CommitEnv) (d : Db) (r : Result (Unit {0}) × World)
      → P d
      → P r.1.db
      → P (close e d r).1.db
  unfolding close
  close_cases e d (ok a, w) same run = ground arith
  close_cases e d (raise x, w) same run = same

  module _ (u : PgText) (e : CommitEnv) (w : World) (same : P w.db) (later : P (e.others w.db))
      (accepted : (j : ℕ) (f : ℤ) (result : Json)
        → is_valid e.read_ms f (latest (leases_of j w.db.leases)) ≡ true
        → accepted_fence j (e.others w.db).commits ≡ none
        → P (accept e j f result w.conn.worker_id w.app.coord_id (e.others w.db)))
      (rejected : (j : ℕ) (f : ℤ)
        → P (insert_commit e.insert_ms j f w.conn.worker_id false (e.others w.db))) where
    body_cases :
        (j : ℕ) (sent : String) (f : ℤ) (result : Json) → P (commit_body e j sent f result w).1.db
    unfolding commit_body
    body_cases j sent f result =
        let w' = record w { db = e.others w.db } in
        elim (Option-cases (accepted_fence j w.db.commits)) [
          | inr (g, q) ↦ ground arith
          | inl q ↦ elim (Bool-cases (is_valid e.read_ms f (latest (leases_of j w.db.leases)))) [
            | inl v ↦
                ground (arith, accept_cases e j sent f result w' later (accepted j f result v))
            | inr v ↦ ground (arith, reject_cases e j sent f result w' later (rejected j f))
          ]
        ]

    text_cases : (id : Json) (f : ℤ) (result : Json) → P (commit_text u e id f result w).1.db
    unfolding commit_text
    text_cases (str sent) f result = elim (Option-cases (u.parse sent)) [
      | inl q ↦ ground arith
      | inr (j, q) ↦
          rw (q, commit_text)
            (close_cases e (e.others w.db) (commit_body e j sent f result w) later
              (body_cases j sent f result))
    ]
    text_cases _ f result = same

    pub commit_cases : (m : Fields) → P (handle_commit u e m w).1.db
    unfolding handle_commit
    commit_cases m = elim (Option-cases (lease_key m)) [
      | inl q ↦ ground arith
      | inr ((id, f), q) ↦ ground (arith, text_cases id f (or_empty (get "result" m)))
    ]
