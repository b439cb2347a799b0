-- ===== src/Cluster/Partition.antt =====
-- partition_db: every handler of coordinator/*.py behind the gate of coordinator/db.py.
use Prim.Native.String.{len as byte_len}
use chaos_harness.Common.Int.{ℤ}
use chaos_harness.Common.{
  ap, ltb, ℕ, String, ◌≡◌, refl, inl, inr, true, false, Option, none, some, arith, str_eq,
  Option-cases,
}
use chaos_harness.Json.{str, Json, Fields, obj, end, get, get_or, as_obj, as_str}
use chaos_harness.Schema.{Lease}
use chaos_harness.Runtime.{World, PgText}
use chaos_harness.Runtime.Gate.{Result, ok, raise, db_partitioned, gated-shut, is_partitioned}
use chaos_harness.Http.{partitioned}
use chaos_harness.Jobs.{
  CreateEnv, CancelEnv, store_job, create_with_key, handle_create_job, handle_get_job,
  handle_cancel_job, max_idempotency_key_len,
}
use chaos_harness.Dispatch.{ClaimEnv, claim_one}
use chaos_harness.Commit.{CommitEnv, lease_key, handle_heartbeat, handle_commit}
use chaos_harness.Reaper.{ReapEnv, reap_one}
use chaos_harness.Audit.{AuditEnv, refused, handle_audit, audit_job}

-- The connection pool is up and the partition lasts.
abbrev IsShut : ℕ → World → Type 0
IsShut mono w = (w.app.db_gate.connected ≡ true) × (is_partitioned mono w.app.db_gate ≡ true)

-- A request for a new job that handle_create_job takes.
pub record IsRequest (fs : Fields) (key : String) (payload : Fields) : Type 0 where
  pub named : get "idempotency_key" fs ≡ str key
  pub some_text : str_eq key "" ≡ false
  pub short : ltb max_idempotency_key_len (byte_len key) ≡ false
  pub dict : as_obj (get_or "payload" fs (obj end)) ≡ some payload

module _ (u : PgText) (w : World) where
  get_shut : (mono : ℕ) (id : String) → IsShut mono w → handle_get_job u mono id w ≡ partitioned
  unfolding handle_get_job
  get_shut mono id h = rw (handle_get_job, gated-shut mono w.app.db_gate h.0 _ _ h.1) refl

  cancel_shut :
      (e : CancelEnv) (id : String)
      → IsShut e.mono w
      → handle_cancel_job u e id w ≡ (partitioned, w)
  unfolding handle_cancel_job
  cancel_shut e id h = rw (handle_cancel_job, gated-shut e.mono w.app.db_gate h.0 _ _ h.1) refl

  claim_shut : (e : ClaimEnv) → IsShut e.mono w → claim_one u e w ≡ (raise db_partitioned, w)
  unfolding claim_one
  claim_shut e h = rw (claim_one, gated-shut e.mono w.app.db_gate h.0 _ _ h.1) refl

  reap_shut :
      (e : ReapEnv) (row : Lease) → IsShut e.mono w → reap_one u e row w ≡ (raise db_partitioned, w)
  unfolding reap_one
  reap_shut e row h = rw (reap_one, gated-shut e.mono w.app.db_gate h.0 _ _ h.1) refl

  heartbeat_shut :
      (mono now : ℕ) (m : Fields) (id : Json) (f : ℤ)
      → lease_key m ≡ some (id, f)
      → IsShut mono w
      → handle_heartbeat u mono now m w ≡ (raise db_partitioned, w)
  unfolding handle_heartbeat
  heartbeat_shut mono now m id f q h =
      rw (handle_heartbeat, q, gated-shut mono w.app.db_gate h.0 _ _ h.1) refl

  commit_shut :
      (e : CommitEnv) (m : Fields) (id : Json) (f : ℤ)
      → lease_key m ≡ some (id, f)
      → IsShut e.mono w
      → handle_commit u e m w ≡ (raise db_partitioned, w)
  unfolding handle_commit
  commit_shut e m id f q h = rw (handle_commit, q, gated-shut e.mono w.app.db_gate h.0 _ _ h.1) refl

  -- What names no lease is ignored before the gate.
  heartbeat_keeps :
      (mono now : ℕ) (m : Fields) → IsShut mono w → (handle_heartbeat u mono now m w).1 ≡ w
  unfolding handle_heartbeat
  heartbeat_keeps mono now m h = elim (Option-cases (lease_key m)) [
    | inl q ↦ rw (handle_heartbeat, q) refl
    | inr ((id, f), q) ↦
        ap (λ (r : Result (Unit {0}) × World). r.1) (heartbeat_shut mono now m id f q h)
  ]

  commit_keeps : (e : CommitEnv) (m : Fields) → IsShut e.mono w → (handle_commit u e m w).1 ≡ w
  unfolding handle_commit
  commit_keeps e m h = elim (Option-cases (lease_key m)) [
    | inl q ↦ rw (handle_commit, q) refl
    | inr ((id, f), q) ↦ ap (λ (r : Result (Unit {0}) × World). r.1) (commit_shut e m id f q h)
  ]

  store_shut :
      (e : CreateEnv) (key : String) (payload : Json)
      → IsShut e.mono w
      → store_job u e key payload w ≡ (ok partitioned, w)
  unfolding store_job
  store_shut e key payload h = rw (store_job, gated-shut e.mono w.app.db_gate h.0 _ _ h.1) refl

  key_shut :
      (e : CreateEnv) (fs : Fields) (key : String)
      → IsShut e.mono w
      → (create_with_key u e fs key w).1 ≡ w
  unfolding create_with_key
  key_shut e fs key h = elim (Option-cases (as_obj (get_or "payload" fs (obj end)))) [
    | inl q ↦ ground arith
    | inr (payload, q) ↦ ground (arith, store_shut e key (obj payload) h)
  ]

  create_shut :
      (e : CreateEnv) (body : Option Json) → IsShut e.mono w → (handle_create_job u e body w).1 ≡ w
  unfolding handle_create_job
  create_shut e none h = refl
  create_shut e (some json) h = elim (Option-cases (as_obj json)) [
    | inl q ↦ ground arith
    | inr (fs, q) ↦ elim (Option-cases (as_str (get "idempotency_key" fs))) [
      | inl r ↦ ground arith
      | inr (key, r) ↦ ground (arith, key_shut e fs key h)
    ]
  ]

  request_shut :
      (e : CreateEnv) (fs payload : Fields) (key : String)
      → IsRequest fs key payload
      → IsShut e.mono w
      → handle_create_job u e (some (obj fs)) w ≡ (ok partitioned, w)
  unfolding handle_create_job create_with_key as_str as_obj
  request_shut e fs payload key r h =
      rw
        (
          handle_create_job,
          r.named,
          r.some_text,
          create_with_key,
          r.short,
          r.dict,
          store_shut e key (obj payload) h,
        )
        refl

  audit_shut :
      (e : AuditEnv) (id : String)
      → str_eq id "" ≡ false
      → IsShut e.mono₁ w
      → handle_audit u e (some id) w ≡ refused partitioned
  unfolding handle_audit audit_job
  audit_shut e id named h = elim (Option-cases (u.parse id)) [
    | inl q ↦ rw (named, q, audit_job, gated-shut e.mono₁ w.app.db_gate h.0 _ _ h.1) refl
    | inr (j, q) ↦ rw (named, q, audit_job, gated-shut e.mono₁ w.app.db_gate h.0 _ _ h.1) refl
  ]

-- While the database is partitioned off: a read or a cancellation of a job, an audit that names one,
-- and a request for a new job that is in order, reply that it is; a claim, a reap, and a heartbeat
-- and a commit that name a lease, raise it; and no handler, whatever its input, changes the database,
-- the process, the connection or Redis.
pub partition_closes :
    (u : PgText) (mono : ℕ) (w : World) (cancel : CancelEnv) (audit : AuditEnv) (create : CreateEnv)
    (claim : ClaimEnv) (commit : CommitEnv) (reap : ReapEnv) (id key : String) (fs payload : Fields)
    (m : Fields) (lease : Json) (f : ℤ) (now : ℕ) (row : Lease) (other_body : Option Json)
    (other : Fields)
    → IsShut mono w
    → str_eq id "" ≡ false
    → IsRequest fs key payload
    → lease_key m ≡ some (lease, f)
    → (handle_get_job u mono id w ≡ partitioned)
      × (handle_cancel_job u (record cancel { mono = mono }) id w ≡ (partitioned, w))
      × (handle_audit u (record audit { mono₁ = mono }) (some id) w ≡ refused partitioned)
      × (handle_create_job u (record create { mono = mono }) (some (obj fs)) w
          ≡ (ok partitioned, w))
      × (claim_one u (record claim { mono = mono }) w ≡ (raise db_partitioned, w))
      × (handle_heartbeat u mono now m w ≡ (raise db_partitioned, w))
      × (handle_commit u (record commit { mono = mono }) m w ≡ (raise db_partitioned, w))
      × (reap_one u (record reap { mono = mono }) row w ≡ (raise db_partitioned, w))
      × ((handle_create_job u (record create { mono = mono }) other_body w).1 ≡ w)
      × ((handle_heartbeat u mono now other w).1 ≡ w)
      × ((handle_commit u (record commit { mono = mono }) other w).1 ≡ w)
partition_closes u mono w cancel audit create claim commit reap id key fs payload m lease f now row
      other_body other h named request names =
    (
      get_shut u w mono id h,
      cancel_shut u w (record cancel { mono = mono }) id h,
      audit_shut u w (record audit { mono₁ = mono }) id named h,
      request_shut u w (record create { mono = mono }) fs payload key request h,
      claim_shut u w (record claim { mono = mono }) h,
      heartbeat_shut u w mono now m lease f names h,
      commit_shut u w (record commit { mono = mono }) m lease f names h,
      reap_shut u w (record reap { mono = mono }) row h,
      create_shut u w (record create { mono = mono }) other_body h,
      heartbeat_keeps u w mono now other h,
      commit_keeps u w (record commit { mono = mono }) other h,
    )
