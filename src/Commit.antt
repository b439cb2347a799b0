-- ===== src/Commit.antt =====
-- coordinator/commit.py: lease renewal on a heartbeat, and the fenced commit.
use chaos_harness.Common.{
  ℕ, suc, ◌+◌, ◌-◌, String, Bool, true, false, ◌&&◌, Option, none, some, List, [], ◌∷◌, ltb, ◌==◌,
  if◌then◌else◌, is_some, update,
}
use chaos_harness.Common.Int.{ℤ, pos, int_eq, fits_bigint}
use chaos_harness.Json.{Json, Fields, null, str, obj, field, end, get, as_int, or_empty}
use chaos_harness.Schema.{
  leased, succeeded, Job, Lease, Commit, Db, record_transition, is_job, leases_of, accepted_of,
  is_live, latest,
}
use chaos_harness.Runtime.{World, PgText, count, send, discard}
use chaos_harness.Runtime.Gate.{Result, ok, raise, db_error, gated}

-- The two fields by which a worker names its lease; `none` is what the handlers call malformed.
unfoldable pub lease_key : Fields → Option (Json × ℤ)
unfolding get as_int
lease_key d = elim (get "job_id" d) [
  | null ↦ none
  | j ↦ elim (as_int (get "fence" d)) [ none ↦ none | some f ↦ some (j, f) ]
]

-- `$1::uuid` with a value of the message: asyncpg refuses what is no text of a uuid.
unfoldable pub uuid_param : PgText → Json → Option ℕ
uuid_param u (str s) = u.parse s
uuid_param u _ = none

-- UPDATE leases SET expires_at_ms = … WHERE job_id, fence AND expired_at_ms IS NULL
unfoldable pub renew : ℕ → ℕ → ℤ → ℕ → Db → Db
unfolding update
renew now j fence ttl db = record db {
  leases =
      update (λ l. l.job_id == j && (int_eq (pos l.fence) fence && is_live l))
        (λ l. record l { expires_at_ms = now + ttl }) db.leases;
}

unfoldable pub handle_heartbeat : PgText → ℕ → ℕ → Fields → World → Result (Unit {0}) × World
unfolding lease_key uuid_param renew gated fits_bigint
handle_heartbeat u mono now d w = elim (lease_key d) [
  | none ↦ (ok tt, w)
  | some (id, fence) ↦
      gated mono w.app.db_gate (λ x. (raise x, w))
        (elim (uuid_param u id) [
          | none ↦ (raise db_error, w)
          | some j ↦
              if fits_bigint fence
              then (ok tt, record w { db = renew now j fence w.app.lease_ttl_ms w.db })
              else (raise db_error, w)
        ])
]

pub record CommitEnv : Type 0 where
  pub mono : ℕ
  -- db_now_ms() of the first query, of the INSERT and of the transition; now() for `updated_at`.
  pub read_ms : ℕ
  pub insert_ms : ℕ
  pub transition_ms : ℕ
  pub now : ℕ
  pub sec : ℕ
  pub rates_ok : Bool
  pub send_ok : Bool
  pub jsonb_ok : Bool
  pub commit_ok : Bool
  -- What other sessions commit between the two SELECTs and the writes: under READ COMMITTED each
  -- statement sees it, and the SELECTs lock no row.
  pub others : Db → Db

-- _finish: `sent` is the worker's own text of the job's id.
unfoldable pub finish : Bool → String → Bool → World → World
unfolding send discard
finish send_ok sent accepted w =
    let freed = record w { conn = record w.conn { inflight = discard sent w.conn.inflight } } in
    if accepted && ltb 0 w.app.drop_acks_remaining
    then record freed { app = record w.app { drop_acks_remaining = w.app.drop_acks_remaining - 1 } }
    else send send_ok
        (obj (
          field "type" (str (if accepted then "ack" else "commit_rejected"))
            (field "job_id" (str sent) end)))
        freed

-- SELECT fence FROM commits WHERE job_id AND accepted; `one_accept` leaves at most one row.
unfoldable pub accepted_fence : ℕ → List Commit → Option ℤ
unfolding accepted_of
accepted_fence j cs = elim (accepted_of j cs) [ [] ↦ none | c ∷ _ ↦ some c.fence ]

-- The latest lease has this fence, is not expired, and its deadline has not passed.
unfoldable pub is_valid : ℕ → ℤ → Option Lease → Bool
is_valid now fence none = false
is_valid now fence (some l) = int_eq (pos l.fence) fence && (is_live l && ltb now l.expires_at_ms)

abbrev pub commit_row : ℕ → ℕ → ℤ → String → Bool → ℕ → Commit
commit_row id j fence worker accepted now = record {
  id = id;
  job_id = j;
  fence = fence;
  worker = worker;
  accepted = accepted;
  at_ms = now;
}

-- INSERT INTO commits
unfoldable pub insert_commit : ℕ → ℕ → ℤ → String → Bool → Db → Db
insert_commit now j fence worker accepted db =
    let id = suc db.commit_ids in
    record db { commits = commit_row id j fence worker accepted now ∷ db.commits; commit_ids = id }

-- UPDATE jobs SET result, state='succeeded', updated_at = now() WHERE job_id = …
unfoldable pub set_result : ℕ → Json → ℕ → List Job → List Job
unfolding update
set_result j result now =
    update (is_job j) (λ r. record r { result = some result; state = succeeded; updated_at = now })

-- The writes of an accepted commit, on a database with no accepted row for the job.
unfoldable pub accept : CommitEnv → ℕ → ℤ → Json → String → String → Db → Db
unfolding insert_commit set_result record_transition
accept e j fence result worker coord db =
    let db₁ = insert_commit e.insert_ms j fence worker true db in
    record_transition e.transition_ms j (some leased) succeeded coord
      (record db₁ { jobs = set_result j result e.now db₁.jobs })

-- `if valid:`. An accepted row that another session committed makes the INSERT do nothing.
unfoldable pub try_accept : CommitEnv → ℕ → String → ℤ → Json → World → Result (Unit {0}) × World
unfolding accept finish count accepted_fence
try_accept e j sent fence result w =
    if is_some (accepted_fence j w.db.commits)
    then (ok tt, finish e.send_ok sent true w)
    else if e.jsonb_ok
    then (
      ok tt,
      finish e.send_ok sent true (
          count e.rates_ok e.sec "completed"
            (record w { db = accept e j fence result w.conn.worker_id w.app.coord_id w.db })),
    )
    else (raise db_error, w)

-- `else:`. The rejected attempt is recorded.
unfoldable pub reject : CommitEnv → ℕ → String → ℤ → World → Result (Unit {0}) × World
unfolding insert_commit finish count fits_bigint
reject e j sent fence w =
    if fits_bigint fence
    then (
      ok tt,
      finish e.send_ok sent false (
          count e.rates_ok e.sec "failed"
            (record w { db = insert_commit e.insert_ms j fence w.conn.worker_id false w.db })),
    )
    else (raise db_error, w)

-- The body of `async with db.transaction()`.
unfoldable pub commit_body : CommitEnv → ℕ → String → ℤ → Json → World → Result (Unit {0}) × World
unfolding try_accept reject is_valid accepted_fence leases_of latest
commit_body e j sent fence result w =
    let later = record w { db = e.others w.db } in
    elim (accepted_fence j w.db.commits) [
      | some f ↦ (ok tt, finish e.send_ok sent (int_eq f fence) later)
      | none ↦
          if is_valid e.read_ms fence (latest (leases_of j w.db.leases))
          then try_accept e j sent fence result later
          else reject e j sent fence later
    ]

-- The end of the transaction: a body that raises, or a COMMIT that fails, undoes its writes, and
-- nothing that it did outside the database. What others committed stays.
unfoldable pub close : CommitEnv → Db → Result (Unit {0}) × World → Result (Unit {0}) × World
close e db (raise x, w) = (raise x, record w { db = db })
close e db (ok a, w) = if e.commit_ok then (ok a, w) else (raise db_error, record w { db = db })

unfoldable pub commit_text :
    PgText → CommitEnv → Json → ℤ → Json → World → Result (Unit {0}) × World
unfolding commit_body close
commit_text u e (str sent) fence result w = elim (u.parse sent) [
  | none ↦ (raise db_error, w)
  | some j ↦ close e (e.others w.db) (commit_body e j sent fence result w)
]
commit_text u e _ fence result w = (raise db_error, w)

unfoldable pub handle_commit : PgText → CommitEnv → Fields → World → Result (Unit {0}) × World
unfolding lease_key commit_text gated or_empty
handle_commit u e d w = elim (lease_key d) [
  | none ↦ (ok tt, w)
  | some (id, fence) ↦
      gated e.mono w.app.db_gate (λ x. (raise x, w))
        (commit_text u e id fence (or_empty (get "result" d)) w)
]
