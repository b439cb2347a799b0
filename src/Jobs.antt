-- ===== src/Jobs.antt =====
-- The job handlers of coordinator/app.py: handle_create_job, handle_get_job, handle_cancel_job.
-- What PostgreSQL, Redis and the clocks answer during one request is its `…Env`.
use Prim.Native.String.{len as byte_len, ◌++◌ as text_append}
use chaos_harness.Common.{
  ℕ, String, Bool, true, false, Option, none, some, List, ◌∷◌, ltb, str_eq, if◌then◌else◌, is_some,
  first,
}
use chaos_harness.Json.{Json, Fields, null, str, obj, field, end, get, get_or, as_str, as_obj}
use chaos_harness.Schema.{
  pending, cancelled, Job, Db, record_transition, is_job, state_of, id_of_key, set_state,
}
use chaos_harness.Runtime.{World, PgText, count, publish}
use chaos_harness.Runtime.Gate.{Result, ok, raise, db_partitioned, db_error, other_error, gated}
use chaos_harness.Http.{Response, failure, partitioned, invalid_id, state_text}

pub record CreateEnv : Type 0 where
  pub mono : ℕ
  -- gen_random_uuid()
  pub new_id : ℕ
  -- now() and db_now_ms()
  pub now : ℕ
  pub at_ms : ℕ
  pub sec : ℕ
  pub rates_ok : Bool
  pub publish_ok : Bool
  -- Does PostgreSQL take the payload as jsonb, and does the COMMIT succeed?
  pub jsonb_ok : Bool
  pub commit_ok : Bool

abbrev pub wakeup_channel : String
wakeup_channel = "jobs:wakeup"

abbrev pub max_idempotency_key_len : ℕ
max_idempotency_key_len = 128

-- The new row, and its first transition in the same transaction.
unfoldable pub add_job : CreateEnv → String → Json → String → Db → Db
unfolding record_transition
add_job e key payload coord db = record_transition e.at_ms e.new_id none pending coord (record db {
  jobs =
      record {
        job_id = e.new_id;
        idempotency_key = key;
        payload = payload;
        state = pending;
        result = none;
        created_at = e.now;
        updated_at = e.now;
      }
      ∷ db.jobs;
})

-- The transaction of handle_create_job: whether the job is new, its id, and the database after it.
-- A uuid that is taken breaks the primary key, which the ON CONFLICT clause does not cover.
unfoldable pub insert_job : CreateEnv → String → Json → String → Db → Result (Bool × ℕ × Db)
unfolding add_job
insert_job e key payload coord db = elim (id_of_key key db.jobs) [
  | some j ↦ ok (false, j, db)
  | none ↦
      if is_some (state_of e.new_id db.jobs)
      then raise db_error
      else ok (true, e.new_id, add_job e key payload coord db)
]

-- What follows a new job's COMMIT.
unfoldable pub announce : PgText → CreateEnv → ℕ → World → World
unfolding count publish
announce u e j w =
    publish e.publish_ok wakeup_channel (str (u.print j))
      (count e.rates_ok e.sec "submitted" (record w { app = record w.app { wake = true } }))

unfoldable pub created_reply : PgText → Bool → ℕ → Response
created_reply u created j = record {
  status = if created then 201 else 200;
  body = obj (field "job_id" (str (u.print j)) end);
}

-- The part below `async with db.transaction()`.
unfoldable pub store_job : PgText → CreateEnv → String → Json → World → Result Response × World
unfolding insert_job announce created_reply gated partitioned
store_job u e key payload w =
    gated e.mono w.app.db_gate
      (elim [ db_partitioned ↦ (ok partitioned, w) | other ↦ (raise other, w) ])
      (if e.jsonb_ok
        then elim (insert_job e key payload w.app.coord_id w.db) [
          | raise x ↦ (raise x, w)
          | ok (created, j, db) ↦
              if e.commit_ok
              then (
                ok (created_reply u created j),
                if created then announce u e j (record w { db = db }) else record w { db = db },
              )
              else (raise db_error, w)
        ]
        else (raise db_error, w))

unfoldable pub create_with_key :
    PgText → CreateEnv → Fields → String → World → Result Response × World
unfolding store_job failure get_or as_obj
create_with_key u e body key w =
    if ltb max_idempotency_key_len (byte_len key)
    then (ok (failure 400 "idempotency_key exceeds 128 bytes"), w)
    else elim (as_obj (get_or "payload" body (obj end))) [
      | none ↦ (ok (failure 400 "payload must be a JSON object"), w)
      | some payload ↦ store_job u e key (obj payload) w
    ]

-- The body is `none` where `request.json()` raises; on a body that is no dict `body.get` raises.
unfoldable pub handle_create_job :
    PgText → CreateEnv → Option Json → World → Result Response × World
unfolding create_with_key failure get as_str as_obj
handle_create_job u e none w = (ok (failure 400 "invalid JSON body"), w)
handle_create_job u e (some json) w = elim (as_obj json) [
  | none ↦ (raise other_error, w)
  | some body ↦ elim (as_str (get "idempotency_key" body)) [
    | none ↦ (ok (failure 400 "idempotency_key is required and must be a non-empty string"), w)
    | some key ↦
        if str_eq key ""
        then (ok (failure 400 "idempotency_key is required and must be a non-empty string"), w)
        else create_with_key u e body key w
  ]
]

abbrev job_of : ℕ → List Job → Option Job
job_of j = first (is_job j)

abbrev result_json : Option Json → Json
result_json none = null
result_json (some r) = r

unfoldable pub handle_get_job : PgText → ℕ → String → World → Response
unfolding gated partitioned invalid_id failure state_text first
handle_get_job u mono id w =
    gated mono w.app.db_gate (elim [ db_partitioned ↦ partitioned | _ ↦ invalid_id ])
      (elim (u.parse id) [
        | none ↦ invalid_id
        | some j ↦ elim (job_of j w.db.jobs) [
          | none ↦ failure 404 "job not found"
          | some r ↦ record {
            status = 200;
            body = obj (
                field "job_id" (str (u.print r.job_id)) (
                  field "state" (str (state_text r.state))
                    (field "result" (result_json r.result) end)));
          }
        ]
      ])

pub record CancelEnv : Type 0 where
  pub mono : ℕ
  pub now : ℕ
  pub at_ms : ℕ
  pub commit_ok : Bool
  -- The second query's reading of the clock, and what other sessions commit before it.
  pub mono_again : ℕ
  pub others : Db → Db

-- The transaction of handle_cancel_job: whether a row was updated, and the database after it.
unfoldable pub cancel_job : CancelEnv → ℕ → String → Db → Bool × Db
unfolding set_state record_transition
cancel_job e j coord db = elim (state_of j db.jobs) [
  | some pending ↦ (
    true,
    record_transition e.at_ms j (some pending) cancelled coord
        (record db { jobs = set_state j cancelled e.now db.jobs }),
  )
  | _ ↦ (false, db)
]

-- Nothing was updated: the job is missing, or is not pending.
why_not_cancelled : CancelEnv → ℕ → World → Response × World
unfolding gated partitioned invalid_id failure state_text
why_not_cancelled e j w =
    let later = record w { db = e.others w.db } in
    gated e.mono_again w.app.db_gate
      (elim [ db_partitioned ↦ (partitioned, later) | _ ↦ (invalid_id, later) ])
      (elim (state_of j later.db.jobs) [
        | none ↦ (failure 404 "job not found", later)
        | some s ↦ (
          record {
            status = 409;
            body = obj (
                field "error"
                  (str
                    (text_append "job not cancellable in state '" (text_append (state_text s) "'")))
                  (field "state" (str (state_text s)) end));
          },
          later,
        )
      ])

unfoldable pub handle_cancel_job : PgText → CancelEnv → String → World → Response × World
unfolding gated cancel_job why_not_cancelled partitioned invalid_id state_text
handle_cancel_job u e id w =
    gated e.mono w.app.db_gate (elim [ db_partitioned ↦ (partitioned, w) | _ ↦ (invalid_id, w) ])
      (elim (u.parse id) [
        | none ↦ (invalid_id, w)
        | some j ↦
            let (updated, db) = cancel_job e j w.app.coord_id w.db in
            if e.commit_ok
            then (if updated
                then (
                  record {
                    status = 200;
                    body =
                        obj (
                          field "job_id" (str id) (field "state" (str (state_text cancelled)) end));
                  },
                  record w { db = db },
                )
                else why_not_cancelled e j (record w { db = db }))
            else (invalid_id, w)
      ])
