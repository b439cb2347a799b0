-- ===== src/Cluster/Replies.antt =====
-- The replies of handle_create_job of coordinator/app.py, and the database that each goes with.
use chaos_harness.Common.{
  ℕ, String, ◌≡◌, ◌≢◌, refl, sym, ap, ◌∙◌, inl, inr, Bool, true, false, some, arith, eq_refl,
  if◌then◌else◌, Option-cases,
}
use chaos_harness.Json.{Json, Fields, str, obj, field, end, get, get_or, as_obj, as_str}
use chaos_harness.Schema.{Db, id_of_key, record_transition}
use chaos_harness.Runtime.{World, PgText, count, publish}
use chaos_harness.Runtime.Rates.{incr}
use chaos_harness.Runtime.Gate.{
  Exc, Result, ok, raise, db_partitioned, not_connected, db_error, other_error, gated, gate,
}
use chaos_harness.Http.{Response, failure, partitioned}
use chaos_harness.Jobs.{
  CreateEnv, add_job, insert_job, announce, created_reply, store_job, create_with_key,
  handle_create_job, wakeup_channel,
}
use chaos_harness.Cluster.Tables.{Result-cases}
use chaos_harness.Cluster.Keys.{IsKeyOf}

-- The text of the id in a reply that has one.
id_text : Result Response → String
id_text (raise x) = ""
id_text (ok r) = elim r.body [ obj (field _ (str id) end) ↦ id | _ ↦ "" ]

code : Result Response → ℕ
code (raise x) = 0
code (ok r) = r.status

created_same :
    (b b' : Bool) → ◌≡◌ {A = ℕ} (if b then 201 else 200) (if b' then 201 else 200) → b ≡ b'
created_same b b' h = ground arith

-- A reply that names a job is of no other shape.
pub reply_same :
    (u : PgText) (b b' : Bool) (j j' : ℕ)
    → ok (created_reply u b j) ≡ ok (created_reply u b' j')
    → (b ≡ b') × (j ≡ j')
unfolding id_text code created_reply
reply_same u b b' j j' h =
    let texts : u.print j ≡ u.print j' = ap id_text h in
    let ids : some j ≡ some j' =
      sym (u.parse-print j) ∙ ap (λ (x : String). u.parse x) texts ∙ u.parse-print j' in
    (created_same b b' (ap code h), cc)

abbrev IsOther : PgText → Result Response → Type 0
IsOther u r = (b : Bool) (j : ℕ) → r ≢ ok (created_reply u b j)

code-IsOther : (u : PgText) (r : Result Response) → code r ≢ 200 → code r ≢ 201 → IsOther u r
unfolding code created_reply
code-IsOther u r n m b j h = coded b (code r) n m (ap code h)
  where
    coded : (b : Bool) (c : ℕ) → c ≢ 200 → c ≢ 201 → c ≡ (if b then 201 else 200) → ⊥
    coded true c n m q = m q
    coded false c n m q = n q

raise-IsOther : (u : PgText) (x : Exc) → IsOther u (raise x)
unfolding code
raise-IsOther u x = code-IsOther u (raise x) (λ q. omega arith) (λ q. omega arith)

pub insert_stored :
    (e : CreateEnv) (key : String) (payload : Json) (coord : String) (d d' : Db) (b : Bool) (j : ℕ)
    → insert_job e key payload coord d ≡ ok (b, j, d')
    → IsKeyOf key j d'
unfolding insert_job add_job record_transition id_of_key
insert_stored e key payload coord d d' b j h = elim (Option-cases (id_of_key key d.jobs)) [
  | inr (i, found) ↦ ground arith
  | inl missing ↦ ground (arith, eq_refl key)
]

module _ (u : PgText) (e : CreateEnv) (key : String) (w : World) where
  announce_db : (j : ℕ) (v : World) → (announce u e j v).db ≡ v.db
  unfolding announce count publish incr
  announce_db j v =
      elim e.publish_ok
        as (λ p.
          (publish p wakeup_channel (str (u.print j)) (
            count e.rates_ok e.sec "submitted"
              (record v { app = record v.app { wake = true } }))).db
          ≡ v.db) [ true ↦ refl | false ↦ refl ]

  -- The transaction replies with a job, or its reply is of another shape.
  module _ (P : Result Response × World → Type 0)
      (refused : (r : Result Response) → IsOther u r → P (r, w)) where
    failed : (x : Exc) → P (raise x, w)
    failed x = refused (raise x) (raise-IsOther u x)

    shut :
        (x : Exc) → P (elim x [ db_partitioned ↦ (ok partitioned, w) | other ↦ (raise other, w) ])
    unfolding code partitioned failure
    shut db_partitioned =
        refused (ok partitioned)
          (code-IsOther u (ok partitioned) (λ q. omega arith) (λ q. omega arith))
    shut not_connected = failed not_connected
    shut db_error = failed db_error
    shut other_error = failed other_error

    store_cases :
        (payload : Json)
        → ((b : Bool) (j : ℕ) (d : Db) (w' : World)
            → insert_job e key payload w.app.coord_id w.db ≡ ok (b, j, d)
            → w'.db ≡ d
            → P (ok (created_reply u b j), w'))
        → P (store_job u e key payload w)
    unfolding store_job gated
    store_cases payload stored = elim (Result-cases (gate e.mono w.app.db_gate)) [
      | inr (x, q) ↦ rw (q, store_job, gated) (shut x)
      | inl (t, q) ↦ elim (Result-cases (insert_job e key payload w.app.coord_id w.db)) [
        | inr (x, r) ↦ rw (q, r, store_job, gated) (ground (arith, failed x, failed db_error))
        | inl ((b, j, d), r) ↦
            rw (q, r, store_job, gated)
              (ground (
                arith,
                stored b j d (announce u e j (record w { db = d })) r
                    (announce_db j (record w { db = d })),
                stored b j d (record w { db = d }) r refl,
                failed db_error,
              ))
      ]
    ]

    key_cases :
        (fs : Fields)
        → ((payload : Json) (b : Bool) (j : ℕ) (d : Db) (w' : World)
            → insert_job e key payload w.app.coord_id w.db ≡ ok (b, j, d)
            → w'.db ≡ d
            → P (ok (created_reply u b j), w'))
        → P (create_with_key u e fs key w)
    unfolding create_with_key code failure
    key_cases fs stored =
        let long = refused (ok (failure 400 "idempotency_key exceeds 128 bytes")) (
          code-IsOther u (ok (failure 400 "idempotency_key exceeds 128 bytes")) (λ q. omega arith)
            (λ q. omega arith)) in
        let flat = refused (ok (failure 400 "payload must be a JSON object")) (
          code-IsOther u (ok (failure 400 "payload must be a JSON object")) (λ q. omega arith)
            (λ q. omega arith)) in
        elim (Option-cases (as_obj (get_or "payload" fs (obj end)))) [
          | inl q ↦ ground (arith, long, flat)
          | inr (payload, q) ↦
              ground (arith, long, store_cases (obj payload) (stored (obj payload)))
        ]

    -- On a body with a key of text the reply names a job and the database is the transaction's, or
    -- the reply is of another shape.
    pub handle_cases :
        (fs : Fields)
        → get "idempotency_key" fs ≡ str key
        → ((payload : Json) (b : Bool) (j : ℕ) (d : Db) (w' : World)
            → insert_job e key payload w.app.coord_id w.db ≡ ok (b, j, d)
            → w'.db ≡ d
            → P (ok (created_reply u b j), w'))
        → P (handle_create_job u e (some (obj fs)) w)
    unfolding handle_create_job as_obj as_str code failure
    handle_cases fs named stored =
        let empty =
          refused (ok (failure 400 "idempotency_key is required and must be a non-empty string")) (
            code-IsOther u
              (ok (failure 400 "idempotency_key is required and must be a non-empty string"))
              (λ q. omega arith) (λ q. omega arith)) in
        rw (named, handle_create_job) (ground (arith, empty, key_cases fs stored))
