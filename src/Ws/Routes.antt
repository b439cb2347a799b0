-- ===== src/Ws/Routes.antt =====
-- The messages of a worker in `_route` of coordinator/ws.py: each is a handler's step on the database,
-- and leaves the connection its worker.
use chaos_harness.Common.{
  ℕ, String, ◌≡◌, refl, inl, inr, Bool, true, false, arith, str_eq, is_some, Bool-cases,
  Option-cases,
}
use chaos_harness.Common.Int.{ℤ, int_eq, fits_bigint}
use chaos_harness.Json.{Json, Fields, or_empty, get, as_str}
use chaos_harness.Schema.{Db, leases_of, latest}
use chaos_harness.Runtime.{World, PgText, send, count}
use chaos_harness.Runtime.Gate.{
  Result, ok, raise, db_partitioned, not_connected, db_error, other_error, gate, gated,
}
use chaos_harness.Commit.{
  CommitEnv, finish, accepted_fence, is_valid, try_accept, reject, commit_body, close, commit_text,
  lease_key, handle_commit, handle_heartbeat,
}
use chaos_harness.Cluster.{Step, Reach, here, next, IsSerial}
use chaos_harness.Cluster.Tables.{Result-cases}
use chaos_harness.Ws.{route, drop_partitioned}

drop_keeps : (r : Result (Unit {0}) × World) → (drop_partitioned r).1 ≡ r.1
unfolding drop_partitioned
drop_keeps (ok t, w) = refl
drop_keeps (raise db_partitioned, w) = refl
drop_keeps (raise not_connected, w) = refl
drop_keeps (raise db_error, w) = refl
drop_keeps (raise other_error, w) = refl

commit_step :
    (u : PgText) (e : CommitEnv) (m : Fields) (w : World)
    → IsSerial e.others
    → Reach u w.db (handle_commit u e m w).1.db
commit_step u e m w serial = next here (Step.commit e m w serial refl refl)

heartbeat_step :
    (u : PgText) (mono now : ℕ) (m : Fields) (w : World)
    → Reach u w.db (handle_heartbeat u mono now m w).1.db
heartbeat_step u mono now m w = next here (Step.heartbeat mono now m w refl refl)

-- One message is a handler's step, or none.
pub route_steps :
    (u : PgText) (e : CommitEnv) (m : Fields) (w : World)
    → IsSerial e.others
    → Reach u w.db (route u e m w).1.db
unfolding route
route_steps u e m w serial = elim (Option-cases (as_str (get "type" m))) [
  | inl q ↦ rw (q, route) here
  | inr (t, q) ↦ elim (Bool-cases (str_eq t "commit")) [
    | inl p ↦ rw (q, route, p, drop_keeps (handle_commit u e m w)) (commit_step u e m w serial)
    | inr p ↦ elim (Bool-cases (str_eq t "heartbeat")) [
      | inl b ↦
          rw (q, route, p, b, drop_keeps (handle_heartbeat u e.mono e.now m w))
            (heartbeat_step u e.mono e.now m w)
      | inr b ↦ rw (q, route, p, b) here
    ]
  ]
]

-- A connection keeps its worker.
abbrev pub Same : World → World → Type 0
Same w w' = w'.conn.worker_id ≡ w.conn.worker_id

finish-Same : (b : Bool) (sent : String) (a : Bool) (w : World) → Same w (finish b sent a w)
unfolding finish send
finish-Same b sent a w = ground arith

module _ (e : CommitEnv) (j : ℕ) (sent : String) (f : ℤ) (result : Json) (w : World) where
  accept-Same : Same w (try_accept e j sent f result w).1
  unfolding try_accept count
  accept-Same = elim (Bool-cases (is_some (accepted_fence j w.db.commits))) [
    | inl q ↦ rw (q, try_accept) (finish-Same e.send_ok sent true w)
    | inr q ↦ elim (Bool-cases e.jsonb_ok) [
      | inl b ↦ rw (q, try_accept, b) (finish-Same e.send_ok sent true _)
      | inr b ↦ rw (q, try_accept, b) refl
    ]
  ]

  reject-Same : Same w (reject e j sent f w).1
  unfolding reject count
  reject-Same = elim (Bool-cases (fits_bigint f)) [
    | inl q ↦ rw (q, reject) (finish-Same e.send_ok sent false _)
    | inr q ↦ rw (q, reject) refl
  ]

body-Same :
    (e : CommitEnv) (j : ℕ) (sent : String) (f : ℤ) (result : Json) (w : World)
    → Same w (commit_body e j sent f result w).1
unfolding commit_body
body-Same e j sent f result w =
    let later = record w { db = e.others w.db } in
    elim (Option-cases (accepted_fence j w.db.commits)) [
      | inr (g, q) ↦ rw (q, commit_body) (finish-Same e.send_ok sent (int_eq g f) later)
      | inl q ↦ elim (Bool-cases (is_valid e.read_ms f (latest (leases_of j w.db.leases)))) [
        | inl b ↦ rw (q, commit_body, b) (accept-Same e j sent f result later)
        | inr b ↦ rw (q, commit_body, b) (reject-Same e j sent f result later)
      ]
    ]

close-Same :
    (e : CommitEnv) (d : Db) (w : World) (r : Result (Unit {0}) × World)
    → Same w r.1
    → Same w (close e d r).1
unfolding close
close-Same e d w (raise x, v) h = h
close-Same e d w (ok t, v) h = ground arith

text-Same :
    (u : PgText) (e : CommitEnv) (id : Json) (f : ℤ) (result : Json) (w : World)
    → Same w (commit_text u e id f result w).1
unfolding commit_text
text-Same u e (Json.str sent) f result w = elim (Option-cases (u.parse sent)) [
  | inl q ↦ rw (q, commit_text) refl
  | inr (j, q) ↦
      rw (q, commit_text)
        (close-Same e (e.others w.db) w (commit_body e j sent f result w)
          (body-Same e j sent f result w))
]
text-Same u e _ f result w = refl

commit-Same :
    (u : PgText) (e : CommitEnv) (m : Fields) (w : World) → Same w (handle_commit u e m w).1
unfolding handle_commit gated
commit-Same u e m w = elim (Option-cases (lease_key m)) [
  | inl q ↦ rw (q, handle_commit) refl
  | inr ((id, f), q) ↦ elim (Result-cases (gate e.mono w.app.db_gate)) [
    | inr (x, g) ↦ rw (q, handle_commit, g, gated) refl
    | inl (t, g) ↦
        rw (q, handle_commit, g, gated) (text-Same u e id f (or_empty (get "result" m)) w)
  ]
]

heartbeat-Same :
    (u : PgText) (mono now : ℕ) (m : Fields) (w : World)
    → Same w (handle_heartbeat u mono now m w).1
unfolding handle_heartbeat gated
heartbeat-Same u mono now m w = ground arith

pub route-Same : (u : PgText) (e : CommitEnv) (m : Fields) (w : World) → Same w (route u e m w).1
unfolding route
route-Same u e m w = elim (Option-cases (as_str (get "type" m))) [
  | inl q ↦ rw (q, route) refl
  | inr (t, q) ↦ elim (Bool-cases (str_eq t "commit")) [
    | inl p ↦ rw (q, route, p, drop_keeps (handle_commit u e m w)) (commit-Same u e m w)
    | inr p ↦ elim (Bool-cases (str_eq t "heartbeat")) [
      | inl b ↦
          rw (q, route, p, b, drop_keeps (handle_heartbeat u e.mono e.now m w))
            (heartbeat-Same u e.mono e.now m w)
      | inr b ↦ rw (q, route, p, b) refl
    ]
  ]
]
