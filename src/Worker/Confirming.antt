-- ===== src/Worker/Confirming.antt =====
-- The confirmations of coordinator/commit.py, and the flag that `_handle` of worker/worker.py sets
-- for them: neither names a fence.
use chaos_harness.Common.{
  ℕ, String, ◌≡◌, refl, ap, ◌∙◌, Bool, true, false, Option, none, some, List, [], ◌∷◌, arith,
  str_eq, eq_refl, if◌then◌else◌,
}
use chaos_harness.Common.Int.{ℤ, fits_bigint}
use chaos_harness.Json.{Json, Fields, str, obj, field, end}
use chaos_harness.Schema.{latest, leases_of, accepted_of}
use chaos_harness.Runtime.{World, PgText, send, count}
use chaos_harness.Runtime.Gate.{ok}
use chaos_harness.Commit.{
  CommitEnv, handle_commit, accepted_fence, is_valid, commit_body, close, reject, finish,
  insert_commit,
}
use chaos_harness.Cluster.{IsSerial}
use chaos_harness.Cluster.Acks.{runs, IsOpen, IsWellFormed}
use chaos_harness.Worker.Frames.{Worker, handle, handle_fields, set_event, key_eq, is_key}
use chaos_harness.Worker.Tasks.{put_ack, drop_ack}

-- The reply to a commit that is not accepted.
abbrev pub rejected_frame : String → Json
rejected_frame sent = obj (field "type" (str "commit_rejected") (field "job_id" (str sent) end))

-- What a worker with a commit of the job pending does with it.
rejection_read :
    (sent : String) (v : Worker) (acks : List (Json × Bool))
    → v.acks ≡ put_ack (str sent) acks
    → (rest : List (Json × Bool)) × (handle (rejected_frame sent) v
        ≡ (ok tt, record v { acks = (str sent, true) ∷ rest }))
unfolding put_ack handle handle_fields set_event is_key key_eq
rejection_read sent v acks h =
    (set_event (str sent) (drop_ack (str sent) acks), rw (h, handle, eq_refl sent) refl)

-- A commit of an invalid fence, for a job with no accepted commit, is rejected. A worker that has
-- a commit of the same job pending, under whatever fence, takes the rejection for the confirmation
-- of that one: its flag is set, and the job still has no accepted commit.
pub rejection_confirms :
    (u : PgText) (e : CommitEnv) (m : Fields) (w : World) (sent : String) (f : ℤ) (j : ℕ)
    (v : Worker) (acks : List (Json × Bool))
    → IsWellFormed u m sent f j
    → IsOpen e.mono w
    → IsSerial e.others
    → accepted_fence j w.db.commits ≡ none
    → is_valid e.read_ms f (latest (leases_of j w.db.leases)) ≡ false
    → fits_bigint f ≡ true
    → e.send_ok ≡ true
    → e.commit_ok ≡ true
    → v.acks ≡ put_ack (str sent) acks
    → ((handle_commit u e m w).1.conn.ws_sent ≡ rejected_frame sent ∷ w.conn.ws_sent)
      × (accepted_fence j (handle_commit u e m w).1.db.commits ≡ none)
      × (rest : List (Json × Bool)) × (handle (rejected_frame sent) v
          ≡ (ok tt, record v { acks = (str sent, true) ∷ rest }))
unfolding commit_body close reject finish send insert_commit count accepted_fence accepted_of
    chaos_harness.Common.select
rejection_confirms u e m w sent f j v acks named opened serial free invalid fits sends commits
      pending =
    let run = runs u e m w sent f j named.0 named.1 opened.0 opened.1 in
    let (rest, heard) = rejection_read sent v acks pending in
    (
      rw (run, commit_body, free, invalid, reject, fits, close, commits, serial w.db, sends) refl,
      rw (run, commit_body, free, invalid, reject, fits, close, commits, serial w.db, sends)
          (ground (arith, free)),
      rest,
      heard,
    )
