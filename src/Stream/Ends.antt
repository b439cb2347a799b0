-- ===== src/Stream/Ends.antt =====
-- handle_stream_job of coordinator/app.py ends by its deadline, whatever it meets.
use chaos_harness.Common.{
  ℕ, zero, suc, ◌+◌, ◌*◌, ◌<◌, ◌≤◌, String, ◌≡◌, refl, inl, inr, Bool, true, false, Option, none,
  some, List, arith, ltb, is_some, if◌then◌else◌, Bool-cases, Option-cases,
}
use chaos_harness.Schema.{state_of}
use chaos_harness.Runtime.{World, PgText}
use chaos_harness.Runtime.Gate.{db_partitioned, not_connected, db_error, other_error, gate, gated}
use chaos_harness.Cluster.Tables.{Result-cases}
use chaos_harness.Stream.{
  Event, Poll, StreamEnd, StreamEnv, finished, gone, reply_of, stream_max_ms, stream_poll_ms, sleep,
  new_rows, last_of, and_then, stream_loop, handle_stream_job,
}

is_some-and_then :
    (es : List Event) (o : Option (List Event × StreamEnd))
    → is_some o ≡ true
    → is_some (and_then es o) ≡ true
is_some-and_then es none h = h
is_some-and_then es (some (later, end)) h = refl

turn_some :
    (held ended : Bool) (es : List Event) (o : Option (List Event × StreamEnd))
    → is_some o ≡ true
    → is_some
        (if held then if ended then some (es, finished) else and_then es o else some (es, gone))
      ≡ true
turn_some false ended es o h = refl
turn_some true true es o h = refl
turn_some true false es o h = is_some-and_then es o h

module _ (polls : ℕ → Poll) (deadline j : ℕ) where
  loop_ends :
      (fuel k last now : ℕ)
      → deadline ≤ now + stream_poll_ms * fuel
      → is_some (stream_loop polls deadline j (suc fuel) k last now) ≡ true
  unfolding stream_loop
  loop_ends zero k last now h = ground arith
  loop_ends (suc fuel) k last now h =
      let p = polls k in
      let later = λ (l : ℕ). loop_ends fuel (suc k) l (sleep (now + p.late)) (omega arith) in
      elim (Bool-cases (ltb (now + p.late) deadline)) [
        | inr e ↦ rw e refl
        | inl e ↦ elim (Result-cases (gate p.mono p.db_gate)) [
          | inr (db_partitioned, q) ↦ rw (e, q) (later last)
          | inr (not_connected, q) ↦ rw (e, q) refl
          | inr (db_error, q) ↦ rw (e, q) refl
          | inr (other_error, q) ↦ rw (e, q) refl
          | inl (t, q) ↦ elim (Bool-cases p.query_ok) [
            | inr a ↦ rw (e, q, a) refl
            | inl a ↦ rw (e, q, a) (turn_some _ _ _ _ (later (last_of last (new_rows j last p.db))))
          ]
        ]
      ]

is_some-reply_of :
    (o : Option (List Event × StreamEnd)) → is_some o ≡ true → is_some (reply_of o) ≡ true
is_some-reply_of none h = h
is_some-reply_of (some (events, end)) h = refl

-- A stream ends within 241 turns, whatever these meet, and however late each is after the wait of
-- half a second at the end of the one before.
pub stream_ends :
    (u : PgText) (e : StreamEnv) (fuel : ℕ) (id : String) (w : World)
    → 240 < fuel
    → is_some (handle_stream_job u e fuel id w) ≡ true
unfolding handle_stream_job
stream_ends u e zero id w enough = absurd (omega arith)
stream_ends u e (suc fuel) id w enough = elim (Result-cases (gate e.mono w.app.db_gate)) [
  | inr (db_partitioned, q) ↦ rw (q, gated) refl
  | inr (not_connected, q) ↦ rw (q, gated) refl
  | inr (db_error, q) ↦ rw (q, gated) refl
  | inr (other_error, q) ↦ rw (q, gated) refl
  | inl (t, q) ↦ elim (Option-cases (u.parse id)) [
    | inl p ↦ rw (q, gated, p) refl
    | inr (j, p) ↦ elim (Option-cases (state_of j w.db.jobs)) [
      | inl r ↦ rw (q, gated, p, r) refl
      | inr (s, r) ↦
          rw (q, gated, p, r)
            (is_some-reply_of _
              (loop_ends e.polls (e.started + stream_max_ms) j fuel 0 0 e.started (omega arith)))
    ]
  ]
]
