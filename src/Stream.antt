-- ===== src/Stream.antt =====
-- handle_stream_job of coordinator/app.py: the transitions of one job as server-sent events, polled
-- from the log until the job is final. Readings of `loop.time()` are in milliseconds.
pub mod Rows
pub mod Polls
pub mod Loop
pub mod Order
pub mod Ends
pub mod Finishes
use chaos_harness.Common.{
  ℕ, zero, suc, ◌+◌, String, Bool, true, false, ◌&&◌, Option, none, some, List, [], ◌∷◌, ◌++◌, map,
  ltb, leb, ◌==◌, if◌then◌else◌, select, exists,
}
use chaos_harness.Common.Sort.{sort}
use chaos_harness.Schema.{
  JobState, succeeded, failed, cancelled, state_eq, Transition, Db, state_of,
}
use chaos_harness.Runtime.{World, PgText}
use chaos_harness.Runtime.Gate.{
  Exc, Result, ok, raise, db_partitioned, db_error, Database, gate, gated,
}
use chaos_harness.Http.{Response, failure, partitioned, invalid_id}
use chaos_harness.Audit.{TransitionEntry, transition_entry}

-- `r["to_state"] in TERMINAL_STATES`
unfoldable pub is_terminal : Transition → Bool
is_terminal t = elim t.to_state [ succeeded ↦ true | failed ↦ true | cancelled ↦ true | _ ↦ false ]

abbrev pub stream_max_ms : ℕ
stream_max_ms = 120000

abbrev pub stream_poll_ms : ℕ
stream_poll_ms = 500

pub data Event : Type 0 where
  state_event : TransitionEntry → Event
  done_event : Event

-- What one turn of the loop meets: how long after the end of the wait before it, or after the start,
-- it reads the clock, which has the turn before in it; the gate, the database, whether the query
-- raises an error of the driver, and after how many writes of this turn the client is gone, if it
-- goes.
pub record Poll : Type 0 where
  pub late : ℕ
  pub mono : ℕ
  pub db_gate : Database
  pub db : Db
  pub query_ok : Bool
  pub cut : Option ℕ

-- How a stream ends: `write_eof` follows each.
pub data StreamEnd : Type 0 where
  finished timed_out gone : StreamEnd
  broken : Exc → StreamEnd

abbrev pub id_le : Transition → Transition → Bool
id_le s t = leb s.id t.id

-- WHERE job_id = $1 AND id > $2 ORDER BY id
pub new_rows : ℕ → ℕ → Db → List Transition
unfolding sort select
new_rows j last d = sort id_le (select (λ t. t.job_id == j && ltb last t.id) d.job_transitions)

-- `last_id` after the rows.
pub last_of : ℕ → List Transition → ℕ
last_of last [] = last
last_of last (t ∷ ts) = last_of t.id ts

-- What a turn writes: the rows, and the end of the events.
pub events_of : List Transition → List Event
unfolding exists is_terminal
events_of rows =
    map (λ t. state_event (transition_entry t)) rows
    ++ (if exists is_terminal rows then done_event ∷ [] else [])

-- The writes up to the one that raises, and whether none does.
pub write : Option ℕ → List Event → List Event × Bool
write none es = (es, true)
write (some n) [] = ([], true)
write (some zero) (e ∷ es) = ([], false)
write (some (suc n)) (e ∷ es) = let (written, whole) = write (some n) es in (e ∷ written, whole)

abbrev pub and_then : List Event → Option (List Event × StreamEnd) → Option (List Event × StreamEnd)
and_then es none = none
and_then es (some (later, end)) = some (es ++ later, end)

-- `asyncio.sleep(STREAM_POLL_S)`: the clock at the end of the wait, by which the next turn may be
-- late.
abbrev pub sleep : ℕ → ℕ
sleep now = now + stream_poll_ms

-- The loop from its k-th turn on, `now` being the end of the wait before it; `none` where the fuel
-- runs out.
pub stream_loop : (ℕ → Poll) → ℕ → ℕ → ℕ → ℕ → ℕ → ℕ → Option (List Event × StreamEnd)
unfolding new_rows last_of events_of write exists is_terminal
stream_loop polls deadline j zero k last now = none
stream_loop polls deadline j (suc fuel) k last now =
    let p = polls k in
    let read = now + p.late in
    let rows = new_rows j last p.db in
    let retry = stream_loop polls deadline j fuel (suc k) last (sleep read) in
    let later = stream_loop polls deadline j fuel (suc k) (last_of last rows) (sleep read) in
    if ltb read deadline
    then elim (gate p.mono p.db_gate) [
      | raise db_partitioned ↦ retry
      | raise x ↦ some ([], broken x)
      | ok _ ↦
          if p.query_ok
          then (let (written, whole) = write p.cut (events_of rows) in
              if whole
              then if exists is_terminal rows
                then some (written, finished)
                else and_then written later
              else some (written, gone))
          else some ([], broken db_error)
    ]
    else some ([], timed_out)

pub data StreamReply : Type 0 where
  refused : Response → StreamReply
  streamed : List Event → StreamEnd → StreamReply

-- The first query's reading of the gate's clock, `loop.time()` after it, and the turns.
pub record StreamEnv : Type 0 where
  pub mono : ℕ
  pub started : ℕ
  pub polls : ℕ → Poll

abbrev pub reply_of : Option (List Event × StreamEnd) → Option StreamReply
reply_of none = none
reply_of (some (events, end)) = some (streamed events end)

unfoldable pub handle_stream_job : PgText → StreamEnv → ℕ → String → World → Option StreamReply
unfolding gated failure partitioned invalid_id stream_loop
handle_stream_job u e fuel id w =
    gated e.mono w.app.db_gate
      (elim [ db_partitioned ↦ some (refused partitioned) | _ ↦ some (refused invalid_id) ])
      (elim (u.parse id) [
        | none ↦ some (refused invalid_id)
        | some j ↦ elim (state_of j w.db.jobs) [
          | none ↦ some (refused (failure 404 "job not found"))
          | some _ ↦ reply_of (stream_loop e.polls (e.started + stream_max_ms) j fuel 0 0 e.started)
        ]
      ])
