-- ===== src/Stream/Finishes.antt =====
-- A stream of handle_stream_job of coordinator/app.py finishes, with the whole log, once a turn finds
-- the job final.
use mathlib.Core.List.{append_assoc, append-nil}
use chaos_harness.Common.{
  ℕ, zero, suc, ◌+◌, ◌<◌, ◌≤◌, String, ◌≡◌, refl, sym, ap, subst, ◌∙◌, ◌≢◌, ◌-◌, inl, inr, true,
  false, Option, none, some, List, ◌++◌, arith, ltb, if◌then◌else◌, exists, Bool-cases,
}
use chaos_harness.Schema.{JobState, Db, init, state_of}
use chaos_harness.Runtime.{World, PgText}
use chaos_harness.Runtime.Gate.{is_partitioned, gate-open, gated-open}
use chaos_harness.Cluster.{Reach, here}
use chaos_harness.Cluster.Logs.{Reach-Grows}
use chaos_harness.Stream.{
  Event, Poll, StreamEnd, StreamEnv, streamed, finished, stream_max_ms, sleep, is_terminal,
  new_rows, last_of, events_of, write, and_then, stream_loop, handle_stream_job,
}
use chaos_harness.Stream.Rows.{IsRead, IsRead-step}
use chaos_harness.Stream.Polls.{log_events, is_ended, whole}
use chaos_harness.Stream.Loop.{IsRun, reached-IsNumbered, met, rows_ended, sent_whole}
use chaos_harness.Stream.Order.{start-IsRead, start_unfinished, log_events-init}

-- What the k-th turn reads of the clock.
abbrev pub clock : (ℕ → Poll) → ℕ → ℕ → ℕ
clock polls started zero = started + (polls zero).late
clock polls started (suc k) = sleep (clock polls started k) + (polls (suc k)).late

-- A turn in time whose query is answered, and whose writes arrive.
pub record IsAnswered (deadline now : ℕ) (p : Poll) : Type 0 where
  pub early : ltb now deadline ≡ true
  pub connected : p.db_gate.connected ≡ true
  pub opened : is_partitioned p.mono p.db_gate ≡ false
  pub query : p.query_ok ≡ true
  pub writes : p.cut ≡ none

module _ (u : PgText) (polls : ℕ → Poll) (run : IsRun u polls) (deadline started j final : ℕ)
    (answers : (i : ℕ) → i ≤ final → IsAnswered deadline (clock polls started i) (polls i))
    (over : is_ended j (polls final).db ≡ true) where
  -- What the loop gives from a turn on, after what it has sent.
  abbrev Finishes : List Event → Option (List Event × StreamEnd) → Type 0
  Finishes sent o =
      (m : ℕ) × (es : List Event) × (m ≤ final)
      × (o ≡ some (es, finished))
      × (sent ++ es ≡ whole j (polls m).db)
      × (is_ended j (polls m).db ≡ true)

  loop_turn :
      (fuel k last now : ℕ)
      → IsAnswered deadline (now + (polls k).late) (polls k)
      → stream_loop polls deadline j (suc fuel) k last now ≡ (
          let new = new_rows j last (polls k).db in
          if exists is_terminal new
          then some (events_of new, finished)
          else and_then (events_of new) (
              stream_loop polls deadline j fuel
                (suc k)
                (last_of last new)
                (sleep (now + (polls k).late))))
  unfolding stream_loop write
  loop_turn fuel k last now a =
      rw
        (
          a.early,
          gate-open (polls k).mono (polls k).db_gate a.connected a.opened,
          a.query,
          a.writes,
        )
        refl

  Finishes-and_then :
      (sent es : List Event) (o : Option (List Event × StreamEnd))
      → Finishes (sent ++ es) o
      → Finishes sent (and_then es o)
  Finishes-and_then sent es o (m, later, le, q, sum, t) =
      (m, es ++ later, le, ap (and_then es) q, sym (append_assoc sent es later) ∙ sum, t)

  loop-Finishes :
      (fuel left k last now : ℕ) (d : Db)
      → now + (polls k).late ≡ clock polls started k
      → left < fuel
      → k + left ≡ final
      → Reach u init d
      → Reach u d (polls k).db
      → IsRead j last d
      → is_ended j d ≡ false
      → Finishes (log_events j d) (stream_loop polls deadline j fuel k last now)
  loop-Finishes zero left k last now d at less sum start to read unfinished = absurd (omega arith)
  loop-Finishes (suc fuel) left k last now d at less sum start to read unfinished =
      let new = new_rows j last (polls k).db in
      let turn =
        loop_turn fuel k last now
          (subst (λ c. IsAnswered deadline c (polls k)) (sym at) (answers k (omega arith))) in
      let sent = sent_whole u polls j k last d start to read unfinished in
      let rows_end = rows_ended u polls j k last d start to read unfinished in
      elim (Bool-cases (exists is_terminal new)) [
        | inl t ↦ (
          k,
          events_of new,
          omega arith,
          turn
              ∙ ap
                  (λ b.
                    if b
                    then some (events_of new, finished)
                    else and_then (events_of new) (
                        stream_loop polls deadline j fuel (suc k) (last_of last new)
                          (sleep (now + (polls k).late))))
                  t,
          sent,
          sym rows_end ∙ t,
        )
        | inr t ↦
            let open_yet : is_ended j (polls k).db ≡ false = sym rows_end ∙ t in
            let log : log_events j d ++ events_of new ≡ log_events j (polls k).db =
              sent ∙ rw open_yet (append-nil _) in
            let more : left ≢ 0 = λ z.
              let same : k ≡ final = omega arith in
              let clash : true ≡ false =
                sym over ∙ sym (ap (λ i. is_ended j (polls i).db) same) ∙ open_yet in
              cc in
            let later =
              stream_loop polls deadline j fuel (suc k) (last_of last new)
                (sleep (now + (polls k).late)) in
            let rest =
              loop-Finishes fuel (left - 1) (suc k) (last_of last new)
                (sleep (now + (polls k).late)) (polls k).db
                (ap (λ c. sleep c + (polls (suc k)).late) at) (omega arith) (omega arith)
                (met u polls j k last d start to read unfinished) (run.goes k)
                (IsRead-step j last d (polls k).db (Reach-Grows to) read (reached-IsNumbered start))
                open_yet in
            subst (Finishes (log_events j d))
              (sym (
                turn
                ∙ ap
                    (λ b.
                      if b then some (events_of new, finished) else and_then (events_of new) later)
                    t))
              (Finishes-and_then (log_events j d) (events_of new) later
                (subst (λ es. Finishes es later) (sym log) rest))
      ]

-- Over a run of the dispatcher, a stream of a job that is stored, whose turns up to the n-th are
-- answered in time and reach the client, finishes by that turn if the job is final at it: the
-- client gets the job's whole log, as a turn that found the job final shows it, and `done`.
pub stream_finishes :
    (u : PgText) (e : StreamEnv) (fuel n j : ℕ) (s : JobState) (id : String) (w : World)
    → IsRun u e.polls
    → w.app.db_gate.connected ≡ true
    → is_partitioned e.mono w.app.db_gate ≡ false
    → u.parse id ≡ some j
    → state_of j w.db.jobs ≡ some s
    → ((i : ℕ)
        → i ≤ n
        → IsAnswered (e.started + stream_max_ms) (clock e.polls e.started i) (e.polls i))
    → is_ended j (e.polls n).db ≡ true
    → n < fuel
    → (m : ℕ) × (m ≤ n)
      × (is_ended j (e.polls m).db ≡ true)
      × (handle_stream_job u e fuel id w ≡ some (streamed (whole j (e.polls m).db) finished))
unfolding handle_stream_job
stream_finishes u e fuel n j s id w run up opened named stored answers over less =
    let (m, es, le, q, sum, t) =
      loop-Finishes u e.polls run (e.started + stream_max_ms) e.started j n answers over fuel n 0 0
        e.started init refl less (omega arith) here run.starts (start-IsRead j)
        (start_unfinished j) in
    let all : es ≡ whole j (e.polls m).db = ap (λ es'. es' ++ es) (sym (log_events-init j)) ∙ sum in
    (m, le, t, rw (gated-open e.mono w.app.db_gate up _ _ opened, named, stored, q, all) refl)
