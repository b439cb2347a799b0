-- ===== src/Stream/Loop.antt =====
-- The loop of handle_stream_job of coordinator/app.py over a run of the dispatcher.
use mathlib.Core.List.{append_assoc, append-nil}
use chaos_harness.Common.{
  ℕ, zero, suc, ◌+◌, ◌≡◌, refl, sym, ap, subst, ◌∙◌, inl, inr, Bool, true, false, Option, none,
  some, List, [], ◌∷◌, ◌++◌, ltb, if◌then◌else◌, exists, Bool-cases,
}
use chaos_harness.Schema.{Transition, Db, init}
use chaos_harness.Runtime.{PgText}
use chaos_harness.Runtime.Gate.{db_partitioned, not_connected, db_error, other_error, gate}
use chaos_harness.Cluster.{Reach, here}
use chaos_harness.Cluster.Invariant.{Reach-IsConsistent, init-IsConsistent}
use chaos_harness.Cluster.Logs.{Reach-Grows, Reach_trans}
use chaos_harness.Cluster.Tables.{Result-cases}
use chaos_harness.Stream.{
  sleep, Event, Poll, StreamEnd, finished, timed_out, gone, broken, is_terminal, new_rows, last_of,
  events_of, write, and_then, stream_loop,
}
use chaos_harness.Stream.Rows.{IsRead, IsRead-step, IsNumbered}
use chaos_harness.Stream.Polls.{log_events, is_ended, whole, terminal_rows, turn_events}

pub reached-IsNumbered : {u : PgText} {d : Db} → Reach u init d → IsNumbered d
reached-IsNumbered r = (Reach-Grows r).falls tt

write_prefix :
    (cut : Option ℕ) (es : List Event)
    → (rest : List Event) × ((write cut es).0 ++ rest ≡ es) × ((write cut es).1 ≡ true → rest ≡ [])
unfolding write
write_prefix none es = ([], append-nil es, λ h. refl)
write_prefix (some n) [] = ([], refl, λ h. refl)
write_prefix (some zero) (e ∷ es) = (e ∷ es, refl, λ h. cc)
write_prefix (some (suc n)) (e ∷ es) =
    let (rest, all, none_left) = write_prefix (some n) es in
    (rest, ap (λ xs. e ∷ xs) all, none_left)

-- How the end of a stream bears on what is left unsent and on the job.
abbrev pub Ends : StreamEnd → List Event → Bool → Type 0
Ends finished rest b = (rest ≡ []) × (b ≡ true)
Ends timed_out rest b = (rest ≡ []) × (b ≡ false)
Ends gone rest b = Unit
Ends (broken x) rest b = (rest ≡ []) × (b ≡ false)

-- The databases of the turns, one run.
pub record IsRun (u : PgText) (polls : ℕ → Poll) : Type 0 where
  pub starts : Reach u init (polls 0).db
  pub goes : (k : ℕ) → Reach u (polls k).db (polls (suc k)).db

module _ (u : PgText) (polls : ℕ → Poll) (j : ℕ) where
  abbrev pub IsStream : List Event × StreamEnd → Type 0
  IsStream (events, end) =
      (d : Db) × (rest : List Event) × (k : ℕ) × Reach u init d
      × Reach u d (polls k).db
      × (events ++ rest ≡ whole j d)
      × Ends end rest (is_ended j d)

  -- Of a loop that has sent some events before.
  abbrev Continues : List Event → Option (List Event × StreamEnd) → Type 0
  Continues sent none = Unit
  Continues sent (some (es, end)) = IsStream (sent ++ es, end)

  Continues-and_then :
      (sent es : List Event) (o : Option (List Event × StreamEnd))
      → Continues (sent ++ es) o
      → Continues sent (and_then es o)
  Continues-and_then sent es none h = tt
  Continues-and_then sent es (some (later, end)) h =
      subst (λ xs. IsStream (xs, end)) (append_assoc sent es later) h

  -- A loop that ends without a write.
  at_rest :
      (end : StreamEnd) (k : ℕ) (d : Db)
      → Reach u init d
      → Reach u d (polls k).db
      → is_ended j d ≡ false
      → Ends end [] false
      → Continues (log_events j d) (some ([], end))
  at_rest end k d start to unfinished h = (
    d,
    [],
    k,
    start,
    to,
    rw unfinished (append-nil (log_events j d ++ [])),
    subst (Ends end []) (sym unfinished) h,
  )

  module _ (k last : ℕ) (d : Db) (start : Reach u init d) (to : Reach u d (polls k).db)
      (read : IsRead j last d) (unfinished : is_ended j d ≡ false) where
    abbrev pub rows : List Transition
    rows = new_rows j last (polls k).db

    pub met : Reach u init (polls k).db
    met = Reach_trans start to

    pub sent_whole : log_events j d ++ events_of rows ≡ whole j (polls k).db
    sent_whole =
        turn_events j last d (polls k).db (Reach-Grows to) read (reached-IsNumbered start)
          (Reach-IsConsistent init-IsConsistent start) (Reach-IsConsistent init-IsConsistent met)
          unfinished

    pub rows_ended : exists is_terminal rows ≡ is_ended j (polls k).db
    rows_ended =
        terminal_rows j last d (polls k).db (Reach-Grows to) read (reached-IsNumbered start)
          (Reach-IsConsistent init-IsConsistent start) (Reach-IsConsistent init-IsConsistent met)
          unfinished

    -- The turn that the query answers.
    answered :
        (o : Option (List Event × StreamEnd))
        → (is_ended j (polls k).db ≡ false → Continues (log_events j (polls k).db) o)
        → Continues (log_events j d) (
            if (write (polls k).cut (events_of rows)).1
            then if exists is_terminal rows
              then some ((write (polls k).cut (events_of rows)).0, finished)
              else and_then (write (polls k).cut (events_of rows)).0 o
            else some ((write (polls k).cut (events_of rows)).0, gone))
    answered o later =
        let (rest, all, none_left) = write_prefix (polls k).cut (events_of rows) in
        let written = (write (polls k).cut (events_of rows)).0 in
        let sum : (log_events j d ++ written) ++ rest ≡ whole j (polls k).db =
          append_assoc (log_events j d) written rest
          ∙ ap (λ es. log_events j d ++ es) all
          ∙ sent_whole in
        elim (Bool-cases (write (polls k).cut (events_of rows)).1) [
          | inr e ↦ rw e ((polls k).db, rest, k, met, here, sum, tt)
          | inl e ↦ elim (Bool-cases (exists is_terminal rows)) [
            | inl t ↦
                rw (e, t) ((polls k).db, rest, k, met, here, sum, (none_left e, sym rows_ended ∙ t))
            | inr t ↦
                let open_yet = sym rows_ended ∙ t in
                let log : log_events j d ++ written ≡ log_events j (polls k).db =
                  sym (append-nil _)
                  ∙ ap (λ es. (log_events j d ++ written) ++ es) (sym (none_left e))
                  ∙ sum
                  ∙ rw open_yet (append-nil _) in
                rw (e, t)
                  (Continues-and_then (log_events j d) written o
                    (subst (λ es. Continues es o) (sym log) (later open_yet)))
          ]
        ]

  module _ (run : IsRun u polls) (deadline : ℕ) where
    pub loop-Continues :
        (fuel k last now : ℕ) (d : Db)
        → Reach u init d
        → Reach u d (polls k).db
        → IsRead j last d
        → is_ended j d ≡ false
        → Continues (log_events j d) (stream_loop polls deadline j fuel k last now)
    unfolding stream_loop
    loop-Continues zero k last now d start to read unfinished = tt
    loop-Continues (suc fuel) k last now d start to read unfinished =
        let p = polls k in
        elim (Bool-cases (ltb (now + p.late) deadline)) [
          | inr e ↦ rw e (at_rest timed_out k d start to unfinished (refl, refl))
          | inl e ↦ elim (Result-cases (gate p.mono p.db_gate)) [
            | inr (db_partitioned, q) ↦
                rw (e, q)
                  (loop-Continues fuel (suc k) last (sleep (now + p.late)) d start
                    (Reach_trans to (run.goes k)) read unfinished)
            | inr (not_connected, q) ↦
                rw (e, q) (at_rest (broken not_connected) k d start to unfinished (refl, refl))
            | inr (db_error, q) ↦
                rw (e, q) (at_rest (broken db_error) k d start to unfinished (refl, refl))
            | inr (other_error, q) ↦
                rw (e, q) (at_rest (broken other_error) k d start to unfinished (refl, refl))
            | inl (t, q) ↦ elim (Bool-cases p.query_ok) [
              | inr a ↦
                  rw (e, q, a) (at_rest (broken db_error) k d start to unfinished (refl, refl))
              | inl a ↦
                  rw (e, q, a)
                    (answered k last d start to read unfinished _ (λ open_yet.
                      loop-Continues fuel (suc k) (last_of last (new_rows j last p.db))
                        (sleep (now + p.late)) p.db (met k last d start to read unfinished)
                        (run.goes k)
                        (IsRead-step j last d p.db (Reach-Grows to) read (reached-IsNumbered start))
                        open_yet))
            ]
          ]
        ]
