-- ===== src/Stream/Polls.antt =====
-- One turn of handle_stream_job of coordinator/app.py: what it adds to the events, and when the
-- stream is done.
use mathlib.Core.List.{reverse, reverse-append, reverse-cons, map-append, append_assoc}
use chaos_harness.Common.{
  ℕ, ◌≡◌, refl, sym, ap, ◌∙◌, Bool, true, false, Option, none, some, List, [], ◌∷◌, ◌++◌, map,
  arith, if◌then◌else◌, exists,
}
use chaos_harness.Schema.{JobState, Transition, Db, state_of, transitions_of}
use chaos_harness.Audit.{transition_entry}
use chaos_harness.Protocol.{Edge, Walk}
use chaos_harness.Cluster.Finality.{is_final}
use chaos_harness.Cluster.Consistent.{IsConsistent}
use chaos_harness.Cluster.Logs.{Grows}
use chaos_harness.Stream.{Event, state_event, done_event, is_terminal, new_rows, events_of}
use chaos_harness.Stream.Rows.{IsRead, IsNumbered, gained, new_rows-gained, log-gained}

-- The job's log as events, the oldest transition first.
unfoldable pub log_events : ℕ → Db → List Event
log_events j d =
    map (λ t. state_event (transition_entry t)) (reverse (transitions_of j d.job_transitions))

abbrev pub ended : Option JobState → Bool
ended none = false
ended (some s) = is_final s

abbrev pub is_ended : ℕ → Db → Bool
is_ended j d = ended (state_of j d.jobs)

-- The whole stream of a job that the database shows: `done` stands at the end if it is final.
abbrev pub whole : ℕ → Db → List Event
whole j d = log_events j d ++ (if is_ended j d then done_event ∷ [] else [])

-- A log has a terminal transition exactly if its job is final.
edge_from : (s : Option JobState) (t : JobState) → Edge s t → ended s ≡ false
edge_from s t Edge.submit = refl
edge_from s t Edge.claim = refl
edge_from s t Edge.requeue = refl
edge_from s t Edge.finish = refl
edge_from s t Edge.cancel = refl

terminal_is : (t : Transition) → is_terminal t ≡ is_final t.to_state
unfolding is_terminal
terminal_is t = ground arith

exists-Walk :
    (s : Option JobState) (ts : List Transition) → Walk s ts → exists is_terminal ts ≡ ended s
unfolding exists
exists-Walk none [] w = refl
exists-Walk none (t ∷ ts) w = absurd w
exists-Walk (some s) [] w = absurd w
exists-Walk (some s) (t ∷ ts) w =
    let rest = exists-Walk t.from_state ts w.2 ∙ edge_from t.from_state s w.1 in
    let now = terminal_is t ∙ ap is_final w.0 in rw (rest, now) (ground arith)

exists-append :
    {A : Type 0} (p : A → Bool) (xs ys : List A)
    → exists p (xs ++ ys) ≡ (if exists p xs then true else exists p ys)
unfolding exists
exists-append p [] ys = refl
exists-append p (x ∷ xs) ys = ground (arith, exists-append p xs ys)

exists-reverse : {A : Type 0} (p : A → Bool) (xs : List A) → exists p (reverse xs) ≡ exists p xs
unfolding exists
exists-reverse p [] = refl
exists-reverse p (x ∷ xs) =
    ap (exists p) (reverse-cons x xs)
    ∙ exists-append p (reverse xs) (x ∷ [])
    ∙ ground (arith, exists-reverse p xs)

module _ (j last : ℕ) (d d' : Db) (g : Grows d d') (r : IsRead j last d) (f : IsNumbered d)
    (c : IsConsistent d) (c' : IsConsistent d') (unfinished : is_ended j d ≡ false) where
  pub terminal_rows : exists is_terminal (new_rows j last d') ≡ is_ended j d'
  terminal_rows =
      let new = gained j last d d' g r f in
      let old =
        exists-Walk (state_of j d.jobs) (transitions_of j d.job_transitions) (c.sound j).walk
        ∙ unfinished in
      let log =
        exists-Walk (state_of j d'.jobs) (transitions_of j d'.job_transitions) (c'.sound j).walk in
      let both =
        ap (exists is_terminal) (log-gained j last d d' g r f)
        ∙ exists-append is_terminal new (transitions_of j d.job_transitions) in
      let rows =
        ap (exists is_terminal) (new_rows-gained j last d d' g r f)
        ∙ exists-reverse is_terminal new in
      rows ∙ ground (arith, old, log, both)

  pub turn_events : log_events j d ++ events_of (new_rows j last d') ≡ whole j d'
  unfolding log_events events_of
  turn_events =
      let new = gained j last d d' g r f in
      let ev = λ (t : Transition). state_event (transition_entry t) in
      let rows = new_rows-gained j last d d' g r f in
      let log : map ev (reverse (transitions_of j d'.job_transitions))
          ≡ log_events j d ++ map ev (reverse new) =
        ap (λ ts. map ev (reverse ts)) (log-gained j last d d' g r f)
        ∙ ap (map ev) (reverse-append new (transitions_of j d.job_transitions))
        ∙ map-append ev (reverse (transitions_of j d.job_transitions)) (reverse new) in
      rw (terminal_rows, log, rows)
        (sym (
          append_assoc (log_events j d) (map ev (reverse new))
            (if is_ended j d' then done_event ∷ [] else [])))
