-- ===== src/Worker/Holding.antt =====
-- What the tasks of worker/worker.py hold: a slot each from the start of the work to the end of the
-- commit, and never more slots than the limit allowed.
use chaos_harness.Common.{
  ℕ, ◌+◌, ◌≤◌, max, String, ◌≡◌, refl, sym, ap, ◌∙◌, subst, inl, inr, Bool, Option, List, [], ◌∷◌,
  ◌++◌, map, arith, length, select,
}
use chaos_harness.Common.Int.{ℤ}
use chaos_harness.Json.{Json, Fields}
use chaos_harness.Chaos.{Numerals}
use chaos_harness.Runtime.Gate.{Result}
use chaos_harness.Worker.{ResizableSemaphore, release}
use chaos_harness.Worker.Frames.{Worker, handle}
use chaos_harness.Worker.Held.{held, release_all-held, moved, gone}
use chaos_harness.Worker.Tasks.{
  Phase, created, waiting, working, committing, ended, Task, Session, task, spawn, discard, holds,
  new_worker, with_tasks, cancel_jobs, put_ack, drop_ack, TaskStep, TaskRun, begin, then_step,
}
use chaos_harness.Worker.Listed.{entry, IsFalling, entries_moved, entries_discarded, handle_spawns}
use chaos_harness.Worker.Slotted.{
  IsSlotted, IsWithin, handle_used, new_worker-IsSlotted, new_worker_within, acquired, kept,
  cancelled,
}

module _ (n : Numerals) (loads : String → Option Json) (b : ℕ) (s : Session) (slotted : IsSlotted s)
    (within : IsWithin b s) where
  abbrev Good : Session → Type 0
  Good t = IsSlotted t × IsWithin (max b t.worker.slots.limit) t

  -- A frame is handled.
  heard-Good :
      (frame : Json) → Good (with_tasks (spawn frame s.worker ++ s.tasks) (handle frame s.worker).1)
  unfolding held select holds
  heard-Good frame =
      let same = handle_used frame s.worker in
      let used = slotted.used in
      elim (handle_spawns frame s.worker) [
        | inl (nothing, jobs, made) ↦ (
          record {
            listed = jobs ∙ slotted.listed ∙ sym (ap (λ ts. map entry (ts ++ s.tasks)) nothing);
            falling = rw (jobs, made) slotted.falling;
            used = same ∙ used ∙ sym (ap (λ ts. held (ts ++ s.tasks)) nothing);
          },
          (omega (arith, same, within.0), omega arith),
        )
        | inr (m, one, jobs, made) ↦ (
          record {
            listed =
                jobs
                ∙ ap (◌∷◌ (s.worker.made, m)) slotted.listed
                ∙ sym (ap (λ ts. map entry (ts ++ s.tasks)) one);
            falling = rw (jobs, made) (omega arith, slotted.falling);
            used = same ∙ used ∙ sym (ap (λ ts. held (ts ++ s.tasks)) one);
          },
          (omega (arith, same, within.0), omega arith),
        )
      ]

  -- A task moves to another phase.
  stays :
      (before after : List Task) (i : ℕ) (m : Fields) (p q : Phase)
      → s.tasks ≡ before ++ task i p m ∷ after
      → s.worker.jobs ≡ map entry (before ++ task i q m ∷ after)
  stays before after i m p q h =
      slotted.listed ∙ ap (map entry) h ∙ entries_moved before after i p q m

  phase-Good :
      (before after : List Task) (i : ℕ) (m : Fields) (p q : Phase) (slots : ResizableSemaphore)
      (acks : List (Json × Bool))
      → s.tasks ≡ before ++ task i p m ∷ after
      → slots.limit ≡ s.worker.slots.limit
      → slots.in_use + held (task i p m ∷ []) ≡ s.worker.slots.in_use + held (task i q m ∷ [])
      → slots.in_use ≤ s.worker.slots.in_use
      → Good (
          with_tasks
            (before ++ task i q m ∷ after)
            (record s.worker { slots = slots; acks = acks }))
  phase-Good before after i m p q slots acks h limit count less =
      let c = moved before after (task i p m) (task i q m) s.tasks h in
      let used = slotted.used in
      kept b s _ (record s.worker { slots = slots; acks = acks }) within limit
        (stays before after i m p q h) slotted.falling (omega (arith, c, used, count)) less

  step-Good : (t : Session) → TaskStep n loads s t → Good t
  unfolding held select holds release
  step-Good t (TaskStep.heard frame r w h e) =
      let same : (handle frame s.worker).1 ≡ w = ap (λ (x : Result (Unit {0}) × Worker). x.1) h in
      subst Good (ap (with_tasks (spawn frame s.worker ++ s.tasks)) same ∙ sym e) (heard-Good frame)
  step-Good t (TaskStep.read before after i m p q h e) = subst Good (sym e) (
      phase-Good before after i m created (waiting p) s.worker.slots s.worker.acks q refl refl
        (omega arith))
  step-Good t (TaskStep.failed before after i m x q h e) = subst Good (sym e) (
      phase-Good before after i m created ended s.worker.slots s.worker.acks q refl refl
        (omega arith))
  step-Good t (TaskStep.works before after i m p slots q h e) =
      let c = moved before after (task i (waiting p) m) (task i (working p) m) s.tasks q in
      let used = slotted.used in
      let (more, limit, room) = acquired s.worker.slots slots h in
      subst Good (sym e) (
        record {
          listed = stays before after i m (waiting p) (working p) q;
          falling = slotted.falling;
          used = omega (arith, c, used, more);
        },
        (omega (arith, room), omega arith),
      )
  step-Good t (TaskStep.commits before after i m p q key e) = subst Good (sym e) (
      phase-Good before after i m (working p) (committing p) s.worker.slots
        (put_ack p.job_id s.worker.acks) q refl refl (omega arith))
  step-Good t (TaskStep.breaks before after i m p q key e) =
      let c = gone before after (task i (working p) m) s.tasks q in
      let used = slotted.used in
      subst Good (sym e) (
        phase-Good before after i m (working p) ended (release s.worker.slots) s.worker.acks q refl
          (omega (arith, c, used)) (omega arith))
  step-Good t (TaskStep.ends before after i m p q e) =
      let c = gone before after (task i (committing p) m) s.tasks q in
      let used = slotted.used in
      subst Good (sym e) (
        phase-Good before after i m (committing p) ended (release s.worker.slots)
          (drop_ack p.job_id s.worker.acks) q refl (omega (arith, c, used)) (omega arith))
  step-Good t (TaskStep.called_back before after i m q e) =
      let c = gone before after (task i ended m) s.tasks q in
      let used = slotted.used in
      let listed = slotted.listed ∙ ap (map entry) q in
      let (out, falls) =
        entries_discarded s.worker.made i ended m before after
          (subst (IsFalling s.worker.made) listed slotted.falling) in
      let left = ap (discard i) listed ∙ out in
      subst Good (sym e) (
        kept b s _ (record s.worker { jobs = discard i s.worker.jobs }) within refl left
          (subst (IsFalling s.worker.made) (sym left) falls) (omega (arith, c, used)) (omega arith))
  step-Good t (TaskStep.disconnected e) =
      let (freed, limit) = release_all-held s.tasks s.worker.slots in
      let used = slotted.used in
      subst Good (sym (e ∙ cancelled s slotted))
        (kept b s [] _ within limit refl tt (omega (arith, freed, used)) (omega (arith, freed)))

run-Good :
    (n : Numerals) (loads : String → Option Json) (s t : Session) (b : ℕ)
    → IsSlotted s
    → s.worker.slots.in_use ≤ s.worker.slots.limit
    → TaskRun n loads s b t
    → IsSlotted t × IsWithin b t
run-Good n loads s t b slotted within begin = (slotted, (within, omega arith))
run-Good n loads s v b slotted within (then_step {b = c} {t = t} run step) =
    let (good, inside) = run-Good n loads s t c slotted within run in
    step-Good n loads c t good inside v step

-- Over any run of a worker from its start: `_jobs` has exactly the tasks that are there and whose
-- done callback has not run; the slots in use are those of the tasks that work or commit, never more
-- than the largest limit that was in force; and _cancel_jobs, at the end of the connection, leaves no
-- task, nothing in `_jobs`, and no slot in use.
pub tasks_bounded :
    (n : Numerals) (loads : String → Option Json) (worker : String) (limit : ℤ) (b : ℕ)
    (t : Session)
    → TaskRun n loads (new_worker worker limit) b t
    → (t.worker.jobs ≡ map entry t.tasks)
      × (t.worker.slots.in_use ≡ length (select holds t.tasks))
      × (t.worker.slots.in_use ≤ b)
      × ((cancel_jobs t).tasks ≡ [])
      × ((cancel_jobs t).worker.jobs ≡ [])
      × (◌≡◌ {A = ℕ} (cancel_jobs t).worker.slots.in_use 0)
unfolding held
tasks_bounded n loads worker limit b t run =
    let (slotted, within) =
      run-Good n loads (new_worker worker limit) t b (new_worker-IsSlotted worker limit)
        (new_worker_within worker limit) run in
    let freed = (release_all-held t.tasks t.worker.slots).0 in
    let used = slotted.used in
    let none_left = cancelled t slotted in
    (
      slotted.listed,
      used,
      within.0,
      ap (λ (x : Session). x.tasks) none_left,
      ap (λ (x : Session). x.worker.jobs) none_left,
      ap (λ (x : Session). x.worker.slots.in_use) none_left ∙ omega (arith, freed, used),
    )
