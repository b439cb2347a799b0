-- ===== src/Worker/Slotted.antt =====
-- The slots of worker/worker.py beside its tasks: what holds between its steps, and what a frame, a
-- task that gets a slot, and _cancel_jobs make of it.
use chaos_harness.Common.{
  ℕ, suc, ◌+◌, ◌≤◌, max, String, ◌≡◌, refl, sym, ap, ◌∙◌, subst, inl, inr, not, some, List, [], map,
  arith, select, ltb, Bool-cases, Option-cases,
}
use chaos_harness.Common.Int.{ℤ}
use chaos_harness.Json.{Json, Fields, as_obj}
use chaos_harness.Worker.{ResizableSemaphore, make, acquire, set_limit}
use chaos_harness.Worker.Frames.{Worker, handle, handle_fields}
use chaos_harness.Worker.Held.{held}
use chaos_harness.Worker.Tasks.{
  Task, Session, new_worker, with_tasks, release_all, discard_all, is_listed, cancel_jobs, drop_all,
}
use chaos_harness.Worker.Listed.{entry, IsFalling, all_cancelled, all_discarded}

-- A frame takes no slot and gives none back.
fields_used : (m : Fields) (w : Worker) → (handle_fields m w).1.slots.in_use ≡ w.slots.in_use
unfolding handle_fields set_limit
fields_used m w = ground arith

pub handle_used : (frame : Json) (w : Worker) → (handle frame w).1.slots.in_use ≡ w.slots.in_use
unfolding handle
handle_used frame w = elim (Option-cases (as_obj frame)) [
  | inl q ↦ rw (q, handle) refl
  | inr (m, q) ↦ rw (q, handle) (fields_used m w)
]

-- `_jobs` has the tasks, under numbers that fall from the next one, and each slot in use is held by
-- one of them.
pub record IsSlotted (s : Session) : Type 0 where
  pub listed : s.worker.jobs ≡ map entry s.tasks
  pub falling : IsFalling s.worker.made s.worker.jobs
  pub used : s.worker.slots.in_use ≡ held s.tasks

pub new_worker-IsSlotted : (worker : String) (n : ℤ) → IsSlotted (new_worker worker n)
unfolding new_worker make held select
new_worker-IsSlotted worker n = record { listed = refl; falling = tt; used = refl }

pub new_worker_within :
    (worker : String) (n : ℤ)
    → (new_worker worker n).worker.slots.in_use ≤ (new_worker worker n).worker.slots.limit
unfolding new_worker make
new_worker_within worker n = omega arith

-- The slots in use after a step are those that the tasks hold; a new one is within the limit.
abbrev pub IsWithin : ℕ → Session → Type 0
IsWithin b s = (s.worker.slots.in_use ≤ b) × (s.worker.slots.limit ≤ b)

pub acquired :
    (s t : ResizableSemaphore)
    → acquire s ≡ some t
    → (t.in_use ≡ suc s.in_use) × (t.limit ≡ s.limit) × (t.in_use ≤ t.limit)
unfolding acquire
acquired s t h = elim (Bool-cases (ltb s.in_use s.limit)) [
  | inl e ↦
      let same : some (record s { in_use = s.in_use + 1 }) ≡ some t = (rw (e, acquire) at h) in
      let used : s.in_use + 1 ≡ t.in_use = cc in
      let kept : s.limit ≡ t.limit = cc in (omega arith, sym kept, ground arith)
  | inr e ↦ absurd (ground arith)
]

-- After a step that leaves the limit and the count of tasks as they were.
pub kept :
    (b : ℕ) (s : Session) (ts : List Task) (w : Worker)
    → IsWithin b s
    → w.slots.limit ≡ s.worker.slots.limit
    → w.jobs ≡ map entry ts
    → IsFalling w.made w.jobs
    → w.slots.in_use ≡ held ts
    → (w.slots.in_use ≤ s.worker.slots.in_use)
    → IsSlotted (with_tasks ts w) × IsWithin (max b w.slots.limit) (with_tasks ts w)
kept b s ts w within limit listed falling used less =
    (record { listed = listed; falling = falling; used = used }, (omega arith, omega arith))

-- When `_jobs` has just the tasks, _cancel_jobs leaves none of them.
pub cancelled :
    (s : Session)
    → IsSlotted s
    → cancel_jobs s
      ≡ with_tasks [] (record s.worker {
        slots = release_all s.tasks s.worker.slots;
        jobs = [];
        acks = drop_all s.tasks s.worker.acks;
      })
unfolding cancel_jobs
cancelled s h =
    let (all, left) =
      subst
        (λ js.
          (select (is_listed js) s.tasks ≡ s.tasks)
          × (select (λ t. not (is_listed js t)) s.tasks ≡ []))
        (sym h.listed) (all_cancelled s.tasks) in
    let emptied : discard_all s.tasks s.worker.jobs ≡ [] =
      ap (discard_all s.tasks) h.listed
      ∙ all_discarded s.worker.made s.tasks (subst (IsFalling s.worker.made) h.listed h.falling) in
    rw (all, left, cancel_jobs, emptied) refl
