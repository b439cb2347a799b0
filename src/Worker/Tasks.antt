-- ===== src/Worker/Tasks.antt =====
-- The tasks of `_execute` in worker/worker.py as a state machine: each waits for a slot, holds it
-- while it works and commits, gives it back however it ends, and is then taken out of `_jobs` by its
-- done callback; `_cancel_jobs` cancels those in `_jobs`.
use chaos_harness.Common.{
  ℕ, max, String, ◌≡◌, Bool, true, false, not, ◌==◌, Option, none, some, List, [], ◌∷◌, ◌++◌,
  select, exists, str_eq, if◌then◌else◌,
}
use chaos_harness.Common.Int.{ℤ}
use chaos_harness.Json.{Json, Fields, get, as_obj, as_str}
use chaos_harness.Chaos.{Numerals}
use chaos_harness.Runtime.Gate.{Result, Exc, ok, raise}
use chaos_harness.Worker.{ResizableSemaphore, make, acquire, release}
use chaos_harness.Worker.Frames.{Worker, handle, is_key, key_eq}
use chaos_harness.Worker.Execution.{Work, prepare}

-- Where a task is: created, waiting for a slot, working, waiting for the confirmation of its commit,
-- or ended, its done callback being still to run.
pub data Phase : Type 0 where
  created ended : Phase
  waiting working committing : Work → Phase

pub record Task : Type 0 where
  pub number : ℕ
  pub frame : Fields
  pub phase : Phase

-- A worker with one connection, and the tasks that the event loop has.
pub record Session : Type 0 where
  pub worker : Worker
  pub tasks : List Task

-- Worker.__init__.
unfoldable pub new_worker : String → ℤ → Session
unfolding make
new_worker worker n = record {
  worker = record {
    worker_id = worker;
    concurrency = n;
    slots = make n;
    made = 0;
    jobs = [];
    acks = [];
  };
  tasks = [];
}

abbrev pub task : ℕ → Phase → Fields → Task
task i p m = record { number = i; frame = m; phase = p }

-- `asyncio.create_task(self._execute(ws, data))`: the task that a frame makes.
unfoldable pub spawn : Json → Worker → List Task
unfolding get as_str as_obj
spawn frame w = elim (as_obj frame) [
  | none ↦ []
  | some m ↦ elim (as_str (get "type" m)) [
    | none ↦ []
    | some t ↦ if str_eq t "dispatch" then task w.made created m ∷ [] else []
  ]
]

-- The done callback: `self._jobs.discard`.
unfoldable pub discard : ℕ → List (ℕ × Fields) → List (ℕ × Fields)
unfolding select
discard i = select (λ (j : ℕ × Fields). not (j.0 == i))

-- Does the task hold a slot?
unfoldable pub holds : Task → Bool
holds t = elim t.phase [
  | created ↦ false
  | ended ↦ false
  | waiting _ ↦ false
  | working _ ↦ true
  | committing _ ↦ true
]

-- `self._acks.pop(job_id, None)`, and `self._acks[job_id] = ev`.
unfoldable pub drop_ack : Json → List (Json × Bool) → List (Json × Bool)
unfolding select
drop_ack id = select (λ (a : Json × Bool). not (key_eq a.0 id))

unfoldable pub put_ack : Json → List (Json × Bool) → List (Json × Bool)
unfolding drop_ack
put_ack id acks = (id, false) ∷ drop_ack id acks

abbrev pub with_tasks : List Task → Worker → Session
with_tasks ts w = record { worker = w; tasks = ts }

-- Each task that holds a slot gives it back.
unfoldable pub release_all : List Task → ResizableSemaphore → ResizableSemaphore
unfolding release holds
release_all [] s = s
release_all (t ∷ ts) s = let rest = release_all ts s in if holds t then release rest else rest

-- A committing task drops its flag when it is cancelled.
pub drop_all : List Task → List (Json × Bool) → List (Json × Bool)
unfolding drop_ack
drop_all [] acks = acks
drop_all (t ∷ ts) acks =
    let rest = drop_all ts acks in elim t.phase [ committing p ↦ drop_ack p.job_id rest | _ ↦ rest ]

-- The done callbacks of some tasks, one after the other.
unfoldable pub discard_all : List Task → List (ℕ × Fields) → List (ℕ × Fields)
unfolding discard
discard_all [] js = js
discard_all (t ∷ ts) js = discard_all ts (discard t.number js)

-- Is the task in `_jobs`?
unfoldable pub is_listed : List (ℕ × Fields) → Task → Bool
unfolding exists
is_listed js t = exists (λ (j : ℕ × Fields). j.0 == t.number) js

-- _cancel_jobs, when the connection has ended: the tasks in `_jobs` are cancelled, and `gather`
-- waits until they have ended. A task that is not in `_jobs` goes on.
unfoldable pub cancel_jobs : Session → Session
unfolding release_all drop_all discard_all is_listed select
cancel_jobs s =
    let cancelled = select (is_listed s.worker.jobs) s.tasks in
    record {
      worker = record s.worker {
        slots = release_all cancelled s.worker.slots;
        jobs = discard_all cancelled s.worker.jobs;
        acks = drop_all cancelled s.worker.acks;
      };
      tasks = select (λ t. not (is_listed s.worker.jobs t)) s.tasks;
    }

module _ (n : Numerals) (loads : String → Option Json) where
  -- One step of a worker's session.
  pub data TaskStep (s t : Session) : Type 0 where
    -- A frame is handled, which may create a task.
    heard :
        (frame : Json) (r : Result (Unit {0})) (w : Worker)
        → handle frame s.worker ≡ (r, w)
        → t ≡ with_tasks (spawn frame s.worker ++ s.tasks) w
        → TaskStep s t
    -- A task reads its frame, which may fail.
    read :
        (before after : List Task) (i : ℕ) (m : Fields) (p : Work)
        → s.tasks ≡ before ++ task i created m ∷ after
        → prepare n loads m ≡ ok p
        → t ≡ with_tasks (before ++ task i (waiting p) m ∷ after) s.worker
        → TaskStep s t
    failed :
        (before after : List Task) (i : ℕ) (m : Fields) (x : Exc)
        → s.tasks ≡ before ++ task i created m ∷ after
        → prepare n loads m ≡ raise x
        → t ≡ with_tasks (before ++ task i ended m ∷ after) s.worker
        → TaskStep s t
    -- It gets a slot, and goes to work.
    works :
        (before after : List Task) (i : ℕ) (m : Fields) (p : Work) (slots : ResizableSemaphore)
        → s.tasks ≡ before ++ task i (waiting p) m ∷ after
        → acquire s.worker.slots ≡ some slots
        → t
          ≡ with_tasks (before ++ task i (working p) m ∷ after) (record s.worker { slots = slots })
        → TaskStep s t
    -- It starts to commit.
    commits :
        (before after : List Task) (i : ℕ) (m : Fields) (p : Work)
        → s.tasks ≡ before ++ task i (working p) m ∷ after
        → is_key p.job_id ≡ true
        → t
          ≡ with_tasks
              (before ++ task i (committing p) m ∷ after)
              (record s.worker { acks = put_ack p.job_id s.worker.acks })
        → TaskStep s t
    -- A job id that is no key breaks it off.
    breaks :
        (before after : List Task) (i : ℕ) (m : Fields) (p : Work)
        → s.tasks ≡ before ++ task i (working p) m ∷ after
        → is_key p.job_id ≡ false
        → t
          ≡ with_tasks
              (before ++ task i ended m ∷ after)
              (record s.worker { slots = release s.worker.slots })
        → TaskStep s t
    -- It is done, confirmed or not.
    ends :
        (before after : List Task) (i : ℕ) (m : Fields) (p : Work)
        → s.tasks ≡ before ++ task i (committing p) m ∷ after
        → t
          ≡ with_tasks (before ++ task i ended m ∷ after) (record s.worker {
            slots = release s.worker.slots;
            acks = drop_ack p.job_id s.worker.acks;
          })
        → TaskStep s t
    -- The done callback of a task runs.
    called_back :
        (before after : List Task) (i : ℕ) (m : Fields)
        → s.tasks ≡ before ++ task i ended m ∷ after
        → t ≡ with_tasks (before ++ after) (record s.worker { jobs = discard i s.worker.jobs })
        → TaskStep s t
    -- The connection ends.
    disconnected : t ≡ cancel_jobs s → TaskStep s t

  -- A run, with the largest limit that was in force on the way.
  pub data TaskRun (s : Session) : ℕ → Session → Type 0 where
    begin : TaskRun s s.worker.slots.limit s
    then_step :
        {b : ℕ} {t v : Session}
        → TaskRun s b t
        → TaskStep t v
        → TaskRun s (max b v.worker.slots.limit) v
