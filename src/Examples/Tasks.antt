-- ===== src/Examples/Tasks.antt =====
-- A worker's task from its dispatch to its commit, while the limit falls.
use chaos_harness.Common.{
  List, ℕ, Bool, true, none, max, ◌≤◌, ◌≡◌, refl, select, length, map, [], ◌∷◌,
}
use chaos_harness.Common.Int.{pos, fits_bigint}
use chaos_harness.Schema.{latest, leases_of, state_of}
use chaos_harness.Commit.{handle_commit, accepted_fence, lease_key, is_valid}
use chaos_harness.Dispatch.{claim_one}
use chaos_harness.Worker.Confirming.{rejected_frame, rejection_confirms}
use chaos_harness.Examples.Ids.{ids}
use chaos_harness.Examples.Runs.{again_db}
use chaos_harness.Json.{Json, num, str, obj, field, end}
use chaos_harness.Runtime.Gate.{ok}
use chaos_harness.Worker.{ResizableSemaphore}
use chaos_harness.Worker.Frames.{Worker, handle}
use chaos_harness.Worker.Tasks.{
  Session, task, created, waiting, working, committing, holds, new_worker, with_tasks, cancel_jobs,
  put_ack, TaskStep, TaskRun, begin, then_step,
}
use chaos_harness.Worker.Listed.{entry}
use chaos_harness.Worker.Holding.{tasks_bounded}
use chaos_harness.Examples.Inputs.{numerals, at, message, commit_env}
use chaos_harness.Examples.Sessions.{loads, sent_frame, sent_work, sent_prepared}

abbrev idle : Session
idle = new_worker "w1" (pos 2)

abbrev asked : Session
asked = record {
  worker = (handle (obj sent_frame) idle.worker).1;
  tasks = task 0 created sent_frame ∷ [];
}

abbrev queued : Session
queued = with_tasks (task 0 (waiting sent_work) sent_frame ∷ []) asked.worker

abbrev one_slot : ResizableSemaphore
one_slot = record { limit = 2; in_use = 1 }

abbrev busy : Session
busy =
    with_tasks (task 0 (working sent_work) sent_frame ∷ [])
      (record queued.worker { slots = one_slot })

-- The limit falls to 1.
abbrev lowered : Json
lowered = obj (field "type" (str "set_concurrency") (field "n" (num (pos 1)) end))

abbrev resized : Session
resized = record { worker = (handle lowered busy.worker).1; tasks = busy.tasks }

abbrev sent : Session
sent =
    with_tasks (task 0 (committing sent_work) sent_frame ∷ [])
      (record resized.worker { acks = put_ack sent_work.job_id resized.worker.acks })

task_run : TaskRun numerals loads idle (max (max (max (max (max 2 2) 2) 2) 1) 1) sent
unfolding new_worker chaos_harness.Worker.make handle chaos_harness.Worker.Frames.handle_fields
    chaos_harness.Worker.acquire chaos_harness.Worker.set_limit chaos_harness.Worker.Tasks.spawn
task_run =
    then_step
      (then_step
        (then_step
          (then_step
            (then_step begin (TaskStep.heard (obj sent_frame) (ok tt) asked.worker refl refl))
            (TaskStep.read [] [] 0 sent_frame sent_work refl sent_prepared refl))
          (TaskStep.works [] [] 0 sent_frame sent_work one_slot refl refl refl))
        (TaskStep.heard lowered (ok tt) resized.worker refl refl))
      (TaskStep.commits [] [] 0 sent_frame sent_work refl refl refl)

tasks_within :
    (sent.worker.jobs ≡ map entry sent.tasks)
    × (sent.worker.slots.in_use ≡ length (select holds sent.tasks))
    × (sent.worker.slots.in_use ≤ max (max (max (max (max 2 2) 2) 2) 1) 1)
    × ((cancel_jobs sent).tasks ≡ [])
    × ((cancel_jobs sent).worker.jobs ≡ [])
    × (◌≡◌ {A = ℕ} (cancel_jobs sent).worker.slots.in_use 0)
tasks_within =
    tasks_bounded numerals loads "w1" (pos 2) (max (max (max (max (max 2 2) 2) 2) 1) 1) sent
      task_run

-- The first lease of the job tries while the worker has the commit of the second one pending.
abbrev pending_worker : Worker
pending_worker = record sent.worker { acks = put_ack (str "j") [] }

confirmed_wrongly :
    ((handle_commit ids commit_env (message 1) (at 0 again_db)).1.conn.ws_sent
      ≡ rejected_frame "j" ∷ [])
    × (accepted_fence 0 (handle_commit ids commit_env (message 1) (at 0 again_db)).1.db.commits
        ≡ none)
    × (rest : List (Json × Bool)) × (handle (rejected_frame "j") pending_worker
        ≡ (ok tt, record pending_worker { acks = (str "j", true) ∷ rest }))
unfolding lease_key is_valid latest leases_of accepted_fence
    chaos_harness.Runtime.Gate.is_partitioned claim_one chaos_harness.Reaper.reap_one
    chaos_harness.Jobs.handle_create_job chaos_harness.Schema.id_of_key state_of fits_bigint
confirmed_wrongly =
    rejection_confirms ids commit_env (message 1) (at 0 again_db) "j" (pos 1) 0 pending_worker []
      (refl, refl) (refl, refl) (λ d. refl) refl refl refl refl refl refl
