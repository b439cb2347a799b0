-- ===== src/Worker/Resizing.antt =====
-- A change of a worker's concurrency, from coordinator/ws.py to the slots of worker/worker.py.
use chaos_harness.Common.{ℕ, String, ◌≡◌, refl, true, false, some, ◌∷◌, str_eq}
use chaos_harness.Common.Int.{ℤ, clamp_zero, is_negative}
use chaos_harness.Json.{Json, obj, num, field, end, get, get_or, find, as_str, as_obj}
use chaos_harness.Chaos.{Numerals, to_int}
use chaos_harness.Ws.Connection.{registers, first_frame, read_register}
use chaos_harness.Runtime.{ConnState}
use chaos_harness.Runtime.Gate.{ok}
use chaos_harness.Ws.{
  Hub, conn_of, hear_concurrency, concurrency_channel, concurrency_message, handle_set_concurrency,
  set_limit,
}
use chaos_harness.Ws.Registry.{lookup}
use chaos_harness.Ws.Concurrency.{concurrency_reaches}
use chaos_harness.Worker
use chaos_harness.Worker.Frames.{Worker, register_frame, handle, handle_fields}

set_limit_frame :
    (n : ℤ) (s : ConnState)
    → (frame : Json) × ((set_limit true n s).limit ≡ n)
      × ((set_limit true n s).ws_sent ≡ frame ∷ s.ws_sent)
      × (is_negative n ≡ false
          → (v : Worker)
          → handle frame v
            ≡ (ok tt, record v { concurrency = n; slots = Worker.set_limit n v.slots }))
unfolding set_limit handle handle_fields get
set_limit_frame n s = (_, refl, refl, λ h v. rw h refl)

-- The frame of _connect_once registers the worker with its id and its concurrency.
registered :
    (x : Numerals) (v : Worker)
    → first_frame x (some (obj (register_frame v))) ≡ registers v.worker_id v.concurrency
unfolding first_frame read_register register_frame to_int get_or find get as_str as_obj
registered x v = refl

-- A request to change a worker's concurrency reaches coordinator `a`, while coordinator `b` holds
-- the worker: `a` publishes a message, and changes nothing when it hears it itself; when `b` hears
-- it, and its send succeeds, the worker's ConnState has the limit. The worker that reads the frame
-- has it as the limit of its slots, with the slots in use and the jobs that run left alone, and
-- registers with it when it connects again.
pub resize_agrees :
    (a b : Hub) (worker : String) (n : ℤ) (c : ℕ) (s : ConnState) (v : Worker) (x : Numerals)
    → is_negative n ≡ false
    → lookup worker b.workers ≡ some c
    → conn_of c b.conns ≡ some s
    → str_eq a.coord_id b.coord_id ≡ false
    → ((handle_set_concurrency true true worker (some (obj (field "n" (num n) end))) a).1.published
        ≡ (concurrency_channel, obj (concurrency_message worker n a.coord_id)) ∷ a.published)
      × (hear_concurrency true (concurrency_message worker n a.coord_id) a ≡ a)
      × (t : ConnState) × (frame : Json) × (conn_of c
            (hear_concurrency true (concurrency_message worker n a.coord_id) b).conns
          ≡ some t)
      × (t.limit ≡ n)
      × (t.ws_sent ≡ frame ∷ s.ws_sent)
      × ((handle frame v).0 ≡ ok tt)
      × ((handle frame v).1.slots.limit ≡ clamp_zero n)
      × ((handle frame v).1.slots.in_use ≡ v.slots.in_use)
      × ((handle frame v).1.jobs ≡ v.jobs)
      × (first_frame x (some (obj (register_frame (handle frame v).1))) ≡ registers v.worker_id n)
unfolding Worker.set_limit
resize_agrees a b worker n c s v x natural held found other =
    let (frame, limit, sent, read) = set_limit_frame n s in
    let got = read natural v in
    let (published, applied, unheard) =
      concurrency_reaches a b true worker n c s natural held found other in
    (
      published,
      unheard,
      set_limit true n s,
      frame,
      applied,
      limit,
      sent,
      rw got refl,
      rw got refl,
      rw got refl,
      rw got refl,
      rw got (registered x (record v { concurrency = n; slots = Worker.set_limit n v.slots })),
    )
