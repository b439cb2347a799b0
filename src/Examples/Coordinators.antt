-- ===== src/Examples/Coordinators.antt =====
-- Faults, rates and concurrency on two concrete coordinators.
use chaos_harness.Worker.Frames.{Worker, register_frame, handle}
use chaos_harness.Worker.Resizing.{resize_agrees}
use chaos_harness.Ws.Connection.{first_frame, registers}
use chaos_harness.Common.{ℕ, ◌+◌, ◌≡◌, refl, some, none, true, false, [], ◌∷◌, arith, if◌then◌else◌}
use chaos_harness.Common.Int.{pos}
use chaos_harness.Json.{Json, Fields, num, obj, field, end}
use chaos_harness.Schema.{init}
use chaos_harness.Runtime.{App, ConnState, World}
use chaos_harness.Runtime.Gate.{ok}
use chaos_harness.Runtime.Rates.{window_count, incr, is_event}
use chaos_harness.Runtime.Windows.{gain, incr_counts}
use chaos_harness.Chaos.{handle_chaos, hear_fault, fault_message, chaos_channel}
use chaos_harness.Chaos.Faults.{request, drop_acks_params, drop_acks_everywhere}
use chaos_harness.Ws.{
  Hub, conn_of, register, disconnect, apply_set_concurrency, concurrency_channel,
  concurrency_message, handle_set_concurrency, hear_concurrency,
}
use chaos_harness.Ws.Registry.{lookup}
use chaos_harness.Ws.Concurrency.{reconnect_lost}
use chaos_harness.Examples.Inputs.{at, numerals}

abbrev peer : App
peer = record (at 0 init).app { coord_id = "c2" }

abbrev dropped : World
dropped =
    (handle_chaos numerals true 0 (some (request "drop_acks" (drop_acks_params 3))) (at 0 init)).1

acks_dropped :
    (dropped.app ≡ record (at 0 init).app { drop_acks_remaining = 0 + 3 })
    × (dropped.redis.published
        ≡ (chaos_channel, obj (fault_message "drop_acks" (drop_acks_params 3) "c1")) ∷ [])
    × (hear_fault numerals 7 (fault_message "drop_acks" (drop_acks_params 3) "c1") peer
        ≡ (ok tt, record peer { drop_acks_remaining = 0 + 3 }))
    × (hear_fault numerals 7 (fault_message "drop_acks" (drop_acks_params 3) "c1") dropped.app
        ≡ (ok tt, dropped.app))
acks_dropped = drop_acks_everywhere numerals 0 7 3 (at 0 init) peer refl

submitted_counted :
    (window_count true 70 "submitted" (incr true 20 "submitted" 1 ([], []))).0
    ≡ (window_count true 70 "submitted" ([], [])).0
      + (if is_event "submitted" then gain "submitted" "submitted" 70 20 1 else 0)
submitted_counted = incr_counts true 70 20 1 "submitted" "submitted" [] []

abbrev worker_state : ConnState
worker_state = record { worker_id = "w1"; limit = pos 8; inflight = []; ws_sent = [] }

abbrev hub_a : Hub
hub_a = record { coord_id = "c1"; workers = []; conns = []; published = [] }

abbrev hub_b : Hub
hub_b = record {
  coord_id = "c2";
  workers = ("w1", 1) ∷ [];
  conns = (1, worker_state) ∷ [];
  published = [];
}

abbrev reach_message : Fields
reach_message = concurrency_message "w1" (pos 2) "c1"

-- The worker of that connection, with one job that runs.
abbrev resized_worker : Worker
resized_worker = record {
  worker_id = "w1";
  concurrency = pos 8;
  slots = record { limit = 8; in_use = 1 };
  made = 1;
  jobs = (0, end) ∷ [];
  acks = [];
}

reached :
    ((handle_set_concurrency true true "w1"
        (some (obj (field "n" (num (pos 2)) end)))
        hub_a).1.published
      ≡ (concurrency_channel, obj reach_message) ∷ [])
    × (hear_concurrency true reach_message hub_a ≡ hub_a)
    × (t : ConnState) × (frame : Json) × (conn_of 1
          (hear_concurrency true reach_message hub_b).conns
        ≡ some t)
    × (t.limit ≡ pos 2)
    × (t.ws_sent ≡ frame ∷ [])
    × ((handle frame resized_worker).0 ≡ ok tt)
    × (◌≡◌ {A = ℕ} (handle frame resized_worker).1.slots.limit 2)
    × (◌≡◌ {A = ℕ} (handle frame resized_worker).1.slots.in_use 1)
    × ((handle frame resized_worker).1.jobs ≡ (0, end) ∷ [])
    × (first_frame numerals (some (obj (register_frame (handle frame resized_worker).1)))
        ≡ registers "w1" (pos 2))
unfolding lookup conn_of
reached =
    resize_agrees hub_a hub_b "w1" (pos 2) 1 worker_state resized_worker numerals refl refl refl
      refl

abbrev reconnected : Hub
reconnected = disconnect 1 (register 2 "w1" (pos 8) (register 1 "w1" (pos 8) hub_a))

lost_worker :
    (lookup "w1" reconnected.workers ≡ none)
    × (conn_of 2 reconnected.conns ≡ some worker_state)
    × ((apply_set_concurrency true "w1" (pos 4) reconnected).0 ≡ false)
lost_worker = reconnect_lost hub_a "w1" (pos 8) (pos 8) 1 2 true (pos 4) (omega arith)
