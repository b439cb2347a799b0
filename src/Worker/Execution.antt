-- ===== src/Worker/Execution.antt =====
-- `_execute`, `_run_with_heartbeats` and `_heartbeat` of worker/worker.py: the job of a dispatch
-- frame, its bounded sleep, and the frames that the worker sends for it. Readings of `loop.time()`
-- are in milliseconds.
use chaos_harness.Common.{
  ℕ, zero, suc, ◌+◌, ◌-◌, min, String, Bool, true, Option, none, some, List, [], ◌∷◌, leb,
  if◌then◌else◌,
}
use chaos_harness.Common.Int.{pos, clamp_zero}
use chaos_harness.Json.{
  Json, Fields, bool, num, str, obj, field, end, get, get_or, as_obj, as_str, truthy,
}
use chaos_harness.Chaos.{Numerals, to_int}
use chaos_harness.Runtime.Gate.{Result, ok, raise, other_error}

-- What _execute reads of a dispatch frame.
pub record Work : Type 0 where
  pub job_id : Json
  pub fence : Json
  pub sleep_ms : ℕ

-- The payload as a dict: a text is decoded, and what is no dict counts as an empty one. `loads` is
-- json.loads, `none` where it raises JSONDecodeError.
payload_of : (String → Option Json) → Fields → Fields
unfolding get as_obj as_str truthy
payload_of loads m =
    let given = get "payload" m in
    let value : Json = if truthy given then given else obj end in
    let decoded : Json = elim (as_str value) [
      | none ↦ value
      | some t ↦ elim (loads t) [ none ↦ obj end | some v ↦ v ]
    ] in
    elim (as_obj decoded) [ none ↦ end | some fields ↦ fields ]

-- `int(payload.get("sleep_ms", 0))` may raise; the sleep is clamped to 0 … 60000.
unfoldable pub prepare : Numerals → (String → Option Json) → Fields → Result Work
unfolding payload_of to_int get_or get
prepare s loads m = elim (to_int s (get_or "sleep_ms" (payload_of loads m) (num (pos 0)))) [
  | none ↦ raise other_error
  | some n ↦ ok (record {
    job_id = get "job_id" m;
    fence = get "fence" m;
    sleep_ms = min (clamp_zero n) 60000;
  })
]

abbrev heartbeat_frame : Work → Fields
heartbeat_frame p =
    field "type" (str "heartbeat") (field "job_id" p.job_id (field "fence" p.fence end))

abbrev pub result_of : String → Work → Json
result_of worker p = obj (
    field "ok" (bool true)
      (field "worker" (str worker) (field "slept_ms" (num (pos p.sleep_ms)) end)))

abbrev pub commit_frame : String → Work → Fields
commit_frame worker p =
    field "type" (str "commit")
      (field "job_id" p.job_id (field "fence" p.fence (field "result" (result_of worker p) end)))

abbrev pub heartbeat_interval_ms : ℕ
heartbeat_interval_ms = 3000

-- One round of the loop: by how much the sleep is longer than asked for, whether the heartbeat after
-- it is sent, and how long that takes.
pub record Beat : Type 0 where
  pub over : ℕ
  pub sent : Bool
  pub spent : ℕ

-- How the loop of _run_with_heartbeats ends, with the clock: at its deadline, or at a heartbeat that
-- cannot be sent.
pub data BeatsEnd : Type 0 where
  slept send_failed : ℕ → BeatsEnd

abbrev pub and_beat : ℕ → Option (List ℕ × BeatsEnd) → Option (List ℕ × BeatsEnd)
and_beat t none = none
and_beat t (some (ts, stop)) = some (t ∷ ts, stop)

-- The clock after `asyncio.sleep(min(_HEARTBEAT_INTERVAL_S, remaining))`.
abbrev pub woken : ℕ → ℕ → ℕ → ℕ
woken deadline now over = now + min heartbeat_interval_ms (deadline - now) + over

-- The times of the heartbeats that are sent, from the k-th round on, in order; `none` where the
-- fuel runs out.
unfoldable pub beats : (ℕ → Beat) → ℕ → ℕ → ℕ → ℕ → Option (List ℕ × BeatsEnd)
beats b deadline zero k now = none
beats b deadline (suc fuel) k now =
    let r = b k in
    let after = woken deadline now r.over in
    let later = beats b deadline fuel (suc k) (after + r.spent) in
    if leb deadline now
    then some ([], slept now)
    else if leb deadline after
    then some ([], slept after)
    else if r.sent
    then and_beat after later
    else some ([], send_failed after)

-- _run_with_heartbeats: one heartbeat at the start, then the loop.
unfoldable pub run_with_heartbeats : Beat → ℕ → ℕ → (ℕ → Beat) → ℕ → Option (List ℕ × BeatsEnd)
unfolding beats
run_with_heartbeats first start duration b fuel =
    let loop = beats b (start + duration) fuel 0 (start + first.spent) in
    if first.sent then and_beat start loop else some ([], send_failed start)
