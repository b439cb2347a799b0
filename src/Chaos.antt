-- ===== src/Chaos.antt =====
-- coordinator/chaos.py: the faults that POST /chaos injects, and those that peers broadcast.
pub mod Faults
use Prim.Native.String.{◌++◌ as text_append}
use chaos_harness.Common.{
  ℕ, ◌+◌, ◌*◌, ◌-◌, suc, String, Bool, true, false, ◌||◌, Option, none, some, List, ◌∷◌, str_eq,
  if◌then◌else◌,
}
use chaos_harness.Common.Int.{ℤ, pos, negsuc, clamp_zero}
use chaos_harness.Json.{
  Json, Fields, null, bool, num, real, str, arr, obj, field, end, get, get_or, as_str, as_obj,
  truthy,
}
use chaos_harness.Runtime.{App, World, publish}
use chaos_harness.Runtime.Gate.{Exc, Result, ok, raise, other_error, partition}
use chaos_harness.Http.{Response, failure}

-- Python's `int` on a text and on a float, `none` where it raises.
pub record Numerals : Type 0 where
  pub int_of_text : String → Option ℤ
  pub int_of_real : String → Option ℤ

-- `int(v)`.
unfoldable pub to_int : Numerals → Json → Option ℤ
to_int s (num n) = some n
to_int s (bool true) = some (pos 1)
to_int s (bool false) = some (pos 0)
to_int s (str t) = s.int_of_text t
to_int s (real x) = s.int_of_real x
to_int s _ = none

abbrev pub chaos_channel : String
chaos_channel = "chaos:faults"

-- The two sets of names.
pub is_broadcast : String → Bool
is_broadcast fault = str_eq fault "pause_dispatch" || str_eq fault "drop_acks"

is_fault : String → Bool
unfolding is_broadcast
is_fault fault = is_broadcast fault || (str_eq fault "partition_db" || str_eq fault "clock_skew")

-- `time.monotonic() * 1000.0 + ms`. A deadline before time 0 is 0: neither is ever ahead.
pub deadline : ℕ → ℤ → ℕ
deadline mono (pos ms) = mono + ms * 1_000_000
deadline mono (negsuc ms) = mono - suc ms * 1_000_000

-- apply_fault_local at the clock's reading `mono`: was the name known?
pub apply_fault_local : Numerals → ℕ → String → Fields → App → Result Bool × App
unfolding to_int deadline partition get_or
apply_fault_local s mono fault params app =
    if str_eq fault "pause_dispatch"
    then elim (to_int s (get_or "ms" params (num (pos 0)))) [
      | none ↦ (raise other_error, app)
      | some ms ↦ (ok true, record app { dispatch_paused_until = deadline mono ms })
    ]
    else if str_eq fault "drop_acks"
    then elim (to_int s (get_or "n" params (num (pos 0)))) [
      | none ↦ (raise other_error, app)
      | some n ↦
          (ok true, record app { drop_acks_remaining = app.drop_acks_remaining + clamp_zero n })
    ]
    else if str_eq fault "partition_db"
    then elim (to_int s (get_or "ms" params (num (pos 0)))) [
      | none ↦ (raise other_error, app)
      | some ms ↦ (ok true, record app { db_gate = partition mono (clamp_zero ms) app.db_gate })
    ]
    else if str_eq fault "clock_skew"
    then elim (to_int s (get_or "seconds" params (num (pos 0)))) [
      | none ↦ (raise other_error, app)
      | some seconds ↦ (ok true, record app { logical_clock_offset_s = seconds })
    ]
    else (ok false, app)

abbrev pub fault_message : String → Fields → String → Fields
fault_message fault params coord =
    field "fault" (str fault) (field "params" (obj params) (field "from" (str coord) end))

-- handle_chaos from the known fault on.
inject : Numerals → Bool → ℕ → String → Fields → World → Result Response × World
unfolding apply_fault_local is_broadcast publish
inject s publish_ok mono fault params w =
    let (r, app) = apply_fault_local s mono fault params w.app in
    let applied = record w { app = app } in
    elim r [
      | raise x ↦ (raise x, applied)
      | ok _ ↦ (
        ok (record {
          status = 200;
          body = obj (
              field "ok" (bool true) (field "fault" (str fault) (field "params" (obj params) end)));
        }),
        if is_broadcast fault
            then publish publish_ok chaos_channel (obj (fault_message fault params w.app.coord_id))
                applied
            else applied,
      )
    ]

-- `body.get("params") or {}`
pub params_of : Fields → Json
unfolding get truthy
params_of body = let v = get "params" body in if truthy v then v else obj end

bad_body : Response
unfolding failure
bad_body = failure 400 "body must be {fault: str, params: object}"

-- The body is `none` where `request.json()` raises.
pub handle_chaos : Numerals → Bool → ℕ → Option Json → World → Result Response × World
unfolding inject is_fault failure bad_body get as_str as_obj params_of
handle_chaos s publish_ok mono none w = (ok (failure 400 "invalid JSON body"), w)
handle_chaos s publish_ok mono (some json) w = elim (as_obj json) [
  | none ↦ (raise other_error, w)
  | some body ↦ elim (as_str (get "fault" body)) [
    | none ↦ (ok bad_body, w)
    | some fault ↦ elim (as_obj (params_of body)) [
      | none ↦ (ok bad_body, w)
      | some params ↦
          if is_fault fault
          then inject s publish_ok mono fault params w
          else (ok (failure 400 (text_append "unknown fault: " fault)), w)
    ]
  ]
]

-- chaos_subscriber on the fields of one message. An exception of the fault ends the task.
pub hear_fault : Numerals → ℕ → Fields → App → Result (Unit {0}) × App
unfolding apply_fault_local is_broadcast get as_str as_obj params_of
hear_fault s mono payload app =
    let heard : Result (Unit {0}) × App = elim (as_str (get "fault" payload)) [
      | none ↦ (ok tt, app)
      | some fault ↦ elim (as_obj (params_of payload)) [
        | none ↦ (ok tt, app)
        | some params ↦
            let (r, app') = apply_fault_local s mono fault params app in
            if is_broadcast fault
            then elim r [ raise x ↦ (raise x, app') | ok _ ↦ (ok tt, app') ]
            else (ok tt, app)
      ]
    ] in
    elim (as_str (get "from" payload)) [
      | none ↦ heard
      | some coord ↦ if str_eq coord app.coord_id then (ok tt, app) else heard
    ]
