-- ===== src/Ws.antt =====
-- coordinator/ws.py: the registry of connected workers, a connection's start and end, messages from
-- workers, and the change of a worker's concurrency. A connection is known by a number, which stands
-- for the identity of its ConnState object.
pub mod Registry
pub mod Concurrency
pub mod Connection
pub mod Routes
pub mod Sessions
use chaos_harness.Common.{
  ℕ, String, Bool, true, false, Option, none, some, List, [], ◌∷◌, ◌==◌, str_eq, if◌then◌else◌,
}
use chaos_harness.Common.Int.{ℤ, is_negative}
use chaos_harness.Json.{Json, Fields, bool, num, str, obj, field, end, get, as_int, as_obj, as_str}
use chaos_harness.Runtime.{ConnState, World, PgText}
use chaos_harness.Runtime.Gate.{Exc, Result, ok, raise, db_partitioned, other_error}
use chaos_harness.Http.{Response, failure}
use chaos_harness.Commit.{CommitEnv, handle_commit, handle_heartbeat}
use Registry.{WorkerRegistry, add, remove, lookup}

-- One coordinator's `app["workers"]`, its open connections, and what it publishes, newest first.
pub record Hub : Type 0 where
  pub coord_id : String
  pub workers : WorkerRegistry
  pub conns : List (ℕ × ConnState)
  pub published : List (String × Json)

-- The ConnState of a connection.
unfoldable pub conn_of : ℕ → List (ℕ × ConnState) → Option ConnState
conn_of c [] = none
conn_of c ((d, s) ∷ rest) = let later = conn_of c rest in if d == c then some s else later

unfoldable pub change_conn :
    ℕ → (ConnState → ConnState) → List (ℕ × ConnState) → List (ℕ × ConnState)
change_conn c f [] = []
change_conn c f ((d, s) ∷ rest) = (d, if d == c then f s else s) ∷ change_conn c f rest

-- handle_ws from a valid first frame on: `state = ConnState(ws, worker_id, limit)`.
pub register : ℕ → String → ℤ → Hub → Hub
unfolding add
register c worker limit h = record h {
  workers = add worker c h.workers;
  conns = (c, record { worker_id = worker; limit = limit; inflight = []; ws_sent = [] }) ∷ h.conns;
}

-- handle_ws at its end, `finally: registry.remove(state.worker_id)`.
pub disconnect : ℕ → Hub → Hub
unfolding remove conn_of
disconnect c h = elim (conn_of c h.conns) [
  | none ↦ h
  | some s ↦ record h { workers = remove s.worker_id h.workers }
]

-- `state.limit = n`, and the frame, which a dying socket loses.
unfoldable pub set_limit : Bool → ℤ → ConnState → ConnState
set_limit sent n s =
    let changed = record s { limit = n } in
    if sent
    then record changed {
      ws_sent =
          obj (field "type" (str "set_concurrency") (field "n" (num n) end)) ∷ changed.ws_sent;
    }
    else changed

-- apply_set_concurrency: does this coordinator hold the worker?
pub apply_set_concurrency : Bool → String → ℤ → Hub → Bool × Hub
unfolding lookup set_limit change_conn
apply_set_concurrency sent worker n h = elim (lookup worker h.workers) [
  | none ↦ (false, h)
  | some c ↦ (true, record h { conns = change_conn c (set_limit sent n) h.conns })
]

abbrev pub concurrency_channel : String
concurrency_channel = "workers:concurrency"

abbrev pub concurrency_message : String → ℤ → String → Fields
concurrency_message worker n coord =
    (field "worker_id" (str worker) (field "n" (num n) (field "from" (str coord) end)))

-- handle_set_concurrency below its checks. A Python bool is written as the integer that it equals.
set_and_tell : Bool → Bool → String → ℤ → Hub → Response × Hub
unfolding apply_set_concurrency
set_and_tell sent told worker n h =
    let (local, h') = apply_set_concurrency sent worker n h in
    (
      record {
        status = 200;
        body = obj (
            field "ok" (bool true) (
              field "worker_id" (str worker) (field "n" (num n) (field "local" (bool local) end))));
      },
      if told
          then record h' {
            published =
                (concurrency_channel, obj (concurrency_message worker n h.coord_id)) ∷ h'.published;
          }
          else h',
    )

refuse_n : Response
unfolding failure
refuse_n = failure 400 "n is required and must be a non-negative integer"

-- The body is `none` where `request.json()` raises.
pub handle_set_concurrency : Bool → Bool → String → Option Json → Hub → Result Response × Hub
unfolding set_and_tell failure get as_int as_obj refuse_n
handle_set_concurrency sent told worker none h = (ok (failure 400 "invalid JSON body"), h)
handle_set_concurrency sent told worker (some json) h = elim (as_obj json) [
  | none ↦ (raise other_error, h)
  | some body ↦ elim (as_int (get "n" body)) [
    | none ↦ (ok refuse_n, h)
    | some n ↦
        if is_negative n
        then (ok refuse_n, h)
        else (let (r, h') = set_and_tell sent told worker n h in (ok r, h'))
  ]
]

-- concurrency_subscriber on the fields of one message.
pub hear_concurrency : Bool → Fields → Hub → Hub
unfolding apply_set_concurrency get as_int as_str
hear_concurrency sent payload h =
    let heard : Hub = elim (as_str (get "worker_id" payload)) [
      | none ↦ h
      | some worker ↦ elim (as_int (get "n" payload)) [
        | none ↦ h
        | some n ↦ if is_negative n then h else (apply_set_concurrency sent worker n h).1
      ]
    ] in
    elim (as_str (get "from" payload)) [
      | none ↦ heard
      | some coord ↦ if str_eq coord h.coord_id then h else heard
    ]

-- `except DBPartitioned` of _route: any other exception leaves it.
drop_partitioned : Result (Unit {0}) × World → Result (Unit {0}) × World
drop_partitioned (raise db_partitioned, w) = (ok tt, w)
drop_partitioned r = r

-- _route. `text` is the message's type, if it is a text.
pub route : PgText → CommitEnv → Fields → World → Result (Unit {0}) × World
unfolding handle_commit handle_heartbeat drop_partitioned get as_str
route u e m w = elim (as_str (get "type" m)) [
  | none ↦ (ok tt, w)
  | some text ↦
      let committed = drop_partitioned (handle_commit u e m w) in
      let renewed = drop_partitioned (handle_heartbeat u e.mono e.now m w) in
      if str_eq text "commit"
      then committed
      else (if str_eq text "heartbeat" then renewed else (ok tt, w))
]
