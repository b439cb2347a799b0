-- ===== src/Worker/Frames.antt =====
-- `Worker` of worker/worker.py: its state, `_handle`, and the reading of frames in `_read_loop`.
use chaos_harness.Common.{
  ℕ, suc, String, Bool, true, false, ◌||◌, Option, none, some, List, [], ◌∷◌, str_eq, if◌then◌else◌,
}
use chaos_harness.Common.Int.{ℤ, int_eq, is_negative}
use chaos_harness.Json.{
  num, field, end, Json, Fields, null, str, real, arr, obj, get, as_int, as_obj, as_str,
}
use chaos_harness.Runtime.Gate.{Result, ok, raise, other_error}
use chaos_harness.Worker.{ResizableSemaphore, set_limit}

-- `made` counts the tasks that `asyncio.create_task` has made, and numbers the next one. `_jobs` holds
-- tasks, the newest first, each by its number and with the data that it was made with; `_acks` a flag for each commit
-- that waits, under its job's id.
pub record Worker : Type 0 where
  pub worker_id : String
  pub concurrency : ℤ
  pub slots : ResizableSemaphore
  pub made : ℕ
  pub jobs : List (ℕ × Fields)
  pub acks : List (Json × Bool)

-- The frame with which _connect_once registers.
unfoldable pub register_frame : Worker → Fields
register_frame w =
    field "type" (str "register")
      (field "worker_id" (str w.worker_id) (field "concurrency" (num w.concurrency) end))

-- The equality of two keys of a dict. A float is kept as its text and equals only itself.
unfoldable pub key_eq : Json → Json → Bool
key_eq null null = true
key_eq (str a) (str b) = str_eq a b
key_eq (real a) (real b) = str_eq a b
key_eq a b = elim (as_int a) [
  | none ↦ false
  | some m ↦ elim (as_int b) [ none ↦ false | some n ↦ int_eq m n ]
]

-- A list or a dict is no key: `_acks.get` raises.
unfoldable pub is_key : Json → Bool
is_key (arr _) = false
is_key (obj _) = false
is_key _ = true

-- `ev = self._acks.get(job_id); if ev is not None: ev.set()`
unfoldable pub set_event : Json → List (Json × Bool) → List (Json × Bool)
unfolding key_eq
set_event id [] = []
set_event id ((k, b) ∷ rest) = (k, b || key_eq k id) ∷ set_event id rest

-- Is a text one of the two confirmations?
abbrev is_confirmation : String → Bool
is_confirmation t = str_eq t "ack" || str_eq t "commit_rejected"

-- _handle on the fields of a frame. A new task is only created.
unfoldable pub handle_fields : Fields → Worker → Result (Unit {0}) × Worker
unfolding get as_str as_int set_limit set_event is_key
handle_fields m w = elim (as_str (get "type" m)) [
  | none ↦ (ok tt, w)
  | some t ↦
      if str_eq t "dispatch"
      then (ok tt, record w { made = suc w.made; jobs = (w.made, m) ∷ w.jobs })
      else if is_confirmation t
      then if is_key (get "job_id" m)
        then (ok tt, record w { acks = set_event (get "job_id" m) w.acks })
        else (raise other_error, w)
      else if str_eq t "set_concurrency"
      then elim (as_int (get "n" m)) [
        | none ↦ (ok tt, w)
        | some n ↦
            if is_negative n
            then (ok tt, w)
            else (ok tt, record w { concurrency = n; slots = set_limit n w.slots })
      ]
      else (ok tt, w)
]

-- `data.get` raises on what is no dict.
unfoldable pub handle : Json → Worker → Result (Unit {0}) × Worker
unfolding handle_fields as_obj
handle frame w = elim (as_obj frame) [ none ↦ (raise other_error, w) | some m ↦ handle_fields m w ]

-- What `async for` gives _read_loop: a text with what `json.loads` makes of it, a frame that ends
-- the loop, or one that it skips.
pub data WsMessage : Type 0 where
  text : Option Json → WsMessage
  closed other : WsMessage

-- _read_loop; the frames end with the connection.
read_loop : List WsMessage → Worker → Result (Unit {0}) × Worker
unfolding handle
read_loop [] w = (ok tt, w)
read_loop (closed ∷ ms) w = (ok tt, w)
read_loop (other ∷ ms) w = read_loop ms w
read_loop (text none ∷ ms) w = read_loop ms w
read_loop (text (some frame) ∷ ms) w =
    let (r, w') = handle frame w in elim r [ ok _ ↦ read_loop ms w' | raise x ↦ (raise x, w') ]
