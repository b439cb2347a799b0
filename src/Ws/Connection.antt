-- ===== src/Ws/Connection.antt =====
-- handle_ws of coordinator/ws.py: the first frame, the messages after it, and the end of a
-- connection, however it ends.
use chaos_harness.Common.{ℕ, suc, String, Option, none, some, List, [], ◌∷◌, str_eq, if◌then◌else◌}
use chaos_harness.Common.Int.{ℤ, pos}
use chaos_harness.Json.{Json, Fields, num, find, get, get_or, as_obj, as_str}
use chaos_harness.Runtime.{ConnState, World, PgText}
use chaos_harness.Runtime.Gate.{ok, raise}
use chaos_harness.Chaos.{Numerals, to_int}
use chaos_harness.Commit.{CommitEnv}
use chaos_harness.Ws.{Hub, register, disconnect, route, change_conn}

-- What the first frame comes to: a worker registers; the connection ends before it has a state; or
-- the id is no text, which the code allows and this model does not follow.
pub data Opening : Type 0 where
  registers : String → ℤ → Opening
  ends : Opening
  other_id : Json → Opening

-- `first["worker_id"]` and `int(first.get("concurrency", 1))`, each of which may raise.
unfoldable pub read_register : Numerals → Fields → Opening
unfolding find get_or as_str to_int
read_register s m = elim (find "worker_id" m) [
  | none ↦ ends
  | some id ↦ elim (to_int s (get_or "concurrency" m (num (pos 1)))) [
    | none ↦ ends
    | some limit ↦ elim (as_str id) [ none ↦ other_id id | some worker ↦ registers worker limit ]
  ]
]

-- The first frame, `none` where `receive_json` raises.
unfoldable pub first_frame : Numerals → Option Json → Opening
unfolding read_register get as_str as_obj
first_frame s none = ends
first_frame s (some json) = elim (as_obj json) [
  | none ↦ ends
  | some m ↦ elim (as_str (get "type" m)) [
    | none ↦ ends
    | some t ↦ if str_eq t "register" then read_register s m else ends
  ]
]

-- A message of the loop: a text, with what `msg.json()` makes of it (`none` where it raises), one
-- that breaks the loop (CLOSE, CLOSING, ERROR), or one that it passes over.
pub data Message : Type 0 where
  text : Option Json → Message
  closing other : Message

-- What the k-th message meets, and what other tasks do before it.
pub record ServeEnv : Type 0 where
  pub commits : ℕ → CommitEnv
  pub between : ℕ → World → World

-- The loop. An exception ends it, and is only logged.
unfoldable pub serve : PgText → ServeEnv → ℕ → List Message → World → World
unfolding route as_obj
serve u e k [] w = w
serve u e k (closing ∷ ms) w = e.between k w
serve u e k (other ∷ ms) w = serve u e (suc k) ms (e.between k w)
serve u e k (text none ∷ ms) w = e.between k w
serve u e k (text (some json) ∷ ms) w = elim (as_obj json) [
  | none ↦ e.between k w
  | some m ↦
      let (r, w') = route u (e.commits k) m (e.between k w) in
      elim r [ raise x ↦ w' | ok _ ↦ serve u e (suc k) ms w' ]
]

-- handle_ws from what the first frame came to, for the connection c. `meanwhile` is what other
-- connections do to the registry while this one is served.
unfoldable pub after_first :
    PgText → ServeEnv → (Hub → Hub) → ℕ → List Message → Opening → Hub × World → Hub × World
unfolding serve register disconnect change_conn
after_first u e meanwhile c ms ends hw = hw
after_first u e meanwhile c ms (other_id id) hw = hw
after_first u e meanwhile c ms (registers worker limit) (h, w) =
    let state : ConnState = record {
      worker_id = worker;
      limit = limit;
      inflight = [];
      ws_sent = [];
    } in
    let w' = serve u e 0 ms (record w { conn = state }) in
    let h' = meanwhile (register c worker limit h) in
    (disconnect c (record h' { conns = change_conn c (λ _. w'.conn) h'.conns }), w')

unfoldable pub handle_ws :
    PgText
    → Numerals
    → ServeEnv
    → (Hub → Hub)
    → ℕ
    → Option Json
    → List Message
    → Hub × World
    → Hub × World
unfolding first_frame after_first
handle_ws u s e meanwhile c first ms hw = after_first u e meanwhile c ms (first_frame s first) hw
