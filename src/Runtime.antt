-- ===== src/Runtime.antt =====
-- The state of one coordinator process and what its handlers act on: coordinator/db.py (the gate),
-- ConnState of coordinator/ws.py, the entries of `app` in coordinator/app.py, and the outcome of a
-- handler. Readings of `time.monotonic()` are in nanoseconds.
pub mod Gate
pub mod Rates
pub mod Windows
use chaos_harness.Common.{
  ℕ, ◌+◌, String, Bool, true, false, Option, none, some, List, [], ◌∷◌, ◌≡◌, str_eq, not,
  if◌then◌else◌, select, exists, length,
}
use chaos_harness.Common.Int.{ℤ}
use chaos_harness.Json.{Json, Fields, str, obj, field, end}
use chaos_harness.Schema.{Db}
use Gate.{Database}
use Rates.{Buckets, incr}

-- ConnState: one worker's socket. `ws_sent` holds the frames sent on it, the newest first.
pub record ConnState : Type 0 where
  pub worker_id : String
  pub limit : ℤ
  pub inflight : List String
  pub ws_sent : List Json

-- What the handlers keep in `app`, `app["dispatcher"]` and `app["reaper"]`.
pub record App : Type 0 where
  pub coord_id : String
  pub lease_ttl_ms : ℕ
  pub db_gate : Database
  pub drop_acks_remaining : ℕ
  pub logical_clock_offset_s : ℤ
  pub dispatch_paused_until : ℕ
  pub wake : Bool
  pub max_rels_latency_ms : ℕ
  pub rates_mem : Buckets

-- The Redis server: the rate buckets, and the messages published, the newest first.
pub record Redis : Type 0 where
  pub buckets : Buckets
  pub published : List (String × Json)

-- One coordinator, a connection of its, Redis and the database.
pub record World : Type 0 where
  pub app : App
  pub conn : ConnState
  pub redis : Redis
  pub db : Db

-- `await app["rates"].incr(event)` at the wall-clock second `sec`.
unfoldable pub count : Bool → ℕ → String → World → World
unfolding incr
count redis_ok sec event w =
    let (shared, mem) = incr redis_ok sec event 1 (w.redis.buckets, w.app.rates_mem) in
    record w { app = record w.app { rates_mem = mem }; redis = record w.redis { buckets = shared } }

-- `await app["redis"].publish(channel, message)`, whose errors the callers swallow.
unfoldable pub publish : Bool → String → Json → World → World
publish true channel message w = record w {
  redis = record w.redis { published = (channel, message) ∷ w.redis.published };
}
publish false channel message w = w

-- `await state.ws.send_json(msg)`, in a `try` that swallows its errors.
unfoldable pub send : Bool → Json → World → World
send true message w = record w { conn = record w.conn { ws_sent = message ∷ w.conn.ws_sent } }
send false message w = w

-- set.discard and set.add on `inflight`.
unfoldable pub discard : String → List String → List String
unfolding select
discard key = select (λ k. not (str_eq k key))

unfoldable pub add : String → List String → List String
unfolding exists
add key keys = if exists (λ k. str_eq k key) keys then keys else key ∷ keys

-- PostgreSQL's text form of a uuid, with the laws that the code relies on, and its parser; and the
-- text of a jsonb value, as asyncpg hands it over, of which nothing is assumed here.
pub record PgText : Type 0 where
  pub print : ℕ → String
  pub parse : String → Option ℕ
  pub parse-print : (j : ℕ) → parse (print j) ≡ some j
  pub print_nonempty : (j : ℕ) → str_eq (print j) "" ≡ false
  pub jsonb_text : Json → String
