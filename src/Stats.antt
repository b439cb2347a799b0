-- ===== src/Stats.antt =====
-- /stats: the snapshot, the workers' line and the counters of coordinator/stats.py, and handle_stats
-- and format_uptime of coordinator/app.py. The page is a record of what its lines say. Readings of
-- `time.monotonic()` are in nanoseconds.
pub mod Counts
pub mod Pages
use Prim.Native.Nat.{Ordering}
use Prim.Native.String.{compare}
use chaos_harness.Common.{
  ℕ, ◌+◌, ◌-◌, ◌*◌, ◌/◌, ◌%◌, String, Bool, true, false, not, ◌&&◌, Option, none, some, List, [],
  ◌∷◌, map, ltb, leb, ◌==◌, if◌then◌else◌, select, exists, length,
}
use chaos_harness.Common.Int.{ℤ, pos, negsuc}
use chaos_harness.Common.Sort.{sort}
use chaos_harness.Schema.{leased, pending, state_eq, Job, Lease, Db, is_live}
use chaos_harness.Runtime.{World, ConnState}
use chaos_harness.Runtime.Gate.{Result, ok, raise, db_partitioned, gated}
use chaos_harness.Ws.{Hub, conn_of}
use chaos_harness.Ws.Registry.{all}
use chaos_harness.Runtime.Rates.{Buckets, window_count}

-- count(*) … WHERE p
unfoldable pub count {ℓ} : {A : Type ℓ} → (A → Bool) → List A → ℕ
unfolding select
count p xs = length (select p xs)

pub record Snapshot : Type 0 where
  pub pending : ℕ
  pub in_flight : ℕ
  pub stuck : ℕ
  pub active_leases : ℕ
  pub expiring : ℕ

abbrev pub is_leased : Job → Bool
is_leased r = state_eq r.state leased

-- EXISTS (SELECT 1 FROM jobs j WHERE j.job_id=l.job_id AND j.state='leased')
pub is_held : List Job → Lease → Bool
unfolding exists
is_held rs l = exists (λ r. r.job_id == l.job_id && is_leased r) rs

-- db_now_ms() - issued_at_ms > 30000, and expires_at_ms - db_now_ms() < 5000.
pub is_stuck : (Lease → ℕ) → List Job → Lease → Bool
unfolding is_held
is_stuck now rs l = is_live l && (ltb (l.issued_at_ms + 30000) (now l) && is_held rs l)

pub is_expiring : (Lease → ℕ) → Lease → Bool
is_expiring now l = is_live l && ltb l.expires_at_ms (now l + 5000)

-- _SNAPSHOT_SQL. db_now_ms() is read anew for each row.
pub snapshot : (Lease → ℕ) → (Lease → ℕ) → Db → Snapshot
unfolding count is_stuck is_expiring
snapshot now₁ now₂ d = record {
  pending = count (λ r. state_eq r.state pending) d.jobs;
  in_flight = count is_leased d.jobs;
  stuck = count (is_stuck now₁ d.jobs) d.leases;
  active_leases = count is_live d.leases;
  expiring = count (is_expiring now₂) d.leases;
}

-- db_snapshot
pub db_snapshot : ℕ → (Lease → ℕ) → (Lease → ℕ) → World → Result Snapshot
unfolding gated snapshot
db_snapshot mono now₁ now₂ w =
    gated mono w.app.db_gate (λ x. raise x) (ok (snapshot now₁ now₂ w.db))

-- The three forms that format_uptime prints: `1h2m`, `2m3s`, `3s`.
pub data Uptime : Type 0 where
  hours_minutes minutes_seconds : ℕ → ℕ → Uptime
  only_seconds : ℕ → Uptime

pub format_uptime : ℕ → Uptime
format_uptime total =
    let h = total / 3600 in
    let rem = total % 3600 in
    let m = rem / 60 in
    let s = rem % 60 in
    if not (h == 0)
    then hours_minutes h m
    else if not (m == 0)
    then minutes_seconds m s
    else only_seconds s

-- `int(max(0.0, uptime + skew_s))`
pub display_uptime : ℕ → ℤ → ℕ
display_uptime uptime (pos n) = (uptime + n * 1_000_000_000) / 1_000_000_000
display_uptime uptime (negsuc n) = (uptime - (n + 1) * 1_000_000_000) / 1_000_000_000

-- One worker's part of the line: `w1:3/8`, with a star at the limit.
pub record WorkerPart : Type 0 where
  pub worker_id : String
  pub used : ℕ
  pub limit : ℤ
  pub star : Bool

pub record WorkersLine : Type 0 where
  pub connected : ℕ
  pub parts : List WorkerPart

abbrev pub at_limit : ConnState → Bool
at_limit s = elim s.limit [ pos n ↦ leb n (length s.inflight) | negsuc n ↦ true ]

abbrev pub part : ConnState → WorkerPart
part s = record {
  worker_id = s.worker_id;
  used = length s.inflight;
  limit = s.limit;
  star = at_limit s;
}

abbrev pub id_le : ConnState → ConnState → Bool
id_le s t = elim (compare s.worker_id t.worker_id) [ Ordering.gt ↦ false | _ ↦ true ]

-- `registry.all()`, as the connections themselves.
pub states : List ℕ → List (ℕ × ConnState) → List ConnState
unfolding conn_of
states [] cs = []
states (c ∷ ids) cs = elim (conn_of c cs) [ none ↦ states ids cs | some s ↦ s ∷ states ids cs ]

pub render_workers_line : Hub → WorkersLine
unfolding states all sort
render_workers_line h =
    let sorted = sort id_le (states (all h.workers) h.conns) in
    record { connected = length sorted; parts = map part sorted }

-- The `last 60s` line. `lost` is the constant 0.
pub record RateLine : Type 0 where
  pub submitted : ℕ
  pub completed : ℕ
  pub failed : ℕ

-- window_counts: whether Redis answers may differ from event to event.
window_counts : (String → Bool) → ℕ → Buckets → Buckets → RateLine × Buckets
unfolding window_count
window_counts redis_ok now shared mem =
    let (s, mem₁) = window_count (redis_ok "submitted") now "submitted" (shared, mem) in
    let (c, mem₂) = window_count (redis_ok "completed") now "completed" (shared, mem₁) in
    let (f, mem₃) = window_count (redis_ok "failed") now "failed" (shared, mem₂) in
    (record { submitted = s; completed = c; failed = f }, mem₃)

-- The page: `queue` is `none` where it says `(db partitioned)`.
pub record Page : Type 0 where
  pub coordinator : String
  pub uptime : Uptime
  pub workers : WorkersLine
  pub queue : Option Snapshot
  pub rates : RateLine

pub record StatsEnv : Type 0 where
  pub mono : ℕ
  -- time.monotonic() - start_monotonic, and the wall clock's second.
  pub uptime : ℕ
  pub sec : ℕ
  pub now₁ : Lease → ℕ
  pub now₂ : Lease → ℕ
  pub redis_ok : String → Bool

pub page : StatsEnv → Hub → Option Snapshot → World → Page × World
unfolding format_uptime display_uptime render_workers_line window_counts
page e h queue w =
    let (rates, mem) = window_counts e.redis_ok e.sec w.redis.buckets w.app.rates_mem in
    (
      record {
        coordinator = w.app.coord_id;
        uptime = format_uptime (display_uptime e.uptime w.app.logical_clock_offset_s);
        workers = render_workers_line h;
        queue = queue;
        rates = rates;
      },
      record w { app = record w.app { rates_mem = mem } },
    )

-- handle_stats. Only DBPartitioned is caught.
pub handle_stats : StatsEnv → Hub → World → Result Page × World
unfolding db_snapshot page
handle_stats e h w = elim (db_snapshot e.mono e.now₁ e.now₂ w) [
  | ok s ↦ (let (p, w') = page e h (some s) w in (ok p, w'))
  | raise db_partitioned ↦ (let (p, w') = page e h none w in (ok p, w'))
  | raise x ↦ (raise x, w)
]
