-- ===== src/Runtime/Rates.antt =====
-- `RateCounters` of coordinator/stats.py: counters for each event and second, in Redis or, if
-- Redis fails, in memory. The EXPIRE of a Redis bucket is left out: it drops buckets 90 s old, and
-- the window is 60 s.
use chaos_harness.Common.{
  ℕ, ◌+◌, String, Bool, true, ◌&&◌, ◌||◌, List, [], ◌∷◌, leb, ◌==◌, str_eq, if◌then◌else◌, select,
}

pub record Bucket : Type 0 where
  pub event : String
  pub sec : ℕ
  pub tally : ℕ

abbrev pub Buckets : Type 0
Buckets = List Bucket

-- INCRBY of a key, and `mem[event][sec] = mem[event].get(sec, 0) + n`.
unfoldable pub bump : String → ℕ → ℕ → Buckets → Buckets
bump event sec n [] = record { event = event; sec = sec; tally = n } ∷ []
bump event sec n (b ∷ bs) =
    let later = bump event sec n bs in
    if str_eq b.event event && (b.sec == sec)
    then record b { tally = b.tally + n } ∷ bs
    else b ∷ later

pub is_event : String → Bool
is_event e = str_eq e "submitted" || (str_eq e "completed" || str_eq e "failed")

-- The two arguments are the buckets of Redis and those in memory.
unfoldable pub incr : Bool → ℕ → String → ℕ → Buckets × Buckets → Buckets × Buckets
unfolding bump is_event
incr redis_ok sec event n (shared, mem) =
    if is_event event
    then if redis_ok then (bump event sec n shared, mem) else (shared, bump event sec n mem)
    else (shared, mem)

unfoldable pub total : String → ℕ → Buckets → ℕ
total event now [] = 0
total event now (b ∷ bs) =
    (if str_eq b.event event && (leb (now + 1) (b.sec + 60) && leb b.sec now) then b.tally else 0)
    + total event now bs

-- Memory drops what is older than the window when it is read.
unfoldable pub prune : String → ℕ → Buckets → Buckets
unfolding select
prune event now = select (λ b. if str_eq b.event event then leb now (b.sec + 60) else true)

-- One event of `window_counts`: the sum, and the memory after the pruning.
unfoldable pub window_count : Bool → ℕ → String → Buckets × Buckets → ℕ × Buckets
unfolding total prune
window_count redis_ok now event (shared, mem) =
    if redis_ok
    then (total event now shared, mem)
    else (total event now (prune event now mem), prune event now mem)
