-- ===== src/Stats/Pages.antt =====
-- What handle_stats of coordinator/app.py shows: the uptime, the workers, and what a partition of
-- the database leaves of the page.
use chaos_harness.Common.{
  ℕ, suc, String, str_eq, ◌+◌, ◌-◌, ◌*◌, ◌%◌, ◌<◌, ◌≡◌, refl, ap, ◌∙◌, Bool, true, false, not, none,
  some, List, [], ◌∷◌, map, arith, ltb, if◌then◌else◌, select, length,
}
use chaos_harness.Common.Int.{ℤ}
use chaos_harness.Common.Sort.{sort, length-select-sort}
use chaos_harness.Runtime.{World, ConnState}
use chaos_harness.Runtime.Gate.{
  Database, ok, raise, db_partitioned, is_partitioned, gated-open, gated-shut,
}
use chaos_harness.Dispatch.{has_capacity}
use chaos_harness.Ws.{Hub}
use chaos_harness.Ws.Registry.{all}
use chaos_harness.Stats.{
  Uptime, hours_minutes, minutes_seconds, only_seconds, format_uptime, WorkerPart, part, at_limit,
  states, id_le, render_workers_line, StatsEnv, Page, page, db_snapshot, handle_stats, snapshot,
  display_uptime, count,
}

-- The seconds that a shown uptime stands for.
abbrev pub seconds : Uptime → ℕ
seconds (hours_minutes h m) = h * 3600 + m * 60
seconds (minutes_seconds m s) = m * 60 + s
seconds (only_seconds s) = s

-- Minutes and seconds that follow a larger unit are below 60.
abbrev IsUptime : Uptime → Type 0
IsUptime (hours_minutes h m) = (0 < h) × (m < 60)
IsUptime (minutes_seconds m s) = (0 < m) × (m < 60) × (s < 60)
IsUptime (only_seconds s) = s < 60

-- An uptime below an hour is shown exactly, and from an hour on less its seconds; minutes and
-- seconds are below 60, and a larger unit is shown only if it is not 0.
format_uptime-IsUptime :
    (total : ℕ)
    → IsUptime (format_uptime total)
      × (seconds (format_uptime total) ≡ (if ltb total 3600 then total else total - total % 60))
unfolding format_uptime
format_uptime-IsUptime total = (ground arith, ground arith)

full : (s : ConnState) → at_limit s ≡ not (has_capacity s)
unfolding has_capacity
full s = ground arith

module _ (q : ConnState → Bool) (q' : WorkerPart → Bool)
    (same : (s : ConnState) → q' (part s) ≡ q s) where
  map-count : (ss : List ConnState) → count q' (map part ss) ≡ count q ss
  unfolding count select
  map-count [] = refl
  map-count (s ∷ ss) = ground (arith, same s, map-count ss)

  -- A condition on connections, counted on the line.
  parts-count : (ss : List ConnState) → count q' (map part (sort id_le ss)) ≡ count q ss
  parts-count ss = map-count (sort id_le ss) ∙ unfold count in length-select-sort id_le q ss

length-part : (ss : List ConnState) → length ss ≡ length (map part ss)
length-part [] = refl
length-part (s ∷ ss) = ap suc (length-part ss)

-- The workers' line has a part for each registered connection, whatever the worker's id, and a star
-- at exactly those that the dispatcher passes over for want of capacity.
workers_shown :
    (h : Hub) (worker : String)
    → (count (λ p. str_eq p.worker_id worker) (render_workers_line h).parts
        ≡ count (λ s. str_eq s.worker_id worker) (states (all h.workers) h.conns))
      × (count (λ p. p.star) (render_workers_line h).parts
          ≡ count (λ s. not (has_capacity s)) (states (all h.workers) h.conns))
      × ((render_workers_line h).connected ≡ length (render_workers_line h).parts)
unfolding render_workers_line
workers_shown h worker = (
  parts-count (λ s. str_eq s.worker_id worker) (λ p. str_eq p.worker_id worker) (λ s. refl)
      (states (all h.workers) h.conns),
  parts-count (λ s. not (has_capacity s)) (λ p. p.star) full (states (all h.workers) h.conns),
  length-part (sort id_le (states (all h.workers) h.conns)),
)

module _ (e : StatsEnv) (w : World) where
  snapshot_opens :
      (d : Database)
      → d.connected ≡ true
      → is_partitioned e.mono d ≡ false
      → db_snapshot e.mono e.now₁ e.now₂ (record w { app = record w.app { db_gate = d } })
        ≡ ok (snapshot e.now₁ e.now₂ w.db)
  unfolding db_snapshot
  snapshot_opens d up opened =
      gated-open e.mono d up (λ x. raise x) (ok (snapshot e.now₁ e.now₂ w.db)) opened

  snapshot_shuts :
      w.app.db_gate.connected ≡ true
      → is_partitioned e.mono w.app.db_gate ≡ true
      → db_snapshot e.mono e.now₁ e.now₂ w ≡ raise db_partitioned
  unfolding db_snapshot
  snapshot_shuts up shut =
      gated-shut e.mono w.app.db_gate up (λ x. raise x) (ok (snapshot e.now₁ e.now₂ w.db)) shut

-- While the gate is shut handle_stats answers with the page that it would give with the gate `d`
-- open, without its queue and lease lines; either way the database is left alone, and the clock
-- skew shows in the uptime only.
pub stats_answers :
    (e : StatsEnv) (h : Hub) (w : World) (d : Database) (skew : ℤ)
    → w.app.db_gate.connected ≡ true
    → is_partitioned e.mono w.app.db_gate ≡ true
    → d.connected ≡ true
    → is_partitioned e.mono d ≡ false
    → (p : Page) × ((handle_stats e h (record w { app = record w.app { db_gate = d } })).0 ≡ ok p)
      × (p.queue ≡ some (snapshot e.now₁ e.now₂ w.db))
      × ((handle_stats e h w).0 ≡ ok (record p { queue = none }))
      × ((handle_stats e h w).1.db ≡ w.db)
      × ((handle_stats e h (record w { app = record w.app { logical_clock_offset_s = skew } })).0
          ≡ ok (record p { queue = none; uptime = format_uptime (display_uptime e.uptime skew) }))
unfolding handle_stats page
stats_answers e h w d skew up shut up' opened =
    let snap = snapshot e.now₁ e.now₂ w.db in
    let opens = snapshot_opens e w d up' opened in
    let shuts = snapshot_shuts e w up shut in
    (
      (page e h (some snap) w).0,
      rw (opens, handle_stats) refl,
      refl,
      rw (shuts, handle_stats) refl,
      rw (shuts, handle_stats) refl,
      rw
          (
            snapshot_shuts e (record w { app = record w.app { logical_clock_offset_s = skew } }) up
                shut,
            handle_stats,
          )
          refl,
    )
