-- ===== src/Runtime/Windows.antt =====
-- `RateCounters` of coordinator/stats.py: what the window counts after an event.
use chaos_harness.Common.{
  ℕ, ◌+◌, String, ◌≡◌, refl, ap, inl, inr, Bool, true, false, ◌&&◌, [], ◌∷◌, arith, leb, ◌==◌,
  str_eq, eq_iff, if◌then◌else◌, select, Bool-cases, &&_parts,
}
use chaos_harness.Runtime.Rates.{Buckets, bump, is_event, incr, total, prune, window_count}

-- One of the 60 most recent seconds.
abbrev is_recent : ℕ → ℕ → Bool
is_recent now sec = leb (now + 1) (sec + 60) && leb sec now

abbrev pub gain : String → String → ℕ → ℕ → ℕ → ℕ
gain event counted now sec n = if str_eq event counted && is_recent now sec then n else 0

total-bump :
    (event counted : String) (now sec n : ℕ) (bs : Buckets)
    → total counted now (bump event sec n bs) ≡ total counted now bs + gain event counted now sec n
unfolding total bump
total-bump event counted now sec n [] = ground arith
total-bump event counted now sec n (b ∷ bs) =
    elim (Bool-cases (str_eq b.event event && (b.sec == sec))) [
      | inl e ↦
          let (same, at) = &&_parts (str_eq b.event event) (b.sec == sec) e in
          let event_is = ap (λ (x : String). str_eq x counted) ((eq_iff b.event event).0 same) in
          ground (arith, event_is)
      | inr e ↦ rw e (ground (arith, total-bump event counted now sec n bs))
    ]

-- The pruning drops nothing that the window counts.
total-prune :
    (event : String) (now : ℕ) (bs : Buckets)
    → total event now (prune event now bs) ≡ total event now bs
unfolding total prune select
total-prune event now [] = refl
total-prune event now (b ∷ bs) = ground (arith, total-prune event now bs)

window-total :
    (redis_ok : Bool) (now : ℕ) (event : String) (shared mem : Buckets)
    → (window_count redis_ok now event (shared, mem)).0
      ≡ total event now (if redis_ok then shared else mem)
unfolding window_count
window-total true now event shared mem = refl
window-total false now event shared mem = total-prune event now mem

incr_unknown :
    (ok : Bool) (sec : ℕ) (event : String) (n : ℕ) (b : Buckets × Buckets)
    → is_event event ≡ false
    → incr ok sec event n b ≡ b
unfolding incr
incr_unknown ok sec event n (shared, mem) e = rw (e, incr) refl

incr_known :
    (ok : Bool) (sec : ℕ) (event : String) (n : ℕ) (shared mem : Buckets)
    → is_event event ≡ true
    → incr ok sec event n (shared, mem)
      ≡ (if ok then (bump event sec n shared, mem) else (shared, bump event sec n mem))
unfolding incr
incr_known ok sec event n shared mem e = rw (e, incr) refl

-- An event counted at the second `sec`, whether Redis keeps the buckets or memory does while Redis
-- fails: a window read at `now` counts n more of that event if `sec` is one of the 60 most recent
-- seconds, and otherwise, or of any other event, as many as before. An unknown event changes none.
pub incr_counts :
    (redis_ok : Bool) (now sec n : ℕ) (event counted : String) (shared mem : Buckets)
    → (window_count redis_ok now counted (incr redis_ok sec event n (shared, mem))).0
      ≡ (window_count redis_ok now counted (shared, mem)).0
        + (if is_event event then gain event counted now sec n else 0)
incr_counts redis_ok now sec n event counted shared mem = elim (Bool-cases (is_event event)) [
  | inr e ↦ rw (incr_unknown redis_ok sec event n (shared, mem) e, e) (omega arith)
  | inl e ↦ counted_known redis_ok e
]
  where
    counted_known :
        (ok : Bool)
        → is_event event ≡ true
        → (window_count ok now counted (incr ok sec event n (shared, mem))).0
          ≡ (window_count ok now counted (shared, mem)).0
            + (if is_event event then gain event counted now sec n else 0)
    counted_known true e =
        rw
          (
            incr_known true sec event n shared mem e,
            e,
            window-total true now counted (bump event sec n shared) mem,
            window-total true now counted shared mem,
          )
          (total-bump event counted now sec n shared)
    counted_known false e =
        rw
          (
            incr_known false sec event n shared mem e,
            e,
            window-total false now counted shared (bump event sec n mem),
            window-total false now counted shared mem,
          )
          (total-bump event counted now sec n mem)
