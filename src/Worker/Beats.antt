-- ===== src/Worker/Beats.antt =====
-- The heartbeats of worker/worker.py: how far apart they are, and that they end.
use chaos_harness.Common.{
  ℕ, zero, suc, ◌+◌, ◌*◌, ◌≤◌, String, ◌≡◌, refl, inl, inr, true, Option, none, some, List, [], ◌∷◌,
  arith, leb, Bool-cases,
}
use chaos_harness.Json.{Json, Fields}
use chaos_harness.Chaos.{Numerals}
use chaos_harness.Runtime.Gate.{ok}
use chaos_harness.Worker.Execution.{
  Work, prepare, heartbeat_interval_ms, Beat, BeatsEnd, slept, send_failed, and_beat, woken, beats,
  run_with_heartbeats,
}

abbrev time_of : BeatsEnd → ℕ
time_of (slept t) = t
time_of (send_failed t) = t

-- From one heartbeat to the next, and from the last to the end, no more than a gap.
abbrev pub Close : ℕ → ℕ → List ℕ × BeatsEnd → Type 0
Close gap t ([], stop) = time_of stop ≤ t + gap
Close gap t (s ∷ ts, stop) = (s ≤ t + gap) × Close gap s (ts, stop)

abbrev IsClose : ℕ → ℕ → Option (List ℕ × BeatsEnd) → Type 0
IsClose gap t none = ⊥
IsClose gap t (some r) = Close gap t r

IsClose-and_beat :
    (gap t s : ℕ) (o : Option (List ℕ × BeatsEnd))
    → s ≤ t + gap
    → IsClose gap s o
    → IsClose gap t (and_beat s o)
IsClose-and_beat gap t s none le h = absurd h
IsClose-and_beat gap t s (some (ts, stop)) le h = (le, h)

module _ (b : ℕ → Beat) (delay : ℕ)
    (prompt : (k : ℕ) → ((b k).over ≤ delay) × ((b k).spent ≤ delay)) (deadline : ℕ) where
  -- The last heartbeat was sent at t.
  beats-IsClose :
      (fuel k now t : ℕ)
      → now ≤ t + delay
      → deadline ≤ now + heartbeat_interval_ms * fuel
      → IsClose (heartbeat_interval_ms + 2 * delay) t (beats b deadline (suc fuel) k now)
  unfolding beats
  beats-IsClose zero k now t near long = ground arith
  beats-IsClose (suc fuel) k now t near long =
      let r = b k in
      let (over, spent) = prompt k in
      let after = woken deadline now r.over in
      elim (Bool-cases (leb deadline now)) [
        | inl e ↦ rw e (omega arith)
        | inr e ↦ elim (Bool-cases (leb deadline after)) [
          | inl l ↦ rw (e, l) (omega arith)
          | inr l ↦ elim (Bool-cases r.sent) [
            | inr q ↦ rw (e, l, q) (omega arith)
            | inl q ↦
                rw (e, l, q)
                  (IsClose-and_beat _ t after _ (omega arith) (
                    beats-IsClose fuel (suc k) (after + r.spent) after (omega arith)
                      (ground arith)))
          ]
        ]
      ]

taken :
    (gap t : ℕ) (o : Option (List ℕ × BeatsEnd))
    → IsClose gap t o
    → (ts : List ℕ) × (stop : BeatsEnd) × (o ≡ some (ts, stop)) × Close gap t (ts, stop)
taken gap t none h = absurd h
taken gap t (some (ts, stop)) h = (ts, stop, refl, h)

prepare_bounded :
    (s : Numerals) (loads : String → Option Json) (m : Fields) (p : Work)
    → prepare s loads m ≡ ok p
    → p.sleep_ms ≤ 60000
unfolding prepare
prepare_bounded s loads m p h = ground arith

-- A job of which the worker's first heartbeat is sent, while no sleep is longer than asked for and no
-- send takes longer than by `delay`: _run_with_heartbeats ends within 21 rounds, and between two
-- heartbeats, and between the last and the end, lie at most 3 s and twice the delay.
pub heartbeats-Close :
    (s : Numerals) (loads : String → Option Json) (first : Beat) (start : ℕ) (b : ℕ → Beat)
    (m : Fields) (p : Work) (delay : ℕ)
    → prepare s loads m ≡ ok p
    → first.sent ≡ true
    → first.spent ≤ delay
    → ((k : ℕ) → ((b k).over ≤ delay) × ((b k).spent ≤ delay))
    → (ts : List ℕ) × (stop : BeatsEnd) × (run_with_heartbeats first start p.sleep_ms b 21
        ≡ some (start ∷ ts, stop))
      × Close (heartbeat_interval_ms + 2 * delay) start (ts, stop)
unfolding run_with_heartbeats
heartbeats-Close s loads first start b m p delay prepared sent spent prompt =
    let bounded = prepare_bounded s loads m p prepared in
    let (ts, stop, run, close) = taken (heartbeat_interval_ms + 2 * delay) start _ (
      beats-IsClose b delay prompt (start + p.sleep_ms) 20 0 (start + first.spent) start
        (omega arith) (omega arith)) in
    (ts, stop, rw (run_with_heartbeats, sent, run) refl, close)
