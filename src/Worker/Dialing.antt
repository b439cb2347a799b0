-- ===== src/Worker/Dialing.antt =====
-- `run` of worker/worker.py: the pauses between two dials. A pause is in milliseconds; the random
-- factor is 0.5 + r / 10⁶ with r < 10⁶, and the pause after it in nanoseconds.
use Prim.Native.Nat.{◌^◌}
use native.Mathlib.Nat.{pow-suc, one-le-pow}
use chaos_harness.Common.{
  All, ℕ, suc, ◌+◌, ◌*◌, ◌<◌, ◌≤◌, min, ◌≡◌, refl, ap, Bool, true, false, List, [], ◌∷◌, arith,
  if◌then◌else◌,
}

abbrev backoff_min : ℕ
backoff_min = 500

abbrev backoff_max : ℕ
backoff_max = 10000

-- `backoff` before the pause: a connection that ended with no exception resets it.
before_pause : Bool → ℕ → ℕ
before_pause clean backoff = if clean then backoff_min else backoff

-- `backoff` after the pause.
after_pause : ℕ → ℕ
after_pause backoff = min (backoff * 2) backoff_max

-- The pause itself.
pause : ℕ → ℕ → ℕ
pause backoff r = min backoff backoff_max * (500_000 + r)

-- The pauses of a run, given for each dial whether the connection ended with no exception, and the
-- random number.
pauses : List (Bool × ℕ) → ℕ → List ℕ
unfolding before_pause after_pause pause
pauses [] backoff = []
pauses ((clean, r) ∷ dials) backoff =
    let b = before_pause clean backoff in pause b r ∷ pauses dials (after_pause b)

-- `run` starts at the least backoff.
pub run_pauses : List (Bool × ℕ) → List ℕ
unfolding pauses
run_pauses dials = pauses dials backoff_min

-- The pauses of a run by the number of dials that failed since the last connection that ended with
-- no exception: the least backoff, doubled each time, and cut off.
abbrev doubled : ℕ → ℕ
doubled n = min (backoff_min * 2 ^ n) backoff_max

abbrev pub expected : ℕ → List (Bool × ℕ) → List ℕ
expected n [] = []
expected n ((true, r) ∷ dials) = (backoff_min * (500_000 + r)) ∷ expected 1 dials
expected n ((false, r) ∷ dials) = (doubled n * (500_000 + r)) ∷ expected (suc n) dials

doubled-suc : (n : ℕ) → after_pause (doubled n) ≡ doubled (suc n)
unfolding after_pause
doubled-suc n = omega (arith, pow-suc 2 n)

pause-doubled : (n r : ℕ) → pause (doubled n) r ≡ doubled n * (500_000 + r)
unfolding pause
pause-doubled n r =
    let same : min (doubled n) backoff_max ≡ doubled n = omega arith in
    ap (λ b. b * (500_000 + r)) same

pauses-doubled : (dials : List (Bool × ℕ)) (n : ℕ) → pauses dials (doubled n) ≡ expected n dials
unfolding pauses
pauses-doubled [] n = refl
pauses-doubled ((true, r) ∷ dials) n = rw (pause-doubled 0 r, pauses-doubled dials 1) refl
pauses-doubled ((false, r) ∷ dials) n =
    rw (pause-doubled n r, doubled-suc n, pauses-doubled dials (suc n)) refl

within :
    (b x : ℕ)
    → backoff_min ≤ b
    → b ≤ backoff_max
    → x < 1_000_000
    → (250_000_000 ≤ b * (500_000 + x)) × (b * (500_000 + x) < 15_000_000_000)
within b x lo hi less = (grind arith, grind arith)

expected_within :
    (dials : List (Bool × ℕ)) (n : ℕ)
    → All (λ d. d.1 < 1_000_000) dials
    → All (λ p. (250_000_000 ≤ p) × (p < 15_000_000_000)) (expected n dials)
expected_within [] n h = tt
expected_within ((true, r) ∷ dials) n h =
    (within backoff_min r (omega arith) (omega arith) h.0, expected_within dials 1 h.1)
expected_within ((false, r) ∷ dials) n h = (
  within (doubled n) r (omega (arith, one-le-pow n 2 (omega arith))) (omega arith) h.0,
  expected_within dials (suc n) h.1,
)

-- The pauses of a worker that dials again and again are, each time its random factor, the least
-- backoff doubled for each dial that failed since the last connection that ended with no exception,
-- at most the largest backoff; and each lies between 0.25 s and 15 s.
pub pauses_double :
    (dials : List (Bool × ℕ))
    → All (λ d. d.1 < 1_000_000) dials
    → (run_pauses dials ≡ expected 0 dials)
      × All (λ p. (250_000_000 ≤ p) × (p < 15_000_000_000)) (run_pauses dials)
unfolding run_pauses
pauses_double dials h =
    let same : pauses dials backoff_min ≡ expected 0 dials = pauses-doubled dials 0 in
    (same, rw same (expected_within dials 0 h))
