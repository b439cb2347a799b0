-- ===== src/Harness/Report.antt =====
-- `_percentile`, the counts and the verdict of `_format_report`, and the exit code of
-- `_main` in chaos_harness.py. Latencies are whole numbers of a small unit of time.
use chaos_harness.Common.{
  ℕ, zero, suc, ◌-◌, min, Bool, true, false, ◌&&◌, none, some, List, [], ◌∷◌, leb, ◌==◌, str_eq,
  if◌then◌else◌, length, select, exists,
}
use chaos_harness.Common.Int.{ℤ, clamp_zero}
use chaos_harness.Common.Sort.{sort}
use chaos_harness.Audit.{CommitEntry}
use chaos_harness.Harness.{Tracked, Audited, Violation}

-- The entry at an index, and a default past the end.
unfoldable pub get_or : List ℕ → ℕ → ℕ → ℕ
get_or [] i default = default
get_or (x ∷ xs) zero default = x
get_or (x ∷ xs) (suc i) default = get_or xs i default

-- The arithmetic of floats in the harness: `int(round((p / 100.0) * (n - 1)))` of a percentage and a
-- length, and the test `failed < submitted * 0.01`.
pub record Floats : Type 0 where
  pub rank : ℕ → ℕ → ℤ
  pub few : ℕ → ℕ → Bool

-- `max(0, min(len(xs) - 1, …))`
abbrev pub index : Floats → ℕ → ℕ → ℕ
index a n p = min (n - 1) (clamp_zero (a.rank p n))

unfoldable pub percentile : Floats → List ℕ → ℕ → ℕ
unfolding get_or sort
percentile a [] p = 0
percentile a (x ∷ xs) p = get_or (sort leb (x ∷ xs)) (index a (length (x ∷ xs)) p) 0

-- The events that `_C` counts for the report.
pub record Counters : Type 0 where
  pub submit_ok : ℕ
  pub submit_fail : ℕ
  pub submit_dup : ℕ

pub data Verdict : Type 0 where
  pass pass_with_notes fail : Verdict

-- The numbers of the report.
pub record Report : Type 0 where
  pub submitted : ℕ
  pub failed : ℕ
  dups : ℕ
  jobs_tracked : ℕ
  pub completed : ℕ
  pub unreachable : ℕ
  unique_keys : ℕ
  violations : ℕ
  pub verdict : Verdict

-- `any(c.get("accepted") for c in commits)` of an audit that is ok.
unfoldable pub is_completed : Audited → Bool
unfolding exists
is_completed a = elim a.trail [
  | none ↦ false
  | some t ↦ exists (λ (c : CommitEntry). c.accepted) t.commits
]

abbrev pub is_unreachable : Audited → Bool
is_unreachable a = elim a.trail [ none ↦ true | some t ↦ false ]

-- `len(set(m["key"] for m in _J.values()))`
count_keys : List Tracked → ℕ
unfolding exists
count_keys [] = 0
count_keys (t ∷ ts) =
    let rest = count_keys ts in
    if exists (λ (s : Tracked). str_eq s.key t.key) ts then rest else suc rest

abbrev pub verdict_of : Floats → Counters → ℕ → List Violation → Verdict
verdict_of a c unreachable [] =
    if (unreachable == 0) && a.few c.submit_fail c.submit_ok then pass else pass_with_notes
verdict_of a c unreachable (v ∷ vs) = fail

unfoldable pub format_report :
    Floats → Counters → List Tracked → List Audited → List Violation → Report
unfolding is_completed count_keys select
format_report a c jobs audits violations =
    let unreachable = length (select is_unreachable audits) in
    record {
      submitted = c.submit_ok;
      failed = c.submit_fail;
      dups = c.submit_dup;
      jobs_tracked = length jobs;
      completed = length (select is_completed audits);
      unreachable = unreachable;
      unique_keys = count_keys jobs;
      violations = length violations;
      verdict = verdict_of a c unreachable violations;
    }

-- `sys.exit(0 if not violations else 1)`
abbrev pub exit_code : List Violation → ℕ
exit_code [] = 0
exit_code (v ∷ vs) = 1
