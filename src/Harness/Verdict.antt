-- ===== src/Harness/Verdict.antt =====
-- What the report and the exit code of chaos_harness.py say of a run of the dispatcher.
use chaos_harness.Common.{
  ◌≢◌, ◌≡◌, refl, sym, ap, subst, ◌∙◌, Bool, true, false, Option, some, List, [], ◌∷◌, arith, map,
  ltb, if◌then◌else◌, length, select, exists, All, Pairs,
}
use chaos_harness.Schema.{
  JobState, pending, leased, succeeded, failed, cancelled, Lease, Commit, Db, init, state_of,
  leases_of, accepted_of,
}
use chaos_harness.Runtime.{PgText, World}
use chaos_harness.Runtime.Gate.{is_partitioned}
use chaos_harness.Audit.{AuditEnv, handle_audit, trail_of}
use chaos_harness.Protocol.{IsOwned}
use chaos_harness.Cluster.{Reach, IsSerial}
use chaos_harness.Cluster.Consistent.{IsConsistent}
use chaos_harness.Cluster.Invariant.{Reach-IsConsistent, init-IsConsistent}
use chaos_harness.Harness.{Audited, audited, verify}
use chaos_harness.Harness.Trails.{is_unfinished, accepted_count}
use chaos_harness.Harness.Global.{Submission, tracked, snapshot}
use chaos_harness.Harness.Clean.{IsStored, stored_state, unfinished_jobs, replies, verify-reachable}
use chaos_harness.Harness.Report.{
  Floats, Counters, Report, pass, pass_with_notes, fail, is_completed, is_unreachable, verdict_of,
  format_report, exit_code,
}

abbrev pub is_succeeded : Option JobState → Bool
is_succeeded (some succeeded) = true
is_succeeded _ = false

exists-count :
    {A : Type 0} (p : A → Bool) (xs : List A) → exists p xs ≡ ltb 0 (length (select p xs))
unfolding exists select
exists-count p [] = ground arith
exists-count p (x ∷ xs) = ground (arith, exists-count p xs)

accepted_if :
    (s : JobState) (ls : List Lease) (cs : List Commit)
    → IsOwned (some s) ls cs
    → ltb 0 (length cs) ≡ is_succeeded (some s)
accepted_if pending ls cs o = rw o.1 (ground arith)
accepted_if leased ls cs o = rw o.1 (ground arith)
accepted_if cancelled ls cs o = rw o.1 (ground arith)
accepted_if failed ls cs o = absurd o
accepted_if succeeded [] cs o = absurd o
accepted_if succeeded (l ∷ ls) [] o = absurd o
accepted_if succeeded (l ∷ ls) (c ∷ _ ∷ _) o = absurd o
accepted_if succeeded (l ∷ ls) (c ∷ []) o = ground arith

module _ (u : PgText) (d : Db) (c : IsConsistent d) where
  completed_is :
      (s : Submission)
      → IsStored d s
      → is_completed (snapshot u d s) ≡ is_succeeded (state_of s.job d.jobs)
  unfolding is_completed trail_of
  completed_is s h =
      let (x, q) = stored_state s.key s.job d.jobs h in
      let owned =
        subst (λ y. IsOwned y (leases_of s.job d.leases) (accepted_of s.job d.commits)) q
          (c.sound s.job).owned in
      exists-count (λ c. c.accepted) (trail_of s.job d d d).commits
      ∙ ap (ltb 0) (accepted_count s.job d)
      ∙ accepted_if x (leases_of s.job d.leases) (accepted_of s.job d.commits) owned
      ∙ ap is_succeeded (sym q)

  completed_count :
      (ss : List Submission)
      → All (IsStored d) ss
      → length (select is_completed (map (snapshot u d) ss))
        ≡ length (select (λ s. is_succeeded (state_of s.job d.jobs)) ss)
  unfolding select
  completed_count [] h = refl
  completed_count (s ∷ ss) h = ground (arith, completed_is s h.0, completed_count ss h.1)

  all_reached : (ss : List Submission) → length (select is_unreachable (map (snapshot u d) ss)) ≡ 0
  unfolding select
  all_reached [] = refl
  all_reached (s ∷ ss) = all_reached ss

  -- Whether some job is unfinished decides the rest.
  abbrev some_unfinished : List Submission → Bool
  some_unfinished ss = exists (λ s. is_unfinished (state_of s.job d.jobs)) ss

  exit_is :
      (ss : List Submission)
      → exit_code (unfinished_jobs u d ss) ≡ (if some_unfinished ss then 1 else 0)
  unfolding exists unfinished_jobs
  exit_is [] = refl
  exit_is (s ∷ ss) = ground (arith, exit_is ss)

  verdict_is :
      (a : Floats) (k : Counters) (ss : List Submission)
      → verdict_of a k 0 (unfinished_jobs u d ss) ≡ (
          if some_unfinished ss
          then fail
          else (if a.few k.submit_fail k.submit_ok then pass else pass_with_notes))
  unfolding exists unfinished_jobs
  verdict_is a k [] = refl
  verdict_is a k (s ∷ ss) = ground (arith, verdict_is a k ss)

-- The audits of the final check.
abbrev pub audits : PgText → AuditEnv → World → List Submission → List Audited
audits u e w ss =
    map (λ (s : Submission). audited (u.print s.job) (handle_audit u e (some (u.print s.job)) w)) ss

-- The report that follows the final check.
abbrev pub final_report : PgText → AuditEnv → World → Floats → Counters → List Submission → Report
final_report u e w a k ss =
    format_report a k (map (tracked u) ss) (audits u e w ss)
      (verify (map (tracked u) ss) (audits u e w ss))

module _ (u : PgText) (e : AuditEnv) (w : World) (up : w.app.db_gate.connected ≡ true)
    (o₁ : is_partitioned e.mono₁ w.app.db_gate ≡ false)
    (o₂ : is_partitioned e.mono₂ w.app.db_gate ≡ false)
    (o₃ : is_partitioned e.mono₃ w.app.db_gate ≡ false) (s₁ : IsSerial e.later₁)
    (s₂ : IsSerial e.later₂) where
  -- On any reachable database, with the jobs tracked under their keys and an open gate, the report
  -- counts every audit as reached and exactly the succeeded jobs as completed; the harness exits
  -- with 1 and the verdict is a failure if and only if a job is unfinished, and otherwise the
  -- verdict is decided by the share of failed submissions.
  pub run_judged :
      (a : Floats) (k : Counters) (ss : List Submission)
      → Reach u init w.db
      → All (IsStored w.db) ss
      → Pairs (λ (s t : Submission). s.job ≢ t.job) ss
      → ((final_report u e w a k ss).unreachable ≡ 0)
        × ((final_report u e w a k ss).completed
            ≡ length (select (λ s. is_succeeded (state_of s.job w.db.jobs)) ss))
        × (exit_code (verify (map (tracked u) ss) (audits u e w ss))
            ≡ (if exists (λ s. is_unfinished (state_of s.job w.db.jobs)) ss then 1 else 0))
        × ((final_report u e w a k ss).verdict ≡ (
            if exists (λ s. is_unfinished (state_of s.job w.db.jobs)) ss
            then fail
            else (if a.few k.submit_fail k.submit_ok then pass else pass_with_notes)))
  unfolding format_report
  run_judged a k ss r h n =
      let c = Reach-IsConsistent init-IsConsistent r in
      let seen = replies u e w up o₁ o₂ o₃ s₁ s₂ ss in
      let clean = verify-reachable u e w up o₁ o₂ o₃ s₁ s₂ ss r h n in
      let reached = ap (λ ads. length (select is_unreachable ads)) seen ∙ all_reached u w.db c ss in
      (
        reached,
        ap (λ ads. length (select is_completed ads)) seen ∙ completed_count u w.db c ss h,
        ap exit_code clean ∙ exit_is u w.db c ss,
        rw (reached, clean) (verdict_is u w.db c a k ss),
      )
