-- ===== src/Harness/Clean.antt =====
-- `_verify` of chaos_harness.py on what the coordinators answer.
use mathlib.Core.List.{append-nil}
use chaos_harness.Common.{
  eq_iff, ◌≢◌, ℕ, ◌≤◌, String, ◌≡◌, refl, sym, ap, subst, ◌∙◌, inl, inr, Bool, true, false, some,
  List, [], ◌∷◌, ◌++◌, arith, map, ◌==◌, str_eq, if◌then◌else◌, length, All, Pairs, Bool-cases,
}
use chaos_harness.Schema.{init, id_of_key, Job, JobState, Db, state_of}
use chaos_harness.Audit.{AuditEnv, handle_audit, audit_job}
use chaos_harness.Cluster.Consistent.{IsConsistent}
use chaos_harness.Runtime.{PgText, World}
use chaos_harness.Runtime.Gate.{gated-open, is_partitioned}
use chaos_harness.Cluster.{Reach, IsSerial}
use chaos_harness.Cluster.Invariant.{Reach-IsConsistent, init-IsConsistent}
use chaos_harness.Harness.{ids_of_key, dedup_checks, audit_checks, verify, audited, Violation, lost}
use chaos_harness.Harness.Trails.{is_unfinished}
use chaos_harness.Harness.OneTrail.{trail_clean}
use chaos_harness.Harness.Global.{Submission, tracked, snapshot, global_clean}

-- The job was submitted under this key.
abbrev pub IsStored : Db → Submission → Type 0
IsStored d s = id_of_key s.key d.jobs ≡ some s.job

pub stored_state :
    (k : String) (j : ℕ) (rs : List Job)
    → id_of_key k rs ≡ some j
    → (s : JobState) × (state_of j rs ≡ some s)
unfolding id_of_key state_of
stored_state k j [] h = cc
stored_state k j (r ∷ rs) h = elim (Bool-cases (r.job_id == j)) [
  | inl e ↦ (r.state, rw e refl)
  | inr e ↦ let (s, q) = stored_state k j rs (ground arith) in (s, rw e q)
]

-- The UNIQUE column: jobs that differ have keys that differ.
keys_differ :
    (d : Db) (ss : List Submission)
    → All (IsStored d) ss
    → Pairs (λ (s t : Submission). s.job ≢ t.job) ss
    → Pairs (λ (s t : Submission). s.key ≢ t.key) ss
keys_differ d [] h n = tt
keys_differ d (s ∷ ss) h n = (go ss h.1 n.0, keys_differ d ss h.1 n.1)
  where
    go :
        (ts : List Submission)
        → All (IsStored d) ts
        → All (λ (t : Submission). s.job ≢ t.job) ts
        → All (λ (t : Submission). s.key ≢ t.key) ts
    go [] k m = tt
    go (t ∷ ts) k m = (
      (λ e.
          let same : some s.job ≡ some t.job =
            sym h.0 ∙ ap (λ (x : String). id_of_key x d.jobs) e ∙ k.0 in
          let job : s.job ≡ t.job = cc same in m.0 job),
      go ts k.1 m.1,
    )

none_of_key :
    (u : PgText) (k : String) (ss : List Submission)
    → All (λ (t : Submission). k ≢ t.key) ss
    → length (ids_of_key k (map (tracked u) ss)) ≡ 0
unfolding ids_of_key
none_of_key u k [] h = refl
none_of_key u k (s ∷ ss) h = elim (Bool-cases (str_eq s.key k)) [
  | inl e ↦ absurd (h.0 (sym ((eq_iff s.key k).0 e)))
  | inr e ↦ rw e (none_of_key u k ss h.1)
]

-- At most one tracked job has a key.
one_of_key :
    (u : PgText) (k : String) (ss : List Submission)
    → Pairs (λ (s t : Submission). s.key ≢ t.key) ss
    → length (ids_of_key k (map (tracked u) ss)) ≤ 1
unfolding ids_of_key
one_of_key u k [] n = omega arith
one_of_key u k (s ∷ ss) n = elim (Bool-cases (str_eq s.key k)) [
  | inl e ↦
      let same = (eq_iff s.key k).0 e in
      let rest =
        none_of_key u k ss (subst (λ x. All (λ (t : Submission). x ≢ t.key) ss) same n.0) in
      rw e (omega arith)
  | inr e ↦ rw e (one_of_key u k ss n.1)
]

dedup_clean :
    (u : PgText) (d : Db) (all ss : List Submission)
    → All (IsStored d) all
    → Pairs (λ (s t : Submission). s.job ≢ t.job) all
    → dedup_checks (map (tracked u) all) (map (tracked u) ss) ≡ []
unfolding dedup_checks
dedup_clean u d all [] h n = refl
dedup_clean u d all (s ∷ ss) h n =
    ground (arith, dedup_clean u d all ss h n, one_of_key u s.key all (keys_differ d all h n))

-- The jobs that are pending or leased, as lost.
unfoldable pub unfinished_jobs : PgText → Db → List Submission → List Violation
unfinished_jobs u d [] = []
unfinished_jobs u d (s ∷ ss) =
    let later = unfinished_jobs u d ss in
    if is_unfinished (state_of s.job d.jobs) then lost (u.print s.job) ∷ later else later

if-append :
    (b : Bool) (v : Violation) (vs : List Violation)
    → (if b then v ∷ [] else []) ++ vs ≡ (if b then v ∷ vs else vs)
if-append true v vs = refl
if-append false v vs = refl

audits_clean :
    (u : PgText) (d : Db) (ss : List Submission)
    → IsConsistent d
    → All (IsStored d) ss
    → audit_checks (map (snapshot u d) ss) ≡ unfinished_jobs u d ss
unfolding audit_checks unfinished_jobs
audits_clean u d [] c h = refl
audits_clean u d (s ∷ ss) c h =
    let (x, e) = stored_state s.key s.job d.jobs h.0 in
    rw (trail_clean (u.print s.job) s.job d x c e, e, audits_clean u d ss c h.1)
      (if-append (is_unfinished (some x)) _ _)

-- The reply to an audit, the gate being open, and nothing written between its queries.
audit_reply :
    (u : PgText) (e : AuditEnv) (w : World) (s : Submission)
    → w.app.db_gate.connected ≡ true
    → is_partitioned e.mono₁ w.app.db_gate ≡ false
    → is_partitioned e.mono₂ w.app.db_gate ≡ false
    → is_partitioned e.mono₃ w.app.db_gate ≡ false
    → IsSerial e.later₁
    → IsSerial e.later₂
    → audited (u.print s.job) (handle_audit u e (some (u.print s.job)) w) ≡ snapshot u w.db s
unfolding handle_audit audit_job
audit_reply u e w s up o₁ o₂ o₃ s₁ s₂ =
    rw
      (
        u.print_nonempty s.job,
        u.parse-print s.job,
        gated-open e.mono₁ w.app.db_gate up _ _ o₁,
        gated-open e.mono₂ w.app.db_gate up _ _ o₂,
        gated-open e.mono₃ w.app.db_gate up _ _ o₃,
        s₁ w.db,
        s₂ w.db,
      )
      refl

module _ (u : PgText) (e : AuditEnv) (w : World) (up : w.app.db_gate.connected ≡ true)
    (o₁ : is_partitioned e.mono₁ w.app.db_gate ≡ false)
    (o₂ : is_partitioned e.mono₂ w.app.db_gate ≡ false)
    (o₃ : is_partitioned e.mono₃ w.app.db_gate ≡ false) (s₁ : IsSerial e.later₁)
    (s₂ : IsSerial e.later₂) where
  pub replies :
      (ss : List Submission)
      → map
          (λ (s : Submission). audited (u.print s.job) (handle_audit u e (some (u.print s.job)) w))
          ss
        ≡ map (snapshot u w.db) ss
  replies [] = refl
  replies (s ∷ ss) = rw (audit_reply u e w s up o₁ o₂ o₃ s₁ s₂, replies ss) refl

  -- On any reachable database, with the jobs tracked under their keys, `_verify` reports exactly
  -- the unfinished jobs, as lost: no duplicate, no double or stale commit, no disorder of fences
  -- in one job or over all, and no audit that fails.
  pub verify-reachable :
      (ss : List Submission)
      → Reach u init w.db
      → All (IsStored w.db) ss
      → Pairs (λ (s t : Submission). s.job ≢ t.job) ss
      → verify (map (tracked u) ss) (
          map
            (λ (s : Submission).
              audited (u.print s.job) (handle_audit u e (some (u.print s.job)) w))
            ss)
        ≡ unfinished_jobs u w.db ss
  unfolding verify
  verify-reachable ss r h n =
      let c = Reach-IsConsistent init-IsConsistent r in
      rw (
        replies ss,
        dedup_clean u w.db ss ss h n,
        audits_clean u w.db ss c h,
        global_clean u w.db ss c n,
        append-nil,
      )
