-- ===== src/Harness/Run.antt =====
-- A run of chaos_harness.py against the coordinators: the replies that `_submit_one` gets, its ledger
-- of them, and `_verify` at the end.
use chaos_harness.Common.{
  ℕ, String, ◌≡◌, ◌≢◌, refl, sym, ap, ◌∙◌, inl, inr, Bool, true, false, some, List, [], ◌∷◌, ◌++◌,
  map, str_eq, exists, All, Pairs, All-mono, All-append, Bool-cases,
}
use chaos_harness.Json.{Fields, str, obj, get}
use chaos_harness.Schema.{Db, init, id_of_key}
use chaos_harness.Schema.Lookup.{In}
use chaos_harness.Runtime.{World, PgText}
use chaos_harness.Runtime.Gate.{ok, is_partitioned}
use chaos_harness.Jobs.{CreateEnv, handle_create_job, created_reply}
use chaos_harness.Audit.{AuditEnv}
use chaos_harness.Cluster.{Step, Reach, here, next, IsSerial}
use chaos_harness.Cluster.Logs.{Reach_trans}
use chaos_harness.Cluster.Keys.{IsKeyOf, Reach-IsKeyOf}
use chaos_harness.Cluster.Dedup.{reply-IsKeyOf}
use chaos_harness.Harness.{Tracked, record_reply, verify}
use chaos_harness.Harness.Global.{Submission, tracked}
use chaos_harness.Harness.Clean.{IsStored, unfinished_jobs, verify-reachable}
use chaos_harness.Harness.Submissions.{ledger, IsDeduped, ledger_clean, ledger_all, ledger_only}
use chaos_harness.Harness.Verdict.{audits}

-- The replies that name a job, each with the key that was sent, the last to arrive first; and the
-- database. A reply may arrive before or after any other, or never.
pub data HarnessRun (u : PgText) : List (String × String) → Db → Type 0 where
  starts : HarnessRun u [] init
  passes :
      {rs : List (String × String)} {d d' : Db}
      → HarnessRun u rs d
      → Reach u d d'
      → HarnessRun u rs d'
  replies :
      (before after : List (String × String)) (e : CreateEnv) (key : String) (fs : Fields)
      (w : World) (b : Bool) (j : ℕ)
      → HarnessRun u (before ++ after) w.db
      → get "idempotency_key" fs ≡ str key
      → (handle_create_job u e (some (obj fs)) w).0 ≡ ok (created_reply u b j)
      → HarnessRun u
          (before ++ (key, u.print j) ∷ after)
          (handle_create_job u e (some (obj fs)) w).1.db

-- The id in a reply is that of the job that the database has under the key.
abbrev Holds : PgText → Db → String × String → Type 0
Holds u d r = (j : ℕ) × (r.1 ≡ u.print j) × IsKeyOf r.0 j d

Holds-mono :
    (u : PgText) (d d' : Db) (r : String × String) → Reach u d d' → Holds u d r → Holds u d' r
Holds-mono u d d' r run (j, e, k) = (j, e, Reach-IsKeyOf r.0 j run k)

split-All : {A : Type 0} (P : A → Type 0) (xs ys : List A) → All P (xs ++ ys) → All P xs × All P ys
split-All P [] ys h = (tt, h)
split-All P (x ∷ xs) ys h = let (l, r) = split-All P xs ys h.1 in ((h.0, l), r)

module _ (u : PgText) where
  run-Reach : {rs : List (String × String)} {d : Db} → HarnessRun u rs d → Reach u init d
  run-Reach starts = here
  run-Reach (passes r s) = Reach_trans (run-Reach r) s
  run-Reach (replies before after e key fs w b j r named h) =
      next (run-Reach r) (Step.create e (some (obj fs)) w refl refl)

  run-Holds : {rs : List (String × String)} {d : Db} → HarnessRun u rs d → All (Holds u d) rs
  run-Holds starts = tt
  run-Holds (passes {rs = rs} {d = d} {d' = d'} r s) =
      All-mono rs (λ x. Holds-mono u d d' x s) (run-Holds r)
  run-Holds (replies before after e key fs w b j r named h) =
      let step = next here (Step.create e (some (obj fs)) w refl refl) in
      let (l, m) =
        split-All _ before after
          (All-mono (before ++ after) (λ x. Holds-mono u _ _ x step) (run-Holds r)) in
      All-append _ before ((key, u.print j) ∷ after) l
        ((j, refl, reply-IsKeyOf u key e fs w named b j h), m)

-- One key has one id.
same_id :
    (u : PgText) (d : Db) (r s : String × String)
    → Holds u d r
    → Holds u d s
    → r.0 ≡ s.0
    → r.1 ≡ s.1
same_id u d r s (i, p, k) (j, q, l) e =
    let ids : some i ≡ some j = sym k ∙ ap (λ x. id_of_key x d.jobs) e ∙ l in
    let job : i ≡ j = cc ids in p ∙ ap u.print job ∙ sym q

Holds-IsDeduped :
    (u : PgText) (d : Db) (rs : List (String × String)) → All (Holds u d) rs → IsDeduped rs
Holds-IsDeduped u d [] h = tt
Holds-IsDeduped u d (r ∷ rs) h =
    (All-mono rs (λ s. same_id u d r s h.0) h.1, Holds-IsDeduped u d rs h.1)

-- A tracked job is stored under its key.
abbrev IsTracked : PgText → Db → Tracked → Type 0
IsTracked u d t = (j : ℕ) × (t.jid ≡ u.print j) × IsKeyOf t.key j d

ledger-IsTracked :
    (u : PgText) (d : Db) (rs : List (String × String))
    → All (Holds u d) rs
    → All (IsTracked u d) (ledger rs).jobs
unfolding ledger record_reply
ledger-IsTracked u d [] h = tt
ledger-IsTracked u d ((key, jid) ∷ rs) h =
    let rest = ledger-IsTracked u d rs h.1 in
    elim (Bool-cases (exists (λ (t : Tracked). str_eq t.jid jid) (ledger rs).jobs)) [
      | inl e ↦ rw e rest
      | inr e ↦ rw e (h.0, rest)
    ]

-- The jobs of the ledger, as submissions.
module _ (u : PgText) (d : Db) where
  submissions : (ts : List Tracked) → All (IsTracked u d) ts → List Submission
  submissions [] h = []
  submissions (t ∷ ts) h = record { job = h.0.0; key = t.key } ∷ submissions ts h.1

  submissions-tracked :
      (ts : List Tracked) (h : All (IsTracked u d) ts) → ts ≡ map (tracked u) (submissions ts h)
  unfolding submissions
  submissions-tracked [] h = refl
  submissions-tracked (t ∷ ts) h =
      let (j, e, k) = h.0 in
      let first : t ≡ record { jid = u.print j; key = t.key } =
        ap (λ (x : String). record t { jid = x }) e in
      let rest = submissions-tracked ts h.1 in cc

  submissions-IsStored :
      (ts : List Tracked) (h : All (IsTracked u d) ts) → All (IsStored d) (submissions ts h)
  unfolding submissions
  submissions-IsStored [] h = tt
  submissions-IsStored (t ∷ ts) h = (h.0.2, submissions-IsStored ts h.1)

  apart :
      (t : Tracked) (j : ℕ) (ts : List Tracked) (h : All (IsTracked u d) ts)
      → t.jid ≡ u.print j
      → All (λ (s : Tracked). t.jid ≢ s.jid) ts
      → All (λ (s : Submission). j ≢ s.job) (submissions ts h)
  unfolding submissions
  apart t j [] h e n = tt
  apart t j (s ∷ ts) h e n = (λ same. n.0 (e ∙ ap u.print same ∙ sym h.0.1), apart t j ts h.1 e n.1)

  submissions-distinct :
      (ts : List Tracked) (h : All (IsTracked u d) ts)
      → Pairs (λ (s t : Tracked). s.jid ≢ t.jid) ts
      → Pairs (λ (s t : Submission). s.job ≢ t.job) (submissions ts h)
  unfolding submissions
  submissions-distinct [] h n = tt
  submissions-distinct (t ∷ ts) h n =
      (apart t h.0.0 ts h.1 h.0.1 n.0, submissions-distinct ts h.1 n.1)

-- At the end of a harness run, whatever replies were lost and in whatever order the others came:
-- the harness has logged no violation of the deduplication; it tracks each job that a reply names,
-- and none but those, with the key of such a reply; each job that it tracks is stored under its key;
-- and, the gate being open for the audits and nothing written between their queries,
-- `_verify` reports exactly the tracked jobs that are unfinished, as lost.
pub run_verified :
    (u : PgText) (rs : List (String × String)) (e : AuditEnv) (w : World)
    → HarnessRun u rs w.db
    → w.app.db_gate.connected ≡ true
    → is_partitioned e.mono₁ w.app.db_gate ≡ false
    → is_partitioned e.mono₂ w.app.db_gate ≡ false
    → is_partitioned e.mono₃ w.app.db_gate ≡ false
    → IsSerial e.later₁
    → IsSerial e.later₂
    → ((ledger rs).distinct_ids_logged ≡ 0)
      × All (λ (r : String × String). In r.1 (map (λ (t : Tracked). t.jid) (ledger rs).jobs)) rs
      × All (λ (t : Tracked). In (t.key, t.jid) rs) (ledger rs).jobs
      × (ss : List Submission) × ((ledger rs).jobs ≡ map (tracked u) ss)
      × All (IsStored w.db) ss
      × (verify (ledger rs).jobs (audits u e w ss) ≡ unfinished_jobs u w.db ss)
run_verified u rs e w run up o₁ o₂ o₃ s₁ s₂ =
    let held = run-Holds u run in
    let (quiet, once) = ledger_clean rs (Holds-IsDeduped u w.db rs held) in
    let known = ledger-IsTracked u w.db rs held in
    let jobs = (ledger rs).jobs in
    let ss = submissions u w.db jobs known in
    let all = submissions-tracked u w.db jobs known in
    let stored = submissions-IsStored u w.db jobs known in
    (
      quiet,
      ledger_all rs,
      ledger_only rs,
      ss,
      all,
      stored,
      ap (λ ts. verify ts (audits u e w ss)) all
          ∙ verify-reachable u e w up o₁ o₂ o₃ s₁ s₂ ss (run-Reach u run) stored
              (submissions-distinct u w.db jobs known once),
    )
