-- ===== src/Cluster/Logs.antt =====
-- job_transitions of db/schema.sql over a run of coordinator/*.py: the log only grows, under ids
-- that rise.
use chaos_harness.Common.{
  ℕ, suc, Bool, false, Option, ◌<◌, ◌≤◌, String, ◌≡◌, refl, sym, ap, ◌∙◌, subst, inl, inr, none,
  some, List, [], ◌∷◌, ◌++◌, arith, All, All-mono, All-append, Bool-cases, Option-cases, select,
}
use mathlib.Core.List.{append_assoc}
use chaos_harness.Common.Int.{ℤ}
use chaos_harness.Json.{Json}
use chaos_harness.Schema.{
  JobState, pending, leased, succeeded, failed, cancelled, Transition, Db, state_of, id_of_key,
  record_transition, issue_fence,
}
use chaos_harness.Runtime.{PgText}
use chaos_harness.Runtime.Gate.{ok}
use chaos_harness.Jobs.{CreateEnv, CancelEnv, add_job, insert_job, cancel_job}
use chaos_harness.Dispatch.{ClaimEnv, claim, claimable, oldest, default_issue}
use chaos_harness.Commit.{CommitEnv, renew, accept, insert_commit}
use chaos_harness.Reaper.{ReapEnv, reap, expire, may_requeue, requeue}
use chaos_harness.Cluster.{Step, Reach, here, next}
use chaos_harness.Cluster.Tables.{
  create_cases, claim_cases, heartbeat_cases, reap_cases, cancel_cases, commit_cases,
}

-- Ids fall along the rows, below a bound.
abbrev pub Falls : ℕ → List Transition → Type 0
Falls b [] = Unit
Falls b (t ∷ ts) = (t.id < b) × Falls t.id ts

-- The rows that a run adds: under ids above those that were taken.
pub record Grows (d d' : Db) : Type 0 where
  pub added : List Transition
  pub rows : d'.job_transitions ≡ added ++ d.job_transitions
  pub above : All (λ t. d.transition_ids < t.id) added
  pub rising : d.transition_ids ≤ d'.transition_ids
  pub falls :
      Falls (suc d.transition_ids) d.job_transitions
      → Falls (suc d'.transition_ids) d'.job_transitions

pub Falls-mono : (b b' : ℕ) (ts : List Transition) → b ≤ b' → Falls b ts → Falls b' ts
Falls-mono b b' [] h k = tt
Falls-mono b b' (t ∷ ts) h k = (omega arith, k.1)

abbrev kept :
    {d d' : Db}
    → d'.job_transitions ≡ d.job_transitions
    → d.transition_ids ≤ d'.transition_ids
    → Grows d d'
kept {d} {d'} e h = record {
  added = [];
  rows = e;
  above = tt;
  rising = h;
  falls = λ f.
      rw e (
        Falls-mono (suc d.transition_ids) (suc d'.transition_ids) d.job_transitions (omega arith)
          f);
}

abbrev one :
    {d d' : Db} (t : Transition)
    → d'.job_transitions ≡ t ∷ d.job_transitions
    → t.id ≡ suc d.transition_ids
    → d'.transition_ids ≡ suc d.transition_ids
    → Grows d d'
one {d} {d'} t e i k = record {
  added = t ∷ [];
  rows = e;
  above = (omega arith, tt);
  rising = omega arith;
  falls = λ f.
      rw e (omega arith, Falls-mono (suc d.transition_ids) t.id d.job_transitions (omega arith) f);
}

Grows-self : (d : Db) → Grows d d
Grows-self d = kept refl (omega arith)

Grows_trans : {d d' d'' : Db} → Grows d d' → Grows d' d'' → Grows d d''
Grows_trans {d} {d'} {d''} g h = record {
  added = h.added ++ g.added;
  rows =
      h.rows
      ∙ ap (λ ts. h.added ++ ts) g.rows
      ∙ sym (append_assoc h.added g.added d.job_transitions);
  above =
      All-append _ h.added g.added
        (All-mono h.added (λ t q. let m = g.rising in omega arith) h.above) g.above;
  rising = let m = g.rising in let n = h.rising in omega arith;
  falls = λ f. h.falls (g.falls f);
}

module _ (d : Db) where
  insert-Grows :
      (e : CreateEnv) (key : String) (payload : Json) (coord : String) (b : Bool) (j : ℕ) (d' : Db)
      → insert_job e key payload coord d ≡ ok (b, j, d')
      → Grows d d'
  unfolding insert_job add_job record_transition
  insert-Grows e key payload coord b j d' q = elim (Option-cases (id_of_key key d.jobs)) [
    | inr (k, r) ↦ let same : d ≡ d' = ground arith in subst (Grows d) same (Grows-self d)
    | inl r ↦ elim (Option-cases (state_of e.new_id d.jobs)) [
      | inr (s, t) ↦ absurd (ground arith)
      | inl t ↦
          let same : add_job e key payload coord d ≡ d' = ground arith in
          subst (Grows d) same (one _ refl refl refl)
    ]
  ]

  cancel_at :
      (e : CancelEnv) (j : ℕ) (coord : String) (s : Option JobState)
      → state_of j d.jobs ≡ s
      → Grows d (cancel_job e j coord d).1
  unfolding cancel_job record_transition
  cancel_at e j coord (some pending) q = rw (q, cancel_job) (one _ refl refl refl)
  cancel_at e j coord (some leased) q = rw (q, cancel_job) (Grows-self d)
  cancel_at e j coord (some succeeded) q = rw (q, cancel_job) (Grows-self d)
  cancel_at e j coord (some failed) q = rw (q, cancel_job) (Grows-self d)
  cancel_at e j coord (some cancelled) q = rw (q, cancel_job) (Grows-self d)
  cancel_at e j coord none q = rw (q, cancel_job) (Grows-self d)

  claim-Grows :
      (e : ClaimEnv) (worker : String) (ttl : ℕ) (coord : String)
      → Grows d (claim e worker ttl coord d).1
  unfolding claim default_issue issue_fence record_transition
  claim-Grows e worker ttl coord =
      elim (Option-cases (oldest (select (claimable e.locked) d.jobs))) [
        | inl q ↦ rw (q, claim) (Grows-self d)
        | inr (r, q) ↦ rw (q, claim) (one _ refl refl refl)
      ]

  renew-Grows : (now j : ℕ) (f : ℤ) (ttl : ℕ) → Grows d (renew now j f ttl d)
  unfolding renew
  renew-Grows now j f ttl = kept refl (omega arith)

  reap-Grows : (e : ReapEnv) (id j f : ℕ) (coord : String) → Grows d (reap e id j f coord d).1
  unfolding reap requeue record_transition
  reap-Grows e id j f coord =
      elim (Bool-cases (may_requeue j f (record d { leases = expire e id d.leases }))) [
        | inl q ↦ rw q (one _ refl refl refl)
        | inr q ↦ rw q (kept refl (omega arith))
      ]

  accept-Grows :
      (e : CommitEnv) (j : ℕ) (f : ℤ) (result : Json) (worker coord : String)
      → Grows d (accept e j f result worker coord d)
  unfolding accept insert_commit record_transition
  accept-Grows e j f result worker coord = one _ refl refl refl

  reject-Grows :
      (now j : ℕ) (f : ℤ) (worker : String) → Grows d (insert_commit now j f worker false d)
  unfolding insert_commit
  reject-Grows now j f worker = kept refl (omega arith)

-- From a world whose database is d.
at_db : {d d' : Db} (d₁ d₂ : Db) → d₁ ≡ d → d' ≡ d₂ → Grows d₁ d₂ → Grows d d'
at_db {d' = d'} d₁ d₂ from to g = subst (λ x. Grows x d') from (subst (Grows d₁) (sym to) g)

Step-Grows : {u : PgText} {d d' : Db} → Step u d d' → Grows d d'
Step-Grows {u} (Step.create e body w from to) = at_db w.db _ from to (
    create_cases (Grows w.db) u e body w (Grows-self w.db)
      λ key payload b j d q. insert-Grows w.db e key payload w.app.coord_id b j d q)
Step-Grows {u} (Step.cancel e id w serial from to) = at_db w.db _ from to (
    cancel_cases (Grows w.db) u e id w (λ d h. subst (Grows w.db) (sym (serial d)) h)
      (Grows-self w.db) λ j. cancel_at w.db e j w.app.coord_id _ refl)
Step-Grows {u} (Step.claim e w from to) = at_db w.db _ from to (
    claim_cases (Grows w.db) u e w (Grows-self w.db)
      (claim-Grows w.db e w.conn.worker_id w.app.lease_ttl_ms w.app.coord_id))
Step-Grows {u} (Step.heartbeat mono now m w from to) = at_db w.db _ from to (
    heartbeat_cases (Grows w.db) u mono now m w (Grows-self w.db)
      λ j f. renew-Grows w.db now j f w.app.lease_ttl_ms)
Step-Grows {u} (Step.commit e m w serial from to) =
    let same = sym (serial w.db) in
    at_db w.db _ from to (
      commit_cases (Grows w.db) u e w (Grows-self w.db) (subst (Grows w.db) same (Grows-self w.db))
        (λ j f result valid free.
          subst (λ x. Grows w.db (accept e j f result w.conn.worker_id w.app.coord_id x)) same
            (accept-Grows w.db e j f result w.conn.worker_id w.app.coord_id))
        (λ j f.
          subst (λ x. Grows w.db (insert_commit e.insert_ms j f w.conn.worker_id false x)) same
            (reject-Grows w.db e.insert_ms j f w.conn.worker_id))
        m)
Step-Grows {u} (Step.reap e row w scanned from to) = at_db w.db _ from to (
    reap_cases (Grows w.db) u e row w (Grows-self w.db)
      λ l q. reap-Grows w.db e row.id row.job_id row.fence w.app.coord_id)
Step-Grows {u} {d} (Step.burn fences transitions leases commits to) =
    subst (Grows d) (sym to) (kept refl (omega arith))

pub Reach-Grows : {u : PgText} {d d' : Db} → Reach u d d' → Grows d d'
Reach-Grows {d = d} here = Grows-self d
Reach-Grows (next r s) = Grows_trans (Reach-Grows r) (Step-Grows s)

pub Reach_trans : {u : PgText} {a b c : Db} → Reach u a b → Reach u b c → Reach u a c
Reach_trans r here = r
Reach_trans r (next s x) = next (Reach_trans r s) x
