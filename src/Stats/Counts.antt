-- ===== src/Stats/Counts.antt =====
-- What the counts of /stats say of the queue and of the leases: the snapshot of coordinator/stats.py
-- on a reachable database.
use chaos_harness.Common.{
  ℕ, suc, ◌+◌, ◌≤◌, ◌≡◌, refl, sym, ap, ◌∙◌, inl, inr, Bool, true, false, ◌&&◌, Option, some, none,
  List, [], ◌∷◌, arith, ◌==◌, if◌then◌else◌, select, exists, All, All-mono, Bool-cases, &&_parts,
  ==_sym,
}
use chaos_harness.Schema.{
  JobState, pending, leased, succeeded, failed, cancelled, Job, Lease, Commit, Db, init, is_live,
  state_of, leases_of, accepted_of, state_eq_leased,
}
use chaos_harness.Schema.Lookup.{AreDistinct, All-self, state_of-In}
use chaos_harness.Runtime.{PgText}
use chaos_harness.Protocol.{IsExpired, IsHeld, IsOwned}
use chaos_harness.Cluster.{Reach}
use chaos_harness.Cluster.Consistent.{IsConsistent}
use chaos_harness.Cluster.Invariant.{Reach-IsConsistent, init-IsConsistent}
use chaos_harness.Stats.{snapshot, count, is_leased, is_held, is_stuck, is_expiring}

module _ {A : Type 0} where
  count_le :
      (p q : A → Bool) (xs : List A) → ((a : A) → p a ≡ true → q a ≡ true) → count p xs ≤ count q xs
  unfolding count select
  count_le p q [] h = omega arith
  count_le p q (x ∷ xs) h = ground (arith, h x, count_le p q xs h)

  count_same : (p q : A → Bool) (xs : List A) → ((a : A) → p a ≡ q a) → count p xs ≡ count q xs
  unfolding count select
  count_same p q [] h = refl
  count_same p q (x ∷ xs) h = ground (arith, h x, count_same p q xs h)

  -- Two conditions that no entry meets together.
  count_either :
      (p q : A → Bool) (xs : List A)
      → ((a : A) → p a ≡ true → q a ≡ false)
      → count (λ a. if p a then true else q a) xs ≡ count p xs + count q xs
  unfolding count select
  count_either p q [] h = refl
  count_either p q (x ∷ xs) h = ground (arith, h x, count_either p q xs h)

  count-select : (p q : A → Bool) (xs : List A) → count q (select p xs) ≡ count (λ a. p a && q a) xs
  unfolding count select
  count-select p q [] = refl
  count-select p q (x ∷ xs) = ground (arith, count-select p q xs)

  count_zero : (p : A → Bool) (xs : List A) → ((a : A) → p a ≡ false) → count p xs ≡ 0
  unfolding count select
  count_zero p [] h = refl
  count_zero p (x ∷ xs) h = ground (arith, h x, count_zero p xs h)

none_live : (ls : List Lease) → All IsExpired ls → count is_live ls ≡ 0
unfolding count select
none_live [] h = refl
none_live (l ∷ ls) h = rw h.0 (none_live ls h.1)

one_held : (ls : List Lease) → IsHeld ls → count is_live ls ≡ 1
unfolding count select
one_held [] h = absurd h
one_held (l ∷ ls) h = rw h.0 (ap suc (none_live ls h.1))

-- A job that the query finds leased has exactly one live lease.
leased_one :
    (s : Option JobState) (ls : List Lease) (cs : List Commit)
    → IsOwned s ls cs
    → s ≡ some leased
    → count is_live ls ≡ 1
leased_one (some leased) ls cs o e = one_held ls o.0
leased_one none ls cs o e = cc
leased_one (some pending) ls cs o e = cc
leased_one (some succeeded) ls cs o e = cc
leased_one (some failed) ls cs o e = cc
leased_one (some cancelled) ls cs o e = cc

-- The live leases of one job, among all.
abbrev of_job : ℕ → Lease → Bool
of_job j l = l.job_id == j && is_live l

abbrev live_held : List Job → Lease → Bool
live_held rs l = is_live l && is_held rs l

held_cons :
    (r : Job) (rs : List Job) (l : Lease)
    → live_held (r ∷ rs) l ≡ (if is_leased r && of_job r.job_id l then true else live_held rs l)
unfolding is_held exists
held_cons r rs l = ground (arith, ==_sym r.job_id l.job_id)

not_held :
    (r : Job) (rs : List Job) (l : Lease)
    → state_of r.job_id rs ≡ none
    → of_job r.job_id l ≡ true
    → live_held rs l ≡ false
unfolding is_held exists state_of
not_held r [] l h q = ground arith
not_held r (s ∷ rs) l h q = ground (arith, not_held r rs l)

none_held : (l : Lease) → live_held [] l ≡ false
unfolding is_held exists
none_held l = ground arith

count_more :
    (r : Job) (rs : List Job)
    → count is_leased (r ∷ rs)
      ≡ (if is_leased r then suc (count is_leased rs) else count is_leased rs)
unfolding count select
count_more r rs = ground arith

-- In flight are the live leases whose job is leased.
held_count :
    (rs : List Job) (ls : List Lease)
    → AreDistinct rs
    → All (λ r. is_leased r ≡ true → count (of_job r.job_id) ls ≡ 1) rs
    → count (live_held rs) ls ≡ count is_leased rs
held_count [] ls d h = count_zero (live_held []) ls none_held ∙ unfold count select in refl
held_count (r ∷ rs) ls d h =
    let mine = λ (l : Lease). is_leased r && of_job r.job_id l in
    let same =
      count_same (live_held (r ∷ rs)) (λ l. if mine l then true else live_held rs l) ls
        (held_cons r rs) in
    let both =
      count_either mine (live_held rs) ls
        (λ l q. not_held r rs l d.0 (&&_parts (is_leased r) (of_job r.job_id l) q).1) in
    let rest = held_count rs ls d.2 h.1 in
    let more = count_more r rs in
    elim (Bool-cases (is_leased r)) [
      | inl e ↦
          let one = count_same mine (of_job r.job_id) ls (λ l. rw e refl) ∙ h.0 e in
          ground (arith, same, both, rest, more, one)
      | inr e ↦
          let zero = count_zero mine ls (λ l. rw e refl) in
          ground (arith, same, both, rest, more, zero)
    ]

module _ (d : Db) (c : IsConsistent d) where
  one_each : All (λ r. is_leased r ≡ true → count (of_job r.job_id) d.leases ≡ 1) d.jobs
  unfolding leases_of
  one_each =
      All-mono d.jobs
        (λ r m e.
          sym (count-select (λ l. l.job_id == r.job_id) is_live d.leases)
          ∙ leased_one (state_of r.job_id d.jobs) (leases_of r.job_id d.leases)
              (accepted_of r.job_id d.commits) (c.sound r.job_id).owned
              (state_of-In r d.jobs c.distinct m ∙ ap some (state_eq_leased r.state e)))
        (All-self d.jobs)

-- On every reachable database, whatever the clock answers for each row: the jobs in flight are as
-- many as the live leases whose job is leased; the stuck leases are no more than these, and these,
-- like the expiring ones, no more than the active leases.
pub snapshot_counts :
    {u : PgText} {d : Db} (now₁ now₂ : Lease → ℕ)
    → Reach u init d
    → ((snapshot now₁ now₂ d).in_flight ≡ count (λ l. is_live l && is_held d.jobs l) d.leases)
      × ((snapshot now₁ now₂ d).stuck ≤ (snapshot now₁ now₂ d).in_flight)
      × ((snapshot now₁ now₂ d).in_flight ≤ (snapshot now₁ now₂ d).active_leases)
      × ((snapshot now₁ now₂ d).expiring ≤ (snapshot now₁ now₂ d).active_leases)
unfolding snapshot
snapshot_counts {d = d} now₁ now₂ r =
    let c = Reach-IsConsistent init-IsConsistent r in
    let flight = held_count d.jobs d.leases c.distinct (one_each d c) in
    let stuck =
      count_le (is_stuck now₁ d.jobs) (live_held d.jobs) d.leases
        (λ l q. unfold is_stuck in ground arith) in
    let held = count_le (live_held d.jobs) is_live d.leases (λ l q. (&&_parts (is_live l) _ q).0) in
    let expiring =
      count_le (is_expiring now₂) is_live d.leases (λ l q. unfold is_expiring in ground arith) in
    (sym flight, omega (arith, flight), omega (arith, flight), expiring)
