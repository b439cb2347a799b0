-- ===== src/Cluster/Safety.antt =====
-- What the invariant gives of a job over a whole run of coordinator/*.py.
use chaos_harness.Common.{
  ℕ, ◌<◌, ◌≤◌, ◌≡◌, refl, ◌⊎◌, inl, inr, Option, none, some, List, [], ◌∷◌, arith, length, select,
  All,
}
use chaos_harness.Common.Int.{pos}
use chaos_harness.Schema.{
  JobState, pending, leased, succeeded, failed, cancelled, Transition, Lease, Commit, Db, init,
  is_live, state_of, leases_of, transitions_of,
}
use chaos_harness.Runtime.{PgText}
use chaos_harness.Protocol.{View, Walk, IsExpired, IsFalling, IsOwned}
use chaos_harness.Cluster.{Reach, view}
use chaos_harness.Cluster.Invariant.{Reach-IsConsistent, init-IsConsistent}

-- A job with an accepted commit has exactly one, under its latest fence, and has succeeded.
abbrev pub CommittedOnce : View → Type 0
CommittedOnce v =
    ((v.accepted ≡ []) × (v.state ≡ some succeeded → ⊥))
    ⊎ ((c : Commit) × (l : Lease) × (ls : List Lease) × (v.accepted ≡ c ∷ [])
        × (v.leases ≡ l ∷ ls)
        × (c.fence ≡ pos l.fence)
        × All (λ m. m.fence < l.fence) ls
        × (v.state ≡ some succeeded))

committed :
    (s : Option JobState) (ls : List Lease) (cs : List Commit) (ts : List Transition)
    → IsOwned s ls cs
    → IsFalling ls
    → CommittedOnce (record { state = s; leases = ls; accepted = cs; history = ts })
committed none ls cs ts o f = inl (o.1, λ e. cc)
committed (some pending) ls cs ts o f = inl (o.1, λ e. cc)
committed (some leased) ls cs ts o f = inl (o.1, λ e. cc)
committed (some failed) ls cs ts o f = absurd o
committed (some cancelled) ls cs ts o f = inl (o.1, λ e. cc)
committed (some succeeded) [] cs ts o f = absurd o
committed (some succeeded) (l ∷ ls) [] ts o f = absurd o
committed (some succeeded) (l ∷ ls) (c ∷ _ ∷ _) ts o f = absurd o
committed (some succeeded) (l ∷ ls) (c ∷ []) ts o f = inr (c, l, ls, refl, refl, o.0, f.0, refl)

-- On every database reachable from the empty one: a job has no accepted commit and has not
-- succeeded, or it has exactly one, whose fence is larger than that of all its other leases, and
-- it has succeeded.
pub committed_once : {u : PgText} {d : Db} → Reach u init d → (j : ℕ) → CommittedOnce (view j d)
committed_once {d = d} r j =
    let s = (Reach-IsConsistent init-IsConsistent r).sound j in
    committed (view j d).state (view j d).leases (view j d).accepted (view j d).history s.owned
      s.falling

live_none : (ls : List Lease) → All IsExpired ls → select is_live ls ≡ []
unfolding select
live_none [] h = refl
live_none (l ∷ ls) h = rw h.0 (live_none ls h.1)

live_one : (l : Lease) (ls : List Lease) → All IsExpired ls → length (select is_live (l ∷ ls)) ≤ 1
unfolding select
live_one l ls h = ground (arith, live_none ls h)

live_bound :
    (s : Option JobState) (ls : List Lease) (cs : List Commit)
    → IsOwned s ls cs
    → length (select is_live ls) ≤ 1
unfolding select
live_bound none ls cs o = rw o.0 (omega arith)
live_bound (some pending) ls cs o = rw (live_none ls o.0) (omega arith)
live_bound (some leased) [] cs o = absurd o.0
live_bound (some leased) (l ∷ ls) cs o = live_one l ls o.0.1
live_bound (some failed) ls cs o = absurd o
live_bound (some cancelled) ls cs o = rw (live_none ls o.0) (omega arith)
live_bound (some succeeded) [] cs o = absurd o
live_bound (some succeeded) (l ∷ ls) [] o = absurd o
live_bound (some succeeded) (l ∷ ls) (c ∷ _ ∷ _) o = absurd o
live_bound (some succeeded) (l ∷ ls) (c ∷ []) o = live_one l ls o.1

-- On every reachable database a job has at most one lease that is not expired.
pub one_live_lease :
    {u : PgText} {d : Db}
    → Reach u init d
    → (j : ℕ) → length (select is_live (leases_of j d.leases)) ≤ 1
one_live_lease {d = d} r j =
    live_bound (view j d).state (view j d).leases (view j d).accepted
      ((Reach-IsConsistent init-IsConsistent r).sound j).owned

-- On every reachable database the log of a job's transitions is a walk of the state machine, from
-- the submission, that ends in the job's state.
pub history-Walk :
    {u : PgText} {d : Db}
    → Reach u init d
    → (j : ℕ) → Walk (state_of j d.jobs) (transitions_of j d.job_transitions)
history-Walk r j = ((Reach-IsConsistent init-IsConsistent r).sound j).walk
