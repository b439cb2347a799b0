-- ===== src/Harness/OneTrail.antt =====
-- The whole check of one trail of a consistent database by `_verify` of chaos_harness.py.
use mathlib.Core.List.{append-nil}
use chaos_harness.Common.{
  All-select_met, All-unselect, ℕ, ◌<◌, ◌≤◌, String, ◌≡◌, refl, subst, Bool, true, false, ◌&&◌,
  some, List, [], ◌∷◌, arith, ◌==◌, if◌then◌else◌, length, select, exists, All, Pairs, All-mono,
  All-map, Pairs-map,
}
use chaos_harness.Common.Int.{pos}
use chaos_harness.Common.Sort.{All-sort}
use chaos_harness.Schema.{
  JobState, pending, leased, succeeded, failed, cancelled, Lease, Commit, Db, state_of, leases_of,
  accepted_of, transitions_of, commits_of,
}
use chaos_harness.Audit.{
  LeaseEntry, commit_entry, lease_entry, commit_le, lease_le, trail_of, commit_rows, lease_rows,
}
use chaos_harness.Protocol.{Walk, IsOwned, IsFalling}
use chaos_harness.Cluster.Consistent.{IsConsistent}
use chaos_harness.Harness.{lost, is_terminal, tokens, largest, is_stale, count_check, trail_check}
use chaos_harness.Harness.Trails.{
  is_unfinished, accepted_count, ends, end_iff, transitions_end, count_clean,
}
use chaos_harness.Harness.Order.{sorted_leases, order_clean, not_stale, IsCurrent, stale_clean}

-- A bound on a job's fences, where no commit is accepted.
bound :
    (ls : List Lease) (cs : List Commit)
    → cs ≡ []
    → IsFalling ls
    → (top : ℕ) × All (λ l. l.fence ≤ top) ls × All (λ c. c.fence ≡ pos top) cs
bound [] cs e f = (0, tt, rw e tt)
bound (l ∷ ls) cs e f = (l.fence, (omega arith, All-mono ls (λ m q. omega arith) f.0), rw e tt)

-- A bound on a job's fences that each of its accepted commits carries.
top_fence :
    (s : JobState) (ls : List Lease) (cs : List Commit)
    → IsOwned (some s) ls cs
    → IsFalling ls
    → (top : ℕ) × All (λ l. l.fence ≤ top) ls × All (λ c. c.fence ≡ pos top) cs
top_fence pending ls cs o f = bound ls cs o.1 f
top_fence leased ls cs o f = bound ls cs o.1 f
top_fence cancelled ls cs o f = bound ls cs o.1 f
top_fence failed ls cs o f = absurd o
top_fence succeeded [] cs o f = absurd o
top_fence succeeded (l ∷ ls) [] o f = absurd o
top_fence succeeded (l ∷ ls) (c ∷ _ ∷ _) o f = absurd o
top_fence succeeded (l ∷ ls) (c ∷ []) o f =
    (l.fence, (omega arith, All-mono ls (λ m q. omega arith) f.0), (o.0, tt))

module _ (j : ℕ) (d : Db) (top : ℕ) where
  tokens_below :
      All (λ l. l.fence ≤ top) (leases_of j d.leases)
      → All (λ f. f ≤ top) (tokens (trail_of j d d d))
  unfolding trail_of lease_rows
  tokens_below h =
      All-map (λ (l : LeaseEntry). l.fence) (λ f. f ≤ top) _
        (All-map lease_entry (λ l. l.fence ≤ top) _
          (All-sort lease_le (λ l. l.fence ≤ top) (leases_of j d.leases) h))

  commits-IsCurrent :
      All (λ l. l.fence ≤ top) (leases_of j d.leases)
      → All (λ c. c.fence ≡ pos top) (accepted_of j d.commits)
      → All (IsCurrent (largest (tokens (trail_of j d d d)))) (trail_of j d d d).commits
  unfolding trail_of commit_rows accepted_of commits_of
  commits-IsCurrent below h =
      let top_of = largest (tokens (trail_of j d d d)) in
      let fresh : is_stale (pos top) top_of ≡ false = not_stale top _ (tokens_below below) in
      let P : Commit → Type 0 = λ c. c.fence ≡ pos top in
      let mine : Commit → Bool = λ c. c.job_id == j in
      let rows : All (λ c. (mine c ≡ true) × ((mine c && c.accepted) ≡ true → P c))
          (select mine d.commits) =
        All-select_met (λ c. (mine c && c.accepted) ≡ true → P c) mine d.commits
          (All-unselect P (λ c. mine c && c.accepted) d.commits h) in
      All-map commit_entry (IsCurrent top_of) _ (
        All-sort commit_le (λ c. IsCurrent top_of (commit_entry c)) (select mine d.commits)
          (All-mono (select mine d.commits) (λ c k acc. rw (k.1 (rw (k.0, acc) refl)) fresh) rows))

  tokens_rising : IsConsistent d → Pairs (λ a b. a < b) (tokens (trail_of j d d d))
  unfolding trail_of lease_rows
  tokens_rising c =
      Pairs-map (λ (l : LeaseEntry). l.fence) ◌<◌ _
        (Pairs-map lease_entry (λ l m. l.fence < m.fence) _
          (sorted_leases j _ _ _ d.leases c.fresh))

counted :
    (jid : String) (j : ℕ) (d : Db)
    → count_check jid
        (length (select (λ c. c.accepted) (trail_of j d d d).commits))
        (exists is_terminal (trail_of j d d d).transitions)
      ≡ count_check jid
          (length (accepted_of j d.commits))
          (exists ends (transitions_of j d.job_transitions))
unfolding trail_of
counted jid j d = rw (accepted_count j d, transitions_end j d) refl

-- The check of one job's trail reports at most that the job is lost, and that if it is unfinished.
pub trail_clean :
    (jid : String) (j : ℕ) (d : Db) (s : JobState)
    → IsConsistent d
    → state_of j d.jobs ≡ some s
    → trail_check jid (trail_of j d d d) ≡ (if is_unfinished (some s) then lost jid ∷ [] else [])
unfolding trail_check
trail_clean jid j d s c e =
    let sound = c.sound j in
    let owned =
      subst (λ x. IsOwned x (leases_of j d.leases) (accepted_of j d.commits)) e sound.owned in
    let walk = subst (λ x. Walk x (transitions_of j d.job_transitions)) e sound.walk in
    let (top, below, current) =
      top_fence s (leases_of j d.leases) (accepted_of j d.commits) owned sound.falling in
    rw
      (
        order_clean jid (tokens (trail_of j d d d)) (tokens_rising j d top c),
        stale_clean jid _ _ (commits-IsCurrent j d top below current),
        append-nil,
        counted jid j d,
        end_iff s (transitions_of j d.job_transitions) walk,
      )
      (count_clean jid s (leases_of j d.leases) (accepted_of j d.commits) owned)
