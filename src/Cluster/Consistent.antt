-- ===== src/Cluster/Consistent.antt =====
-- What every reachable database of db/schema.sql satisfies.
use chaos_harness.Common.{ℕ, suc, ◌<◌, List, [], ◌∷◌, arith, All, All-mono, All-select}
use chaos_harness.Schema.{Lease, Db, leases_of}
use chaos_harness.Schema.Lookup.{AreDistinct}
use chaos_harness.Protocol.{IsSound}
use chaos_harness.Cluster.{view}

-- Fences, times of issue and ids fall along the leases, below the three bounds.
abbrev pub IsFresh : ℕ → ℕ → ℕ → List Lease → Type 0
IsFresh f t n [] = Unit
IsFresh f t n (l ∷ ls) =
    (l.fence < f) × (l.issued_at_ms < t) × (l.id < n) × IsFresh l.fence l.issued_at_ms l.id ls

pub record IsConsistent (d : Db) : Type 0 where
  pub distinct : AreDistinct d.jobs
  pub fresh : IsFresh (suc d.fence_seq) (suc d.last_issued) (suc d.lease_ids) d.leases
  pub sound : (j : ℕ) → IsSound (view j d)

pub fences-All : (f t n : ℕ) (ls : List Lease) → IsFresh f t n ls → All (λ m. m.fence < f) ls
fences-All f t n [] h = tt
fences-All f t n (l ∷ ls) h =
    (h.0, All-mono ls (λ m q. omega arith) (fences-All l.fence l.issued_at_ms l.id ls h.3))

-- A job's leases are below any bound on the fences of all.
pub fences_below :
    (i f t n : ℕ) (ls : List Lease) → IsFresh f t n ls → All (λ m. m.fence < f) (leases_of i ls)
unfolding leases_of
fences_below i f t n ls h = All-select _ _ ls (fences-All f t n ls h)
