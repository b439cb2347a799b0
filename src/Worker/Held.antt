-- ===== src/Worker/Held.antt =====
-- How many tasks of worker/worker.py hold a slot, counted.
use chaos_harness.Common.{ℕ, ◌+◌, ◌-◌, ◌≡◌, refl, List, [], ◌∷◌, ◌++◌, arith, length, select}
use chaos_harness.Worker.{ResizableSemaphore, release}
use chaos_harness.Worker.Tasks.{Task, holds, release_all}

-- How many tasks hold a slot.
unfoldable pub held : List Task → ℕ
unfolding holds
held ts = length (select holds ts)

pub held-append : (xs ys : List Task) → held (xs ++ ys) ≡ held xs + held ys
unfolding held select
held-append [] ys = omega arith
held-append (x ∷ xs) ys = ground (arith, held-append xs ys)

pub release_all-held :
    (ts : List Task) (s : ResizableSemaphore)
    → ((release_all ts s).in_use ≡ s.in_use - held ts) × ((release_all ts s).limit ≡ s.limit)
unfolding release_all release held select
release_all-held [] s = (omega arith, refl)
release_all-held (t ∷ ts) s =
    let (used, limit) = release_all-held ts s in (ground (arith, used), ground (arith, limit))

-- A task in the middle changes its phase, or goes.
pub moved :
    (before after : List Task) (x y : Task) (ts : List Task)
    → ts ≡ before ++ x ∷ after
    → held ts + held (y ∷ []) ≡ held (before ++ y ∷ after) + held (x ∷ [])
unfolding held select
moved before after x y ts e =
    rw e (ground (arith, held-append before (x ∷ after), held-append before (y ∷ after)))

pub gone :
    (before after : List Task) (x : Task) (ts : List Task)
    → ts ≡ before ++ x ∷ after
    → held ts ≡ held (before ++ after) + held (x ∷ [])
unfolding held select
gone before after x ts e =
    rw e (ground (arith, held-append before (x ∷ after), held-append before after))
