-- ===== src/Cluster/Scan.antt =====
-- The scan of `_reap_round` of coordinator/reaper.py: which overdue leases one round takes.
use chaos_harness.Common.{ℕ, ◌≤◌, ◌≡◌, List, length, All}
use chaos_harness.Schema.{Lease}

abbrev pub Earlier : Lease → Lease → Type 0
Earlier l m = l.expires_at_ms ≤ m.expires_at_ms

-- The list is cut only at its full length, and behind what expires earlier.
abbrev pub IsCut : ℕ → Lease → List Lease → Type 0
IsCut n x taken = (length taken ≡ n) × All (λ c. Earlier c x) taken
