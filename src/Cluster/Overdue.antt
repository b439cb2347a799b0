-- ===== src/Cluster/Overdue.antt =====
-- Which leases the expiry of coordinator/reaper.py reaches: the scanned row, and no other.
use chaos_harness.Common.{
  ℕ, ◌<◌, ◌≡◌, refl, sym, ap, ◌∙◌, inl, inr, Bool, true, false, some, List, [], ◌∷◌, arith, first,
  update, Bool-cases, &&_parts, All, All-mono, ◌==◌, ==_iff,
}
use chaos_harness.Schema.{Lease, latest}
use chaos_harness.Reaper.{ReapEnv, to_expire, expire, is_max_fence}
use chaos_harness.Protocol.Sound.{IsFalling-update, latest-falling}
use chaos_harness.Protocol.{IsFalling, Head, mark}
use chaos_harness.Cluster.{IsScanned}
use chaos_harness.Cluster.Consistent.{IsFresh}

-- The scanned row is the only lease with its id, and the only one with its fence.
abbrev pub IsKeyed : Lease → Lease → Type 0
IsKeyed row l =
    ((l.id == row.id) ≡ (l.fence == row.fence)) × ((l.id == row.id) ≡ true → l.job_id ≡ row.job_id)

rows_below :
    (f t n : ℕ) (ls : List Lease) → IsFresh f t n ls → All (λ m. (m.fence < f) × (m.id < n)) ls
rows_below f t n [] h = tt
rows_below f t n (l ∷ ls) h =
    ((h.0, h.2), All-mono ls (λ m q. omega arith) (rows_below l.fence l.issued_at_ms l.id ls h.3))

scanned_below :
    (row : Lease) (f t n : ℕ) (ls : List Lease)
    → IsFresh f t n ls
    → IsScanned row ls
    → (row.fence < f) × (row.id < n)
scanned_below row f t n [] h s = absurd s
scanned_below row f t n (l ∷ ls) h (inl (a, b, c)) = omega arith
scanned_below row f t n (l ∷ ls) h (inr s) =
    let (x, y) = scanned_below row l.fence l.issued_at_ms l.id ls h.3 s in omega arith

pub scanned-IsKeyed :
    (row : Lease) (f t n : ℕ) (ls : List Lease)
    → IsFresh f t n ls
    → IsScanned row ls
    → All (IsKeyed row) ls
scanned-IsKeyed row f t n [] h s = absurd s
scanned-IsKeyed row f t n (l ∷ ls) h (inl (a, b, c)) = (
  (ground arith, λ _. b),
  All-mono ls (λ m q. (ground arith, λ e. ground arith))
      (rows_below l.fence l.issued_at_ms l.id ls h.3),
)
scanned-IsKeyed row f t n (l ∷ ls) h (inr s) =
    let (x, y) = scanned_below row l.fence l.issued_at_ms l.id ls h.3 s in
    ((ground arith, λ e. ground arith), scanned-IsKeyed row l.fence l.issued_at_ms l.id ls h.3 s)

-- The row that the expiring UPDATE finds is the only one with that id.
first_below :
    (e : ReapEnv) (id : ℕ) (r : Lease) (f t n : ℕ) (ls : List Lease)
    → IsFresh f t n ls
    → first (to_expire e id) ls ≡ some r
    → id < n
unfolding first to_expire
first_below e id r f t n [] h q = cc
first_below e id r f t n (l ∷ ls) h q =
    ground (arith, first_below e id r l.fence l.issued_at_ms l.id ls h.3)

due_id : (e : ReapEnv) (id : ℕ) (l : Lease) → to_expire e id l ≡ true → l.id ≡ id
unfolding to_expire
due_id e id l h = (==_iff l.id id).0 (&&_parts _ _ h).0

smaller : (a b c : ℕ) → a < b → (a == c) ≡ true → b ≡ c → ⊥
smaller a b c p q r = ground arith

abbrev pub IsDue : ReapEnv → ℕ → Lease → Type 0
IsDue e id l = (l.id == id) ≡ true → to_expire e id l ≡ true

pub first-IsDue :
    (e : ReapEnv) (id : ℕ) (r : Lease) (f t n : ℕ) (ls : List Lease)
    → IsFresh f t n ls
    → first (to_expire e id) ls ≡ some r
    → All (IsDue e id) ls
unfolding first
first-IsDue e id r f t n [] h q = tt
first-IsDue e id r f t n (l ∷ ls) h q = elim (Bool-cases (to_expire e id l)) [
  | inl due ↦ (
    λ _. due,
    All-mono {P = λ m. (m.fence < l.fence) × (m.id < l.id)} {Q = IsDue e id} ls
        (λ m b same. absurd (smaller m.id l.id id b.1 same (due_id e id l due)))
        (rows_below l.fence l.issued_at_ms l.id ls h.3),
  )
  | inr other ↦
      let later : first (to_expire e id) ls ≡ some r = ground arith in
      let below = first_below e id r l.fence l.issued_at_ms l.id ls h.3 later in
      (λ same. ground arith, first-IsDue e id r l.fence l.issued_at_ms l.id ls h.3 later)
]

-- What holds of each lease of a job i, for the scanned row and the id that is expired.
abbrev pub Fact : ReapEnv → Lease → ℕ → Lease → Type 0
Fact e row i l = ((l.job_id == i) ≡ true) × (IsKeyed row l × IsDue e row.id l)

abbrev pub expiring : ReapEnv → Lease → Lease → Bool
expiring e row = to_expire e row.id

module _ (e : ReapEnv) (row : Lease) where
  not_expiring : (l : Lease) → (l.id == row.id) ≡ false → to_expire e row.id l ≡ false
  unfolding to_expire
  not_expiring l h = rw h refl

  pub Head-other :
      (i : ℕ) (ls : List Lease)
      → All (Fact e row i) ls
      → (row.job_id == i) ≡ false
      → Head false (expiring e row) ls
  Head-other i [] h n = tt
  Head-other i (l ∷ ls) h n = elim (Bool-cases (l.id == row.id)) [
    | inr other ↦ not_expiring l other
    | inl same ↦ absurd (cc (sym n ∙ ap (λ (j : ℕ). j == i) (sym (h.0.1.0.1 same)) ∙ h.0.0))
  ]

  pub max_fence_head :
      (l : Lease) (ls : List Lease)
      → IsFalling (l ∷ ls)
      → is_max_fence row.fence (latest (expire e row.id (l ∷ ls))) ≡ (row.fence == l.fence)
  unfolding expire is_max_fence update
  max_fence_head l ls f =
      let g : IsFalling (update (expiring e row) (mark e.expire_ms) (l ∷ ls)) =
        IsFalling-update (expiring e row) (mark e.expire_ms) (λ l. refl) (l ∷ ls) f in
      rw (latest-falling _ _ g) (ground arith)

  -- The held lease is expired exactly if the scanned fence is the largest.
  pub Head-leased :
      (i : ℕ) (b : Bool) (ls : List Lease)
      → All (Fact e row i) ls
      → IsFalling ls
      → is_max_fence row.fence (latest (expire e row.id ls)) ≡ b
      → Head b (expiring e row) ls
  Head-leased i b [] h f q = tt
  Head-leased i true (l ∷ ls) h f q = h.0.1.1 (ground (arith, max_fence_head l ls f))
  Head-leased i false (l ∷ ls) h f q = not_expiring l (ground (arith, max_fence_head l ls f))
