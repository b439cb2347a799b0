-- ===== src/Harness/Order.antt =====
-- The order of the fences in one trail, and the fences of its accepted commits, as `_verify` of
-- chaos_harness.py checks them.
use chaos_harness.Common.{
  ℕ, ◌<◌, ◌≤◌, String, ◌≡◌, refl, ◌⊎◌, inl, inr, true, false, Option, some, List, [], ◌∷◌, arith,
  leb, ◌==◌, select, All, Pairs, All-mono, Pairs-select, Pairs-mono, Bool-cases, Option-cases,
  ==_self,
}
use chaos_harness.Common.Int.{pos}
use chaos_harness.Common.Sort.{sort, sort-Ordered, sort-sorted}
use chaos_harness.Schema.{Lease, leases_of}
use chaos_harness.Audit.{CommitEntry, lease_le}
use chaos_harness.Cluster.Consistent.{IsFresh}
use chaos_harness.Harness.{list_eq, largest, is_stale, order_check, stale_check}

-- Two leases in the order of their fences and of their times of issue.
abbrev pub Agree : Lease → Lease → Type 0
Agree l m =
    ((l.issued_at_ms < m.issued_at_ms) × (l.fence < m.fence))
    ⊎ ((m.issued_at_ms < l.issued_at_ms) × (m.fence < l.fence))

below-All :
    (f t n : ℕ) (ls : List Lease)
    → IsFresh f t n ls
    → All (λ m. (m.issued_at_ms < t) × (m.fence < f)) ls
below-All f t n [] h = tt
below-All f t n (l ∷ ls) h =
    ((h.1, h.0), All-mono ls (λ m q. omega arith) (below-All l.fence l.issued_at_ms l.id ls h.3))

pub all-Agree : (f t n : ℕ) (ls : List Lease) → IsFresh f t n ls → Pairs Agree ls
all-Agree f t n [] h = tt
all-Agree f t n (l ∷ ls) h = (
  All-mono ls (λ m q. inr q) (below-All l.fence l.issued_at_ms l.id ls h.3),
  all-Agree l.fence l.issued_at_ms l.id ls h.3,
)

pub Agree-sym : (l m : Lease) → Agree l m → Agree m l
Agree-sym l m (inl h) = inr h
Agree-sym l m (inr h) = inl h

pub Agree-total : (l m : Lease) → Agree l m → lease_le l m ≡ false → lease_le m l ≡ true
Agree-total l m h e = ground arith

pub lease_le_trans :
    (l m n : Lease) → lease_le l m ≡ true → lease_le m n ≡ true → lease_le l n ≡ true
lease_le_trans l m n h k = ground arith

Agree-fence : (l m : Lease) → Agree l m → lease_le l m ≡ true → l.fence < m.fence
Agree-fence l m h e = ground arith

pub sorted_leases :
    (j f t n : ℕ) (ls : List Lease)
    → IsFresh f t n ls
    → Pairs (λ l m. l.fence < m.fence) (sort lease_le (leases_of j ls))
unfolding leases_of
sorted_leases j f t n ls h =
    Pairs-mono (sort lease_le (select (λ l. l.job_id == j) ls)) (λ l m o. Agree-fence l m o.0 o.1)
      (sort-Ordered lease_le Agree Agree-sym Agree-total lease_le_trans
        (select (λ l. l.job_id == j) ls) (Pairs-select Agree _ ls (all-Agree f t n ls h)))

list_eq_self : (fs : List ℕ) → list_eq fs fs ≡ true
unfolding list_eq
list_eq_self [] = refl
list_eq_self (f ∷ fs) = rw (==_self f) (list_eq_self fs)

-- Rising fences are sorted.
pub order_clean : (jid : String) (fs : List ℕ) → Pairs (λ a b. a < b) fs → order_check jid fs ≡ []
unfolding order_check
order_clean jid fs h =
    rw (sort-sorted leb fs (Pairs-mono fs (λ a b q. ground arith) h), list_eq_self fs) refl

largest-le : (top : ℕ) (fs : List ℕ) (m : ℕ) → All (λ f. f ≤ top) fs → largest fs ≡ some m → m ≤ top
unfolding largest
largest-le top [] m h e = cc
largest-le top (f ∷ fs) m h e = elim (Option-cases (largest fs)) [
  | inl q ↦ ground arith
  | inr (n, q) ↦ ground (arith, largest-le top fs n h.1 q)
]

pub not_stale :
    (top : ℕ) (fs : List ℕ) → All (λ f. f ≤ top) fs → is_stale (pos top) (largest fs) ≡ false
unfolding is_stale
not_stale top fs h = elim (Option-cases (largest fs)) [
  | inl q ↦ rw q refl
  | inr (m, q) ↦ rw q (let le = largest-le top fs m h q in ground arith)
]

-- No accepted commit is stale.
abbrev pub IsCurrent : Option ℕ → CommitEntry → Type 0
IsCurrent top c = c.accepted ≡ true → is_stale c.fence top ≡ false

pub stale_clean :
    (jid : String) (top : Option ℕ) (cs : List CommitEntry)
    → All (IsCurrent top) cs
    → stale_check jid top cs ≡ []
unfolding stale_check
stale_clean jid top [] h = refl
stale_clean jid top (c ∷ cs) h = elim (Bool-cases c.accepted) [
  | inl e ↦ rw (e, h.0 e) (stale_clean jid top cs h.1)
  | inr e ↦ rw e (stale_clean jid top cs h.1)
]
