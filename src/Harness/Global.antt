-- ===== src/Harness/Global.antt =====
-- The global checks of `_verify` of chaos_harness.py: fences against times of issue over all jobs,
-- and one job for each key.
use mathlib.Core.List.{map-append}
use chaos_harness.Common.{
  ◌≢◌, ==_iff, All-append, Pairs-append, All-select_met, ℕ, ◌<◌, String, ◌≡◌, refl, sym, ap, ◌∙◌,
  ◌⊎◌, inl, inr, true, false, none, some, List, [], ◌∷◌, ◌++◌, arith, map, ◌==◌, select, All, Pairs,
  All-mono, Pairs-select, Pairs-mono, Pairs-map,
}
use chaos_harness.Common.Sort.{sort, All-sort, sort-Ordered}
use chaos_harness.Schema.{Lease, Db, leases_of}
use chaos_harness.Audit.{LeaseEntry, lease_entry, lease_le, trail_of, lease_rows}
use chaos_harness.Cluster.Consistent.{IsConsistent}
use chaos_harness.Schema.Lookup.{In, All-In, All-self}
use chaos_harness.Runtime.{PgText}
use chaos_harness.Harness.{Tracked, Audited, all_fences, fence_walk, global_check, issued_le}
use chaos_harness.Harness.Order.{Agree, Agree-sym, Agree-total, lease_le_trans, all-Agree}

-- A submission as the harness tracks it: the job's id and its key.
pub record Submission : Type 0 where
  pub job : ℕ
  pub key : String

abbrev pub tracked : PgText → Submission → Tracked
tracked u s = record { jid = u.print s.job; key = s.key }

-- The audits of the jobs, all from one database.
abbrev pub snapshot : PgText → Db → Submission → Audited
snapshot u d s = record { jid = u.print s.job; trail = some (trail_of s.job d d d) }

all_rows : Db → List Submission → List Lease
all_rows d [] = []
all_rows d (s ∷ ss) = lease_rows s.job d ++ all_rows d ss

all_fences-rows :
    (u : PgText) (d : Db) (ss : List Submission)
    → all_fences (map (snapshot u d) ss) ≡ map lease_entry (all_rows d ss)
unfolding all_fences all_rows trail_of
all_fences-rows u d [] = refl
all_fences-rows u d (s ∷ ss) =
    ap (◌++◌ (map lease_entry (lease_rows s.job d))) (all_fences-rows u d ss)
    ∙ sym (map-append lease_entry (lease_rows s.job d) (all_rows d ss))

-- Two leases of different jobs agree like any two.
apart-Agree :
    (l m : Lease) (ls : List Lease)
    → Pairs Agree ls
    → In l ls
    → In m ls
    → l.job_id ≢ m.job_id
    → Agree l m
apart-Agree l m [] h a b n = absurd a
apart-Agree l m (x ∷ ls) h (inl a) (inl b) n = absurd (n (ap (λ (k : Lease). k.job_id) (a ∙ sym b)))
apart-Agree l m (x ∷ ls) h (inl a) (inr b) n = rw a (All-In (Agree x) ls m h.0 b)
apart-Agree l m (x ∷ ls) h (inr a) (inl b) n = rw b (Agree-sym x l (All-In (Agree x) ls l h.0 a))
apart-Agree l m (x ∷ ls) h (inr a) (inr b) n = apart-Agree l m ls h.1 a b n

-- What all leases of one job in a reply satisfy.
abbrev Mine : ℕ → Db → Lease → Type 0
Mine j d l = In l d.leases × (l.job_id ≡ j)

Mine-rows : (j : ℕ) (d : Db) → All (Mine j d) (lease_rows j d)
unfolding lease_rows leases_of
Mine-rows j d = All-sort lease_le (Mine j d) (select (λ l. l.job_id == j) d.leases) (
    All-mono (select (λ l. l.job_id == j) d.leases) (λ l k. (k.1, (==_iff _ _).0 k.0))
      (All-select_met (λ l. In l d.leases) (λ l. l.job_id == j) d.leases (All-self d.leases)))

module _ (d : Db) (c : IsConsistent d) where
  agree : Pairs Agree d.leases
  agree = all-Agree _ _ _ d.leases c.fresh

  own_rows : (j : ℕ) → Pairs Agree (lease_rows j d)
  unfolding lease_rows leases_of
  own_rows j =
      Pairs-mono (sort lease_le (select (λ l. l.job_id == j) d.leases)) (λ l m o. o.0)
        (sort-Ordered lease_le Agree Agree-sym Agree-total lease_le_trans
          (select (λ l. l.job_id == j) d.leases) (Pairs-select Agree _ d.leases agree))

  other_rows :
      (l : Lease) (j : ℕ) (ss : List Submission)
      → Mine j d l
      → All (λ (s : Submission). j ≢ s.job) ss
      → All (Agree l) (all_rows d ss)
  unfolding all_rows
  other_rows l j [] m h = tt
  other_rows l j (s ∷ ss) m h =
      All-append (Agree l) (lease_rows s.job d) (all_rows d ss)
        (All-mono (lease_rows s.job d)
          (λ k n. apart-Agree l k d.leases agree m.0 n.0 (λ e. h.0 (sym m.1 ∙ e ∙ n.1)))
          (Mine-rows s.job d))
        (other_rows l j ss m h.1)

  -- Over all audited jobs, fences rise with the times of issue.
  rows-Agree :
      (ss : List Submission)
      → Pairs (λ (s t : Submission). s.job ≢ t.job) ss
      → Pairs Agree (all_rows d ss)
  unfolding all_rows
  rows-Agree [] h = tt
  rows-Agree (s ∷ ss) h =
      Pairs-append Agree (lease_rows s.job d) (all_rows d ss) (own_rows s.job) (rows-Agree ss h.1)
        (All-mono (lease_rows s.job d) (λ l m. other_rows l s.job ss m h.0) (Mine-rows s.job d))

abbrev AgreeEntry : LeaseEntry → LeaseEntry → Type 0
AgreeEntry l m =
    ((l.issued_at_ms < m.issued_at_ms) × (l.fence < m.fence))
    ⊎ ((m.issued_at_ms < l.issued_at_ms) × (m.fence < l.fence))

entry_sym : (l m : LeaseEntry) → AgreeEntry l m → AgreeEntry m l
entry_sym l m (inl h) = inr h
entry_sym l m (inr h) = inl h

walk_after :
    (f : ℕ) (ls : List LeaseEntry)
    → All (λ l. f < l.fence) ls
    → Pairs (λ l m. l.fence < m.fence) ls
    → fence_walk (some f) ls ≡ []
unfolding fence_walk
walk_after f [] h k = refl
walk_after f (l ∷ ls) h k = ground (arith, walk_after l.fence ls k.0 k.1)

walk_clean : (ls : List LeaseEntry) → Pairs (λ l m. l.fence < m.fence) ls → fence_walk none ls ≡ []
unfolding fence_walk
walk_clean [] k = refl
walk_clean (l ∷ ls) k = walk_after l.fence ls k.0 k.1

pub global_clean :
    (u : PgText) (d : Db) (ss : List Submission)
    → IsConsistent d
    → Pairs (λ (s t : Submission). s.job ≢ t.job) ss
    → global_check (map (snapshot u d) ss) ≡ []
unfolding global_check
global_clean u d ss c h = rw (all_fences-rows u d ss) (
    walk_clean _ (
      Pairs-mono (sort issued_le (map lease_entry (all_rows d ss)))
        (λ (l m : LeaseEntry). λ o. rising l m o.0 o.1)
        (sort-Ordered issued_le AgreeEntry entry_sym (λ l m a e. entry_total l m a e)
          (λ l m n a b. entry_trans l m n a b) (map lease_entry (all_rows d ss))
          (Pairs-map lease_entry AgreeEntry (all_rows d ss) (rows-Agree d c ss h)))))
  where
    rising : (l m : LeaseEntry) → AgreeEntry l m → issued_le l m ≡ true → l.fence < m.fence
    rising l m a e = ground arith

    entry_total : (l m : LeaseEntry) → AgreeEntry l m → issued_le l m ≡ false → issued_le m l ≡ true
    entry_total l m a e = ground arith

    entry_trans :
        (l m n : LeaseEntry) → issued_le l m ≡ true → issued_le m n ≡ true → issued_le l n ≡ true
    entry_trans l m n a b = ground arith
