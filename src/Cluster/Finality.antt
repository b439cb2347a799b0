-- ===== src/Cluster/Finality.antt =====
-- What stays as it is over a run of coordinator/*.py: a final state, and a fence that is superseded.
use chaos_harness.Common.{
  ℕ, ◌<◌, ◌≡◌, ◌≢◌, refl, sym, ◌∙◌, ◌⊎◌, inl, inr, Bool, true, false, Option, none, some, List, [],
  ◌∷◌, arith, update, All,
}
use chaos_harness.Common.Int.{pos}
use chaos_harness.Schema.{
  JobState, pending, leased, succeeded, failed, cancelled, latest, Lease, Commit, Db, state_of,
  leases_of, accepted_of, transitions_of,
}
use chaos_harness.Runtime.{PgText}
use chaos_harness.Protocol.{
  View, IsFalling, IsSound, mark, JobStep, stay, submit, claim, renew, expire, requeue, accept,
  cancel,
}
use chaos_harness.Protocol.Sound.{accept-owned, latest-falling}
use chaos_harness.Cluster.{Reach, here, next, view}
use chaos_harness.Cluster.Consistent.{IsConsistent}
use chaos_harness.Cluster.Invariant.{Step-JobStep, Reach-IsConsistent}

abbrev pub is_final : JobState → Bool
is_final succeeded = true
is_final failed = true
is_final cancelled = true
is_final _ = false

clash :
    (x : Option JobState) (s a : JobState)
    → x ≡ some s
    → is_final s ≡ true
    → x ≡ some a
    → is_final a ≡ false
    → ⊥
clash x s a p f q g = ground arith

final_step :
    (v v' : View) (s : JobState)
    → JobStep v v'
    → IsSound v
    → v.state ≡ some s
    → is_final s ≡ true
    → (v'.state ≡ some s) × (v'.accepted ≡ v.accepted) × (v'.history ≡ v.history)
final_step v v' s (stay e) h q f = rw e (q, refl, refl)
final_step v v' s (renew p d e) h q f = rw e (q, refl, refl)
final_step v v' s (expire p now g e) h q f = rw e (q, refl, refl)
final_step v v' s (submit t a b c e) h q f = let no : none ≡ some s = sym a ∙ q in absurd (cc)
final_step v v' s (claim t l a b c m n e) h q f = absurd (clash v.state s pending q f a refl)
final_step v v' s (requeue t p now a b c g e) h q f = absurd (clash v.state s leased q f a refl)
final_step v v' s (accept t c l last live k n fr to e) h q f = absurd (
    clash v.state s leased q f
      (accept-owned v.state v.leases v.accepted c l h.falling last live k n h.owned).0 refl)
final_step v v' s (cancel t a b c e) h q f = absurd (clash v.state s pending q f a refl)

-- A job that has succeeded, failed or been cancelled keeps its state, its accepted commits and its
-- log over every run of the dispatcher from a consistent database.
pub final_for_good :
    {u : PgText} {d d' : Db} (j : ℕ) (s : JobState)
    → IsConsistent d
    → Reach u d d'
    → state_of j d.jobs ≡ some s
    → is_final s ≡ true
    → (state_of j d'.jobs ≡ some s)
      × (accepted_of j d'.commits ≡ accepted_of j d.commits)
      × (transitions_of j d'.job_transitions ≡ transitions_of j d.job_transitions)
final_for_good j s c here q f = (q, refl, refl)
final_for_good j s c (next {d = m} {d' = d'} r step) q f =
    let (x, y, z) = final_for_good j s c r q f in
    let cm = Reach-IsConsistent c r in
    let (x', y', z') =
      final_step (view j m) (view j d') s (Step-JobStep j cm step) (cm.sound j) x f in
    (x', y' ∙ y, z' ∙ z)

-- A later lease was issued.
abbrev pub IsSuperseded : ℕ → List Lease → Type 0
IsSuperseded f [] = ⊥
IsSuperseded f (l ∷ ls) = (f < l.fence) ⊎ IsSuperseded f ls

IsSuperseded-update :
    (f : ℕ) (p : Lease → Bool) (g : Lease → Lease)
    → ((l : Lease) → (g l).fence ≡ l.fence)
    → (ls : List Lease) → IsSuperseded f ls
    → IsSuperseded f (update p g ls)
unfolding update
IsSuperseded-update f p g keeps [] h = h
IsSuperseded-update f p g keeps (l ∷ ls) (inl h) = inl (ground (arith, keeps l))
IsSuperseded-update f p g keeps (l ∷ ls) (inr h) = inr (IsSuperseded-update f p g keeps ls h)

superseded_head :
    (f : ℕ) (l : Lease) (ls : List Lease)
    → IsFalling (l ∷ ls)
    → IsSuperseded f (l ∷ ls)
    → f < l.fence
superseded_head f l ls h (inl q) = q
superseded_head f l [] h (inr q) = absurd q
superseded_head f l (m ∷ ls) h (inr q) =
    let below = superseded_head f m ls h.1 q in let step = h.0.0 in omega arith

-- Superseded, and not accepted.
abbrev Rejected : ℕ → View → Type 0
Rejected f v = IsSuperseded f v.leases × All (λ c. c.fence ≢ pos f) v.accepted

latest_above :
    (f : ℕ) (ls : List Lease) (l : Lease) (c : Commit)
    → IsFalling ls
    → IsSuperseded f ls
    → latest ls ≡ some l
    → c.fence ≡ pos l.fence
    → c.fence ≢ pos f
latest_above f [] l c h s e k q = absurd s
latest_above f (m ∷ ls) l c h s e k q =
    let same : m ≡ l = cc (latest-falling m ls h) in
    let above = superseded_head f m ls h s in
    let fences : pos l.fence ≡ pos f = sym k ∙ q in ground arith

step-Rejected : (f : ℕ) (v v' : View) → JobStep v v' → IsSound v → Rejected f v → Rejected f v'
step-Rejected f v v' (stay e) h r = rw e r
step-Rejected f v v' (renew p d e) h r =
    rw e
      (IsSuperseded-update f p (λ l. record l { expires_at_ms = d }) (λ l. refl) v.leases r.0, r.1)
step-Rejected f v v' (expire p now g e) h r =
    rw e (IsSuperseded-update f p (mark now) (λ l. refl) v.leases r.0, r.1)
step-Rejected f v v' (submit t a b c e) h r = rw e r
step-Rejected f v v' (claim t l a b c m n e) h r = rw e (inr r.0, r.1)
step-Rejected f v v' (requeue t p now a b c g e) h r =
    rw e (IsSuperseded-update f p (mark now) (λ l. refl) v.leases r.0, r.1)
step-Rejected f v v' (accept t c l last live k n fr to e) h r =
    rw e (r.0, (latest_above f v.leases l c h.falling r.0 last k, r.1))
step-Rejected f v v' (cancel t a b c e) h r = rw e r

run-Rejected :
    {u : PgText} {d d' : Db} (j f : ℕ)
    → IsConsistent d
    → Reach u d d'
    → Rejected f (view j d)
    → Rejected f (view j d')
run-Rejected j f c here h = h
run-Rejected j f c (next {d = m} {d' = d'} r step) h =
    let cm = Reach-IsConsistent c r in
    step-Rejected f (view j m) (view j d') (Step-JobStep j cm step) (cm.sound j)
      (run-Rejected j f c r h)

-- Once a job has a lease with a larger fence, a fence that was not accepted by then is not
-- accepted by any later step, whichever worker sends it to whichever coordinator.
pub superseded_never_accepted :
    {u : PgText} {d d' : Db} (j f : ℕ)
    → IsConsistent d
    → Reach u d d'
    → IsSuperseded f (leases_of j d.leases)
    → All (λ c. c.fence ≢ pos f) (accepted_of j d.commits)
    → All (λ c. c.fence ≢ pos f) (accepted_of j d'.commits)
superseded_never_accepted j f c r s n = (run-Rejected j f c r (s, n)).1
