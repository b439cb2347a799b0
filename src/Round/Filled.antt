-- ===== src/Round/Filled.antt =====
-- What the inner loop of `_dispatch_round` of coordinator/dispatch.py keeps of a connection.
use chaos_harness.Common.{
  ℕ, Bool, zero, suc, ◌≡◌, refl, subst, ◌∙◌, inl, inr, true, false, some, arith, Bool-cases,
}
use chaos_harness.Schema.{Job}
use chaos_harness.Runtime.{World, PgText, ConnState}
use chaos_harness.Runtime.Gate.{Result}
use chaos_harness.Dispatch.{ClaimEnv, claim_one, fill, has_capacity, push}
use chaos_harness.Cluster.{Step, Reach, here, next}
use chaos_harness.Cluster.Tables.{Result-cases}
use chaos_harness.Cluster.Rounds.{turn_cases}
use chaos_harness.Cluster.Capacity.{IsWithin, fill_bounded}

-- What every claim keeps, the loop keeps.
fill_keeps :
    (P : World → Type 0) (u : PgText) (e : ℕ → ClaimEnv) (fuel : ℕ) (w w' : World)
    (r : Result (Unit {0}))
    → ((c : ClaimEnv) (x : World) → P x → P (claim_one u c x).1)
    → P w
    → fill u e fuel w ≡ some (r, w')
    → P w'
unfolding fill
fill_keeps P u e zero w w' r step h q = cc
fill_keeps P u e (suc fuel) w w' r step h q = elim (Bool-cases (has_capacity w.conn)) [
  | inr full ↦ let same : w ≡ w' = ground arith in subst P same h
  | inl room ↦
      let later = step (e fuel) w h in
      elim (Result-cases (claim_one u (e fuel) w).0) [
        | inr (x, k) ↦
            let same : (claim_one u (e fuel) w).1 ≡ w' = ground arith in subst P same later
        | inl (true, k) ↦
            fill_keeps P u e fuel (claim_one u (e fuel) w).1 w' r step later (ground arith)
        | inl (false, k) ↦
            let same : (claim_one u (e fuel) w).1 ≡ w' = ground arith in subst P same later
      ]
]

push_names :
    (u : PgText) (b : Bool) (r : Job) (f : ℕ) (w : World)
    → ((push u b r f w).conn.worker_id ≡ w.conn.worker_id)
      × ((push u b r f w).conn.limit ≡ w.conn.limit)
unfolding push chaos_harness.Runtime.send
push_names u b r f w = ground arith

-- A connection keeps its worker and its limit, and the number of its jobs in flight stays within
-- the limit, or what it was.
abbrev pub IsKept : ℕ → ConnState → ConnState → Type 0
IsKept n s t = IsWithin n t × (t.worker_id ≡ s.worker_id) × (t.limit ≡ s.limit)

claim_names :
    (u : PgText) (e : ClaimEnv) (s : ConnState) (w : World)
    → (w.conn.worker_id ≡ s.worker_id) × (w.conn.limit ≡ s.limit)
    → ((claim_one u e w).1.conn.worker_id ≡ s.worker_id)
      × ((claim_one u e w).1.conn.limit ≡ s.limit)
claim_names u e s w h =
    turn_cases (λ t. (t.1.conn.worker_id ≡ s.worker_id) × (t.1.conn.limit ≡ s.limit)) u e w (λ x. h)
      (λ o. h) (λ r f o. let (id, limit) = push_names u e.send_ok r f _ in (id ∙ h.0, limit ∙ h.1))

pub fill-Reach :
    (u : PgText) (e : ℕ → ClaimEnv) (fuel : ℕ) (w w' : World) (r : Result (Unit {0}))
    → fill u e fuel w ≡ some (r, w')
    → Reach u w.db w'.db
fill-Reach u e fuel w w' r q =
    fill_keeps (λ x. Reach u w.db x.db) u e fuel w w' r
      (λ c x run. next run (Step.claim c x refl refl)) here q

pub fill-IsKept :
    (u : PgText) (e : ℕ → ClaimEnv) (fuel n : ℕ) (w w' : World) (r : Result (Unit {0}))
    → IsWithin n w.conn
    → fill u e fuel w ≡ some (r, w')
    → IsKept n w.conn w'.conn
fill-IsKept u e fuel n w w' r h q =
    let (id, limit) =
      fill_keeps (λ x. (x.conn.worker_id ≡ w.conn.worker_id) × (x.conn.limit ≡ w.conn.limit)) u e
        fuel w w' r (λ c x names. claim_names u c w.conn x names) (refl, refl) q in
    (fill_bounded u e fuel w w' n r h q, id, limit)
