-- ===== src/Cluster/Capacity.antt =====
-- The capacity of a worker in the inner loop of `_dispatch_round` of coordinator/dispatch.py, and
-- the loop on a socket that no frame passes.
use chaos_harness.Common.{
  ℕ, zero, suc, ◌<◌, ◌≤◌, String, ◌≡◌, subst, inl, inr, Bool, true, false, not, some, List, [], ◌∷◌,
  arith, Bool-cases, select, exists, length, str_eq, eq_refl,
}
use chaos_harness.Common.Int.{clamp_zero}
use chaos_harness.Schema.{Job}
use chaos_harness.Runtime.{World, PgText, ConnState, send, add, discard}
use chaos_harness.Runtime.Gate.{Result}
use chaos_harness.Dispatch.{ClaimEnv, claim_one, push, fill, has_capacity}
use chaos_harness.Cluster.Rounds.{turn_cases}
use chaos_harness.Cluster.Tables.{Result-cases}

select_le : {A : Type 0} (p : A → Bool) (xs : List A) → length (select p xs) ≤ length xs
unfolding select
select_le p [] = omega arith
select_le p (x ∷ xs) = ground (arith, select_le p xs)

add_le : (k : String) (xs : List String) → length (add k xs) ≤ suc (length xs)
unfolding add
add_le k xs = ground arith

discard_le : (k : String) (xs : List String) → length (discard k xs) ≤ length xs
unfolding discard
discard_le k xs = select_le (λ x. not (str_eq x k)) xs

-- A send that fails leaves no more reservations than before.
pub discard-add_le : (k : String) (xs : List String) → length (discard k (add k xs)) ≤ length xs
unfolding discard add select
discard-add_le k xs = elim (Bool-cases (exists (λ x. str_eq x k) xs)) [
  | inl old ↦ rw old (select_le (λ x. not (str_eq x k)) xs)
  | inr new ↦ ground (arith, new, eq_refl k, select_le (λ x. not (str_eq x k)) xs)
]

-- No more jobs in flight than the limit, or than there were.
abbrev pub IsWithin : ℕ → ConnState → Type 0
IsWithin n c = (length c.inflight ≤ n) × (clamp_zero c.limit ≤ n)

room_below : (c : ConnState) → has_capacity c ≡ true → length c.inflight < clamp_zero c.limit
unfolding has_capacity
room_below c h = ground arith

push-IsWithin :
    (u : PgText) (b : Bool) (r : Job) (f n : ℕ) (w : World)
    → has_capacity w.conn ≡ true
    → IsWithin n w.conn
    → IsWithin n (push u b r f w).conn
unfolding push send has_capacity
push-IsWithin u true r f n w room h =
    (ground (arith, add_le (u.print r.job_id) w.conn.inflight, room_below w.conn room), h.1)
push-IsWithin u false r f n w room h =
    (ground (arith, discard-add_le (u.print r.job_id) w.conn.inflight), h.1)

-- The loop leaves a worker with no more jobs in flight than its limit, or than it had before if
-- that is more.
pub fill_bounded :
    (u : PgText) (e : ℕ → ClaimEnv) (fuel : ℕ) (w w' : World) (n : ℕ) (r : Result (Unit {0}))
    → IsWithin n w.conn
    → fill u e fuel w ≡ some (r, w')
    → IsWithin n w'.conn
unfolding fill
fill_bounded u e zero w w' n r h q = cc
fill_bounded u e (suc fuel) w w' n r h q = elim (Bool-cases (has_capacity w.conn)) [
  | inr full ↦ let same : w ≡ w' = ground arith in subst (λ (x : World). IsWithin n x.conn) same h
  | inl room ↦
      let later =
        turn_cases (λ t. IsWithin n t.1.conn) u (e fuel) w (λ x. h) (λ o. h)
          (λ s f o. push-IsWithin u (e fuel).send_ok s f n _ room h) in
      elim (Result-cases (claim_one u (e fuel) w).0) [
        | inr (x, k) ↦
            let same : (claim_one u (e fuel) w).1 ≡ w' = ground arith in
            subst (λ (y : World). IsWithin n y.conn) same later
        | inl (true, k) ↦
            fill_bounded u e fuel (claim_one u (e fuel) w).1 w' n r later (ground arith)
        | inl (false, k) ↦
            let same : (claim_one u (e fuel) w).1 ≡ w' = ground arith in
            subst (λ (y : World). IsWithin n y.conn) same later
      ]
]
