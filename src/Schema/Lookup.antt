-- ===== src/Schema/Lookup.antt =====
-- How the shared queries of db/schema.sql see the statements that write.
use chaos_harness.Common.{
  All-mono, sym, subst, String, ℕ, ◌≡◌, refl, ◌∙◌, ◌⊎◌, inl, inr, Bool, true, false, none, some,
  List, [], ◌∷◌, arith, ◌==◌, ==_self, if◌then◌else◌, is_some, select, update, All, Bool-cases,
}
use chaos_harness.Schema.{JobState, Job, is_job, state_of, id_of_key, set_state}

-- No two jobs share an id, or a key: the PRIMARY KEY and the UNIQUE column.
abbrev pub AreDistinct : List Job → Type 0
AreDistinct [] = Unit
AreDistinct (r ∷ rs) =
    (state_of r.job_id rs ≡ none) × (id_of_key r.idempotency_key rs ≡ none) × AreDistinct rs

-- Membership, by recursion.
abbrev pub In : {A : Type 0} → A → List A → Type 0
In a [] = ⊥
In a (x ∷ xs) = (a ≡ x) ⊎ In a xs

pub All-In : {A : Type 0} (P : A → Type 0) (xs : List A) (a : A) → All P xs → In a xs → P a
All-In P [] a h m = absurd m
All-In P (x ∷ xs) a h (inl e) = subst P (sym e) h.0
All-In P (x ∷ xs) a h (inr m) = All-In P xs a h.1 m

-- Each entry of a list is in it.
pub All-self : {A : Type 0} (xs : List A) → All (λ a. In a xs) xs
All-self [] = tt
All-self (x ∷ xs) = (inl refl, All-mono xs (λ a m. inr m) (All-self xs))

pub In-select :
    {A : Type 0} (p : A → Bool) (a : A) (xs : List A) → In a (select p xs) → In a xs × (p a ≡ true)
unfolding select
In-select p a [] h = absurd h
In-select p a (x ∷ xs) h = elim (Bool-cases (p x)) [
  | inl e ↦ elim (rw e at h) [
    | inl same ↦ (inl same, rw same e)
    | inr later ↦ let (m, q) = In-select p a xs later in (inr m, q)
  ]
  | inr e ↦ let (m, q) = In-select p a xs (rw e at h) in (inr m, q)
]

module _ (f : Job → Job) (keeps : (r : Job) → (f r).job_id ≡ r.job_id) (s : JobState)
    (sets : (r : Job) → (f r).state ≡ s) where
  -- An UPDATE of one job's state, as every other query sees it.
  pub state_of-update :
      (i j : ℕ) (rs : List Job)
      → state_of i (update (is_job j) f rs)
        ≡ (if j == i then (if is_some (state_of i rs) then some s else none) else state_of i rs)
  unfolding state_of update
  state_of-update i j [] = ground arith
  state_of-update i j (r ∷ rs) = ground (arith, keeps r, sets r, state_of-update i j rs)

module _ (f : Job → Job) (keeps : (r : Job) → (f r).job_id ≡ r.job_id)
    (keeps_key : (r : Job) → (f r).idempotency_key ≡ r.idempotency_key) where
  state_of-update-none :
      (i : ℕ) (p : Job → Bool) (rs : List Job)
      → state_of i rs ≡ none
      → state_of i (update p f rs) ≡ none
  unfolding state_of update
  state_of-update-none i p [] h = refl
  state_of-update-none i p (r ∷ rs) h = ground (arith, keeps r, state_of-update-none i p rs)

  pub id_of_key-update :
      (k : String) (p : Job → Bool) (rs : List Job) → id_of_key k (update p f rs) ≡ id_of_key k rs
  unfolding id_of_key update
  id_of_key-update k p [] = refl
  id_of_key-update k p (r ∷ rs) = ground (arith, keeps r, keeps_key r, id_of_key-update k p rs)

  pub AreDistinct-update :
      (p : Job → Bool) (rs : List Job) → AreDistinct rs → AreDistinct (update p f rs)
  unfolding update
  AreDistinct-update p [] h = tt
  AreDistinct-update p (r ∷ rs) h =
      let ids = state_of-update-none r.job_id p rs h.0 in
      let keys = id_of_key-update r.idempotency_key p rs ∙ h.1 in
      let later = AreDistinct-update p rs h.2 in
      elim (Bool-cases (p r)) [
        | inl e ↦ rw (e, keeps r, keeps_key r) (ids, keys, later)
        | inr e ↦ rw e (ids, keys, later)
      ]

pub state_of-set_state :
    (i j : ℕ) (s : JobState) (now : ℕ) (rs : List Job)
    → state_of i (set_state j s now rs)
      ≡ (if j == i then (if is_some (state_of i rs) then some s else none) else state_of i rs)
unfolding set_state
state_of-set_state i j s now =
    state_of-update (λ r. record r { state = s; updated_at = now }) (λ r. refl) s (λ r. refl) i j

-- The state after an UPDATE that finds its row, for that job and for any other.
pub set_state_self :
    (j : ℕ) (s s' : JobState) (now : ℕ) (rs : List Job)
    → state_of j rs ≡ some s'
    → state_of j (set_state j s now rs) ≡ some s
set_state_self j s s' now rs h = rw (state_of-set_state j j s now rs, ==_self j, h) refl

pub set_state_other :
    (i j : ℕ) (s : JobState) (now : ℕ) (rs : List Job)
    → (j == i) ≡ false
    → state_of i (set_state j s now rs) ≡ state_of i rs
set_state_other i j s now rs h = rw (state_of-set_state i j s now rs, h) refl

pub AreDistinct-set_state :
    (j : ℕ) (s : JobState) (now : ℕ) (rs : List Job)
    → AreDistinct rs
    → AreDistinct (set_state j s now rs)
unfolding set_state
AreDistinct-set_state j s now =
    AreDistinct-update (λ r. record r { state = s; updated_at = now }) (λ r. refl) (λ r. refl)
      (is_job j)

-- With distinct ids the query finds the job itself.
pub state_of-In :
    (r : Job) (rs : List Job) → AreDistinct rs → In r rs → state_of r.job_id rs ≡ some r.state
unfolding state_of
state_of-In r [] d m = absurd m
state_of-In r (x ∷ rs) d (inl e) = ground (arith, ==_self r.job_id)
state_of-In r (x ∷ rs) d (inr m) = ground (arith, state_of-In r rs d.2 m)

-- A column that the UPDATE keeps is a condition that may be applied before or after it.
pub select-update :
    {A : Type 0} (q p : A → Bool) (f : A → A) (keeps : (a : A) → q (f a) ≡ q a) (xs : List A)
    → select q (update p f xs) ≡ update p f (select q xs)
unfolding select update
select-update q p f keeps [] = refl
select-update q p f keeps (x ∷ xs) = ground (arith, keeps x, select-update q p f keeps xs)

-- An UPDATE whose condition no row meets.
update_none :
    {A : Type 0} (p : A → Bool) (f : A → A) (xs : List A)
    → All (λ a. p a ≡ false) xs
    → update p f xs ≡ xs
unfolding update
update_none p f [] h = refl
update_none p f (x ∷ xs) h = rw (h.0, update_none p f xs h.1)
