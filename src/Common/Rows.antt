-- ===== src/Common/Rows.antt =====
-- Tables as lists of rows: selection, update in place, counting.
use Prim.Native.Nat.{ℕ, suc}
use mathlib.Core.Path.{◌≡◌}
use mathlib.Core.Bool.{Bool, true, false}
use mathlib.Core.Logic.{inl, inr}
use mathlib.Core.Option.{Option, none, some}
use mathlib.Core.List.{List, [], ◌∷◌, ◌++◌, map}
use chaos_harness.Common.Tests.{if◌then◌else◌, Bool-cases}

module _ {ℓ} {A : Type ℓ} where
  abbrev pub length : List A → ℕ
  length [] = 0
  length (x ∷ xs) = suc (length xs)

  -- SELECT … WHERE p, a list comprehension with the condition p.
  unfoldable pub select : (A → Bool) → List A → List A
  select p [] = []
  select p (x ∷ xs) = let rest = select p xs in if p x then x ∷ rest else rest

  -- UPDATE … SET f WHERE p.
  unfoldable pub update : (A → Bool) → (A → A) → List A → List A
  update p f [] = []
  update p f (x ∷ xs) = (if p x then f x else x) ∷ update p f xs

  -- EXISTS (SELECT 1 … WHERE p), `any(p(x) for x in xs)`.
  unfoldable pub exists : (A → Bool) → List A → Bool
  exists p [] = false
  exists p (x ∷ xs) = let rest = exists p xs in if p x then true else rest

  -- The first row that meets p, for a query that at most one row answers.
  unfoldable pub first : (A → Bool) → List A → Option A
  first p [] = none
  first p (x ∷ xs) = let rest = first p xs in if p x then some x else rest

module _ {ℓ κ} {A : Type ℓ} where
  -- A predicate of every entry.
  abbrev pub All : (A → Type κ) → List A → Type κ
  All P [] = Unit
  All P (x ∷ xs) = P x × All P xs

  -- A relation of every entry with every later one.
  abbrev pub Pairs : (A → A → Type κ) → List A → Type κ
  Pairs R [] = Unit
  Pairs R (x ∷ xs) = All (R x) xs × Pairs R xs

module _ {ℓ κ} {A : Type ℓ} (P : A → Type κ) where
  pub All-append : (xs ys : List A) → All P xs → All P ys → All P (xs ++ ys)
  All-append [] ys hx hy = hy
  All-append (x ∷ xs) ys hx hy = (hx.0, All-append xs ys hx.1 hy)

  pub All-select : (p : A → Bool) (xs : List A) → All P xs → All P (select p xs)
  unfolding select
  All-select p [] h = tt
  All-select p (x ∷ xs) h =
      elim (p x) as (λ b. All P (if b then x ∷ select p xs else select p xs)) [
        | true ↦ (h.0, All-select p xs h.1)
        | false ↦ All-select p xs h.1
      ]

module _ {A : Type 0} (P : A → Type 0) where
  -- The selected rows meet the condition as well.
  pub All-select_met :
      (p : A → Bool) (xs : List A) → All P xs → All (λ a. (p a ≡ true) × P a) (select p xs)
  unfolding select
  All-select_met p [] h = tt
  All-select_met p (x ∷ xs) h = elim (Bool-cases (p x)) [
    | inl e ↦ rw e ((e, h.0), All-select_met p xs h.1)
    | inr e ↦ rw e (All-select_met p xs h.1)
  ]

module _ {ℓ κ μ} {A : Type ℓ} {P : A → Type κ} {Q : A → Type μ} where
  pub All-mono : (xs : List A) → ((x : A) → P x → Q x) → All P xs → All Q xs
  All-mono [] f h = tt
  All-mono (x ∷ xs) f h = (f x h.0, All-mono xs f h.1)

pub All-zip :
    {A : Type 0} (P Q : A → Type 0) (xs : List A) → All P xs → All Q xs → All (λ a. P a × Q a) xs
All-zip P Q [] h k = tt
All-zip P Q (x ∷ xs) h k = ((h.0, k.0), All-zip P Q xs h.1 k.1)

module _ {ℓ κ} {A : Type ℓ} (R : A → A → Type κ) where
  pub Pairs-select : (p : A → Bool) (xs : List A) → Pairs R xs → Pairs R (select p xs)
  unfolding select
  Pairs-select p [] h = tt
  Pairs-select p (x ∷ xs) h =
      elim (p x) as (λ b. Pairs R (if b then x ∷ select p xs else select p xs)) [
        | true ↦ (All-select (R x) p xs h.0, Pairs-select p xs h.1)
        | false ↦ Pairs-select p xs h.1
      ]

module _ {A : Type 0} (R : A → A → Type 0) where
  pub Pairs-append :
      (xs ys : List A) → Pairs R xs → Pairs R ys → All (λ x. All (R x) ys) xs → Pairs R (xs ++ ys)
  Pairs-append [] ys h k c = k
  Pairs-append (x ∷ xs) ys h k c = (All-append (R x) xs ys h.0 c.0, Pairs-append xs ys h.1 k c.1)

-- What holds of the selected rows, as a condition on all.
pub All-unselect :
    {A : Type 0} (P : A → Type 0) (p : A → Bool) (xs : List A)
    → All P (select p xs)
    → All (λ a. p a ≡ true → P a) xs
unfolding select
All-unselect P p [] h = tt
All-unselect P p (x ∷ xs) h = elim (Bool-cases (p x)) [
  | inl e ↦ let k = (rw e at h) in (λ _. k.0, All-unselect P p xs k.1)
  | inr e ↦ (λ q. cc, All-unselect P p xs (rw e at h))
]

module _ {A : Type 0} {R S : A → A → Type 0} where
  pub Pairs-mono : (xs : List A) → ((a b : A) → R a b → S a b) → Pairs R xs → Pairs S xs
  Pairs-mono [] f h = tt
  Pairs-mono (x ∷ xs) f h = (All-mono xs (f x) h.0, Pairs-mono xs f h.1)

module _ {A B : Type 0} (f : A → B) where
  pub All-map : (P : B → Type 0) (xs : List A) → All (λ a. P (f a)) xs → All P (map f xs)
  All-map P [] h = tt
  All-map P (x ∷ xs) h = (h.0, All-map P xs h.1)

  pub Pairs-map :
      (R : B → B → Type 0) (xs : List A) → Pairs (λ a b. R (f a) (f b)) xs → Pairs R (map f xs)
  Pairs-map R [] h = tt
  Pairs-map R (x ∷ xs) h = (All-map (R (f x)) xs h.0, Pairs-map R xs h.1)
