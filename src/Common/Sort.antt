-- ===== src/Common/Sort.antt =====
-- A stable insertion sort by a Boolean order, for ORDER BY and for `sorted`, and what it keeps.
use Prim.Native.Nat.{suc}
use mathlib.Core.Path.{◌≡◌, refl, ap, ◌∙◌}
use mathlib.Core.Bool.{Bool, true, false}
use mathlib.Core.Logic.{inl, inr}
use mathlib.Core.List.{List, [], ◌∷◌, ◌++◌}
use native.Mathlib.Omega.{arith}
use chaos_harness.Common.Tests.{if◌then◌else◌, Bool-cases}
use chaos_harness.Common.Rows.{length, select, exists, All, Pairs, All-mono, All-zip}

module _ {A : Type 0} (le : A → A → Bool) where
  insert : A → List A → List A
  insert a [] = a ∷ []
  insert a (x ∷ xs) = let later = insert a xs in if le a x then a ∷ x ∷ xs else x ∷ later

  unfoldable pub sort : List A → List A
  unfolding insert
  sort [] = []
  sort (x ∷ xs) = insert x (sort xs)

  module _ (P : A → Type 0) where
    All-insert : (a : A) (xs : List A) → P a → All P xs → All P (insert a xs)
    unfolding insert
    All-insert a [] p h = (p, tt)
    All-insert a (x ∷ xs) p h = elim (Bool-cases (le a x)) [
      | inl e ↦ rw e (p, h)
      | inr e ↦ rw e (h.0, All-insert a xs p h.1)
    ]

    pub All-sort : (xs : List A) → All P xs → All P (sort xs)
    unfolding sort
    All-sort [] h = tt
    All-sort (x ∷ xs) h = All-insert x (sort xs) h.0 (All-sort xs h.1)

  -- Some entry meets p before the sort exactly if one does after it.
  exists-insert : (p : A → Bool) (a : A) (xs : List A) → exists p (insert a xs) ≡ exists p (a ∷ xs)
  unfolding insert exists
  exists-insert p a [] = refl
  exists-insert p a (x ∷ xs) = ground (arith, exists-insert p a xs)

  pub exists-sort : (p : A → Bool) (xs : List A) → exists p (sort xs) ≡ exists p xs
  unfolding sort exists
  exists-sort p [] = refl
  exists-sort p (x ∷ xs) =
      exists-insert p x (sort xs)
      ∙ unfold exists in ap (λ b. if p x then true else b) (exists-sort p xs)

  length-select-insert :
      (p : A → Bool) (a : A) (xs : List A)
      → length (select p (insert a xs)) ≡ length (select p (a ∷ xs))
  unfolding insert select
  length-select-insert p a [] = refl
  length-select-insert p a (x ∷ xs) = ground (arith, length-select-insert p a xs)

  pub length-select-sort :
      (p : A → Bool) (xs : List A) → length (select p (sort xs)) ≡ length (select p xs)
  unfolding sort select
  length-select-sort p [] = refl
  length-select-sort p (x ∷ xs) =
      length-select-insert p x (sort xs) ∙ ground (arith, length-select-sort p xs)

  module _ (R : A → A → Type 0) (sym_R : (a b : A) → R a b → R b a)
      (total : (a b : A) → R a b → le a b ≡ false → le b a ≡ true)
      (transitive : (a b c : A) → le a b ≡ true → le b c ≡ true → le a c ≡ true) where
    -- Entries in pairs that R relates, and in order.
    abbrev Ordered : A → A → Type 0
    Ordered a b = R a b × (le a b ≡ true)

    insert-Ordered :
        (a : A) (xs : List A) → All (R a) xs → Pairs Ordered xs → Pairs Ordered (insert a xs)
    unfolding insert
    insert-Ordered a [] r h = (tt, tt)
    insert-Ordered a (x ∷ xs) r h = elim (Bool-cases (le a x)) [
      | inl e ↦ rw e (
        (
          (r.0, e),
          All-mono xs (λ y k. (k.0, transitive a x y e k.1.1))
              (All-zip (R a) (Ordered x) xs r.1 h.0),
        ),
        h,
      )
      | inr e ↦ rw e (
        All-insert (Ordered x) a xs (sym_R a x r.0, total a x r.0 e) h.0,
        insert-Ordered a xs r.1 h.1,
      )
    ]

    pub sort-Ordered : (xs : List A) → Pairs R xs → Pairs Ordered (sort xs)
    unfolding sort
    sort-Ordered [] h = tt
    sort-Ordered (x ∷ xs) h =
        insert-Ordered x (sort xs) (All-sort (R x) xs h.0) (sort-Ordered xs h.1)

  -- A sorted list is its own sort.
  insert-least : (a : A) (xs : List A) → All (λ x. le a x ≡ true) xs → insert a xs ≡ a ∷ xs
  unfolding insert
  insert-least a [] h = refl
  insert-least a (x ∷ xs) h = rw h.0 refl

  pub sort-sorted : (xs : List A) → Pairs (λ a b. le a b ≡ true) xs → sort xs ≡ xs
  unfolding sort
  sort-sorted [] h = refl
  sort-sorted (x ∷ xs) h = rw (sort-sorted xs h.1) (insert-least x xs h.0)

  -- An entry that precedes none goes to the end.
  insert-greatest :
      (a : A) (xs : List A) → All (λ x. le a x ≡ false) xs → insert a xs ≡ xs ++ a ∷ []
  unfolding insert
  insert-greatest a [] h = refl
  insert-greatest a (x ∷ xs) h = rw (h.0, insert-greatest a xs h.1) refl

  pub sort-greatest :
      (a : A) (xs : List A) → All (λ x. le a x ≡ false) xs → sort (a ∷ xs) ≡ sort xs ++ a ∷ []
  unfolding sort
  sort-greatest a xs h = insert-greatest a (sort xs) (All-sort (λ x. le a x ≡ false) xs h)

  length-insert : (a : A) (xs : List A) → length (insert a xs) ≡ suc (length xs)
  unfolding insert
  length-insert a [] = refl
  length-insert a (x ∷ xs) = ground (arith, length-insert a xs)

  pub length-sort : (xs : List A) → length (sort xs) ≡ length xs
  unfolding sort
  length-sort [] = refl
  length-sort (x ∷ xs) = length-insert x (sort xs) ∙ ap suc (length-sort xs)
