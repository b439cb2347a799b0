-- ===== src/Ws/Registry.antt =====
-- WorkerRegistry of coordinator/ws.py: a dict from a worker's id to its connection.
use chaos_harness.Common.{
  ℕ, String, ◌≡◌, refl, sym, ap, ◌∙◌, inl, inr, true, Option, none, some, List, [], ◌∷◌, arith,
  str_eq, eq_iff, if◌then◌else◌, Bool-cases,
}

abbrev pub WorkerRegistry : Type 0
WorkerRegistry = List (String × ℕ)

-- `self._by_id[worker_id] = state`: a key that is there keeps its place.
unfoldable pub add : String → ℕ → WorkerRegistry → WorkerRegistry
add w c [] = (w, c) ∷ []
add w c ((v, d) ∷ r) = let later = add w c r in if str_eq v w then (v, c) ∷ r else (v, d) ∷ later

-- `self._by_id.pop(worker_id, None)`
unfoldable pub remove : String → WorkerRegistry → WorkerRegistry
remove w [] = []
remove w ((v, d) ∷ r) = let later = remove w r in if str_eq v w then later else (v, d) ∷ later

-- `self._by_id.get(worker_id)`
unfoldable pub lookup : String → WorkerRegistry → Option ℕ
lookup w [] = none
lookup w ((v, d) ∷ r) = let later = lookup w r in if str_eq v w then some d else later

-- `list(self._by_id.values())`
unfoldable pub all : WorkerRegistry → List ℕ
all [] = []
all ((v, d) ∷ r) = d ∷ all r

same_key : (x w v : String) → str_eq x v ≡ true → str_eq w v ≡ true → str_eq x w ≡ true
same_key x w v p q = (eq_iff x w).1 ((eq_iff x v).0 p ∙ sym ((eq_iff w v).0 q))

lookup-add :
    (w v : String) (c : ℕ) (r : WorkerRegistry)
    → lookup v (add w c r) ≡ (if str_eq w v then some c else lookup v r)
unfolding lookup add
lookup-add w v c [] = refl
lookup-add w v c ((x, d) ∷ r) = elim (Bool-cases (str_eq x w)) [
  | inl e ↦ ground (arith, e, ap (λ (y : String). str_eq y v) ((eq_iff x w).0 e))
  | inr e ↦ ground (arith, e, same_key x w v, lookup-add w v c r)
]

pub lookup-remove :
    (w v : String) (r : WorkerRegistry)
    → lookup v (remove w r) ≡ (if str_eq w v then none else lookup v r)
unfolding lookup remove
lookup-remove w v [] = ground arith
lookup-remove w v ((x, d) ∷ r) = elim (Bool-cases (str_eq x w)) [
  | inl e ↦
      ground (arith, e, ap (λ (y : String). str_eq y v) ((eq_iff x w).0 e), lookup-remove w v r)
  | inr e ↦ ground (arith, e, same_key x w v, lookup-remove w v r)
]
