-- ===== src/Worker/Listed.antt =====
-- The set `_jobs` of worker/worker.py beside the tasks of the event loop: the numbers of its tasks
-- fall, so a done callback takes out its own task and no other.
use mathlib.Core.List.{map-append}
use chaos_harness.Common.{
  ℕ, suc, ◌<◌, ◌≤◌, ◌≡◌, refl, sym, ap, subst, ◌∙◌, ◌⊎◌, inl, inr, Bool, true, not, ◌==◌, ==_self,
  List, [], ◌∷◌, ◌++◌, map, select, exists, str_eq, arith, All, All-mono, Bool-cases, Option-cases,
}
use chaos_harness.Json.{Json, Fields, get, as_obj, as_str}
use chaos_harness.Worker.Frames.{Worker, handle, handle_fields}
use chaos_harness.Worker.Tasks.{Phase, created, Task, task, spawn, discard, discard_all, is_listed}

-- What `_jobs` has of a task.
abbrev pub entry : Task → ℕ × Fields
entry t = (t.number, t.frame)

-- The numbers fall, from below a bound.
abbrev pub IsFalling : ℕ → List (ℕ × Fields) → Type 0
IsFalling b [] = Unit
IsFalling b (j ∷ js) = (j.0 < b) × IsFalling j.0 js

IsFalling-mono : (a b : ℕ) (js : List (ℕ × Fields)) → a ≤ b → IsFalling a js → IsFalling b js
IsFalling-mono a b [] le h = tt
IsFalling-mono a b (j ∷ js) le h = (omega (arith, le, h.0), h.1)

pub IsFalling-drop :
    (b : ℕ) (xs ys : List (ℕ × Fields)) (j : ℕ × Fields)
    → IsFalling b (xs ++ j ∷ ys)
    → IsFalling b (xs ++ ys)
IsFalling-drop b [] ys j h = IsFalling-mono j.0 b ys (omega (arith, h.0)) h.1
IsFalling-drop b (x ∷ xs) ys j h = (h.0, IsFalling-drop x.0 xs ys j h.1)

falling_below :
    (b : ℕ) (xs ys : List (ℕ × Fields)) (j : ℕ × Fields) → IsFalling b (xs ++ j ∷ ys) → j.0 < b
falling_below b [] ys j h = h.0
falling_below b (x ∷ xs) ys j h =
    let less = falling_below x.0 xs ys j h.1 in omega (arith, less, h.0)

discard_none : (b i : ℕ) (js : List (ℕ × Fields)) → IsFalling b js → b ≤ i → discard i js ≡ js
unfolding discard select
discard_none b i [] h le = refl
discard_none b i (j ∷ js) h le =
    let rest = discard_none j.0 i js h.1 (omega (arith, h.0, le)) in
    elim (Bool-cases (j.0 == i)) [
      | inl e ↦ absurd (ground (arith, h.0, le))
      | inr e ↦ rw e (ap (◌∷◌ j) rest)
    ]

pub discard_middle :
    (b i : ℕ) (m : Fields) (xs ys : List (ℕ × Fields))
    → IsFalling b (xs ++ (i, m) ∷ ys)
    → discard i (xs ++ (i, m) ∷ ys) ≡ xs ++ ys
unfolding discard select
discard_middle b i m [] ys h = rw (==_self i) (discard_none i i ys h.1 (omega arith))
discard_middle b i m (x ∷ xs) ys h =
    let rest = discard_middle x.0 i m xs ys h.1 in
    let less = falling_below x.0 xs ys (i, m) h.1 in
    elim (Bool-cases (x.0 == i)) [
      | inl e ↦ absurd (ground (arith, less))
      | inr e ↦ rw e (ap (◌∷◌ x) rest)
    ]

-- `_jobs` keeps what it has of a task that changes its phase, and loses what its callback takes out.
pub entries_moved :
    (before after : List Task) (i : ℕ) (p q : Phase) (m : Fields)
    → map entry (before ++ task i p m ∷ after) ≡ map entry (before ++ task i q m ∷ after)
entries_moved before after i p q m =
    map-append entry before (task i p m ∷ after)
    ∙ sym (map-append entry before (task i q m ∷ after))

pub entries_discarded :
    (b i : ℕ) (p : Phase) (m : Fields) (before after : List Task)
    → IsFalling b (map entry (before ++ task i p m ∷ after))
    → (discard i (map entry (before ++ task i p m ∷ after)) ≡ map entry (before ++ after))
      × IsFalling b (map entry (before ++ after))
entries_discarded b i p m before after h =
    let whole = map-append entry before (task i p m ∷ after) in
    let rest = map-append entry before after in
    let falls = subst (IsFalling b) whole h in
    (
      ap (discard i) whole
          ∙ discard_middle b i m (map entry before) (map entry after) falls
          ∙ sym rest,
      subst (IsFalling b) (sym rest)
          (IsFalling-drop b (map entry before) (map entry after) (i, m) falls),
    )

select_every :
    {A : Type 0} (p : A → Bool) (xs : List A)
    → All (λ x. p x ≡ true) xs
    → (select p xs ≡ xs) × (select (λ x. not (p x)) xs ≡ [])
unfolding select
select_every p [] h = (refl, refl)
select_every p (x ∷ xs) h =
    let (all, none) = select_every p xs h.1 in (rw h.0 (ap (◌∷◌ x) all), rw h.0 none)

each_listed : (ts : List Task) → All (λ (t : Task). is_listed (map entry ts) t ≡ true) ts
unfolding is_listed exists
each_listed [] = tt
each_listed (t ∷ ts) =
    (rw (==_self t.number) refl, All-mono ts (λ u h. ground (arith, h)) (each_listed ts))

-- When `_jobs` has just the tasks, each is cancelled and none is left.
pub all_cancelled :
    (ts : List Task)
    → (select (is_listed (map entry ts)) ts ≡ ts)
      × (select (λ t. not (is_listed (map entry ts) t)) ts ≡ [])
all_cancelled ts = select_every (is_listed (map entry ts)) ts (each_listed ts)

pub all_discarded :
    (b : ℕ) (ts : List Task) → IsFalling b (map entry ts) → discard_all ts (map entry ts) ≡ []
unfolding discard_all
all_discarded b [] h = refl
all_discarded b (t ∷ ts) h =
    ap (discard_all ts) (discard_middle b t.number t.frame [] (map entry ts) h)
    ∙ all_discarded t.number ts h.1

-- A frame that makes a task puts it in `_jobs`, under the next number; any other makes none.
abbrev IsSpawned : List Task → Worker → Worker → Type 0
IsSpawned ts v w =
    ((ts ≡ []) × (w.jobs ≡ v.jobs) × (w.made ≡ v.made))
    ⊎ ((m : Fields) × (ts ≡ task v.made created m ∷ [])
        × (w.jobs ≡ (v.made, m) ∷ v.jobs)
        × (w.made ≡ suc v.made))

pub handle_spawns : (frame : Json) (v : Worker) → IsSpawned (spawn frame v) v (handle frame v).1
unfolding spawn handle handle_fields
handle_spawns frame v = elim (Option-cases (as_obj frame)) [
  | inl q ↦ rw (q, spawn, handle) (inl (refl, refl, refl))
  | inr (m, q) ↦ elim (Option-cases (as_str (get "type" m))) [
    | inl r ↦ rw (q, spawn, handle, r, handle_fields) (inl (refl, refl, refl))
    | inr (t, r) ↦ elim (Bool-cases (str_eq t "dispatch")) [
      | inl e ↦ rw (q, spawn, handle, r, handle_fields, e) (inr (m, refl, refl, refl))
      | inr e ↦ rw (q, spawn, handle, r, handle_fields, e) (inl (refl, ground arith, ground arith))
    ]
  ]
]
