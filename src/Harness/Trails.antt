-- ===== src/Harness/Trails.antt =====
-- What `_verify` of chaos_harness.py finds on the trail of one job of a consistent database.
use chaos_harness.Common.{
  ℕ, String, ◌≡◌, refl, ap, ◌∙◌, ◌⊎◌, inl, inr, Bool, true, false, not, ◌&&◌, Option, none, some,
  List, [], ◌∷◌, arith, map, ◌==◌, if◌then◌else◌, length, select, exists,
}
use chaos_harness.Common.Sort.{sort, exists-sort, length-select-sort}
use chaos_harness.Schema.{
  JobState, pending, leased, succeeded, failed, cancelled, Transition, Lease, Commit, Db,
  accepted_of, transitions_of, commits_of,
}
use chaos_harness.Audit.{
  transition_entry, commit_entry, transition_le, commit_le, transition_rows, commit_rows,
}
use chaos_harness.Protocol.{Walk, Edge, IsOwned}
use chaos_harness.Harness.{lost, is_terminal, count_check}

-- The job still has to reach a terminal state.
abbrev pub is_unfinished : Option JobState → Bool
is_unfinished (some pending) = true
is_unfinished (some leased) = true
is_unfinished _ = false

module _ {A B : Type 0} (f : A → B) where
  exists-map : (p : B → Bool) (xs : List A) → exists p (map f xs) ≡ exists (λ a. p (f a)) xs
  unfolding exists
  exists-map p [] = refl
  exists-map p (x ∷ xs) = ap (λ b. if p (f x) then true else b) (exists-map p xs)

  length-select-map :
      (p : B → Bool) (xs : List A)
      → length (select p (map f xs)) ≡ length (select (λ a. p (f a)) xs)
  unfolding select
  length-select-map p [] = refl
  length-select-map p (x ∷ xs) = ground (arith, length-select-map p xs)

select-select :
    {A : Type 0} (p q : A → Bool) (xs : List A)
    → select q (select p xs) ≡ select (λ a. p a && q a) xs
unfolding select
select-select p q [] = refl
select-select p q (x ∷ xs) = ground (arith, select-select p q xs)

-- The accepted rows of the reply are those of the index.
pub accepted_count :
    (j : ℕ) (d : Db)
    → length (select (λ c. c.accepted) (map commit_entry (commit_rows j d)))
      ≡ length (accepted_of j d.commits)
unfolding commit_rows accepted_of commits_of
accepted_count j d =
    length-select-map commit_entry (λ c. c.accepted)
      (sort commit_le (select (λ c. c.job_id == j) d.commits))
    ∙ length-select-sort commit_le (λ c. c.accepted) (select (λ c. c.job_id == j) d.commits)
    ∙ ap length (select-select (λ c. c.job_id == j) (λ c. c.accepted) d.commits)

abbrev pub ends : Transition → Bool
ends t = is_terminal (transition_entry t)

-- Every step starts from a job that is new or unfinished.
edge_from : (f : Option JobState) (s : JobState) → Edge f s → (f ≡ none) ⊎ (is_unfinished f ≡ true)
edge_from _ _ Edge.submit = inl refl
edge_from _ _ Edge.claim = inr refl
edge_from _ _ Edge.requeue = inr refl
edge_from _ _ Edge.finish = inr refl
edge_from _ _ Edge.cancel = inr refl

unfinished_to :
    (s : JobState) (t : Transition)
    → t.to_state ≡ s
    → is_unfinished (some s) ≡ true
    → ends t ≡ false
unfolding is_terminal
unfinished_to s t e h = ground arith

-- The log of a job that is new or unfinished has no terminal entry.
no_end :
    (s : Option JobState) (ts : List Transition)
    → (s ≡ none) ⊎ (is_unfinished s ≡ true)
    → Walk s ts
    → exists ends ts ≡ false
unfolding exists
no_end none [] h w = refl
no_end none (t ∷ ts) h w = absurd w
no_end (some s) [] h w = absurd w
no_end (some s) (t ∷ ts) h w = elim h [
  | inl e ↦ cc
  | inr e ↦ rw (unfinished_to s t w.0 e) (no_end t.from_state ts (edge_from t.from_state s w.1) w.2)
]

-- The log of a job that exists has a terminal entry exactly if the job is not unfinished.
pub end_iff :
    (s : JobState) (ts : List Transition)
    → Walk (some s) ts
    → exists ends ts ≡ not (is_unfinished (some s))
unfolding exists is_terminal
end_iff s [] w = absurd w
end_iff pending ts w = no_end (some pending) ts (inr refl) w
end_iff leased ts w = no_end (some leased) ts (inr refl) w
end_iff succeeded (t ∷ ts) w = ground arith
end_iff failed (t ∷ ts) w = ground arith
end_iff cancelled (t ∷ ts) w = ground arith

pub transitions_end :
    (j : ℕ) (d : Db)
    → exists is_terminal (map transition_entry (transition_rows j d))
      ≡ exists ends (transitions_of j d.job_transitions)
unfolding transition_rows
transitions_end j d =
    exists-map transition_entry is_terminal
      (sort transition_le (transitions_of j d.job_transitions))
    ∙ exists-sort transition_le ends (transitions_of j d.job_transitions)

-- `lost` is reported of an unfinished job and of no other; no double commit is reported.
pub count_clean :
    (jid : String) (s : JobState) (ls : List Lease) (cs : List Commit)
    → IsOwned (some s) ls cs
    → count_check jid (length cs) (not (is_unfinished (some s)))
      ≡ (if is_unfinished (some s) then lost jid ∷ [] else [])
unfolding count_check
count_clean jid pending ls cs o = rw o.1 refl
count_clean jid leased ls cs o = rw o.1 refl
count_clean jid succeeded (l ∷ ls) (c ∷ []) o = refl
count_clean jid succeeded (l ∷ ls) [] o = absurd o
count_clean jid succeeded (l ∷ ls) (c ∷ _ ∷ _) o = absurd o
count_clean jid succeeded [] cs o = absurd o
count_clean jid failed ls cs o = absurd o
count_clean jid cancelled ls cs o = rw o.1 refl
