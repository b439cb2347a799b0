-- ===== src/Stream/Rows.antt =====
-- The query of handle_stream_job of coordinator/app.py: the rows above the last id are those that
-- the log has gained, the oldest first.
use mathlib.Core.List.{reverse, reverse-cons, append-nil}
use chaos_harness.Common.{
  ℕ, suc, ◌<◌, ◌≤◌, ◌≡◌, refl, sym, ap, subst, ◌∙◌, inl, inr, Bool, false, ◌&&◌, List, [], ◌∷◌,
  ◌++◌, arith, ltb, ◌==◌, select, All, All-mono, All-append, All-select, All-unselect, Bool-cases,
}
use chaos_harness.Common.Sort.{sort, sort-greatest}
use chaos_harness.Schema.{Transition, Db, transitions_of}
use chaos_harness.Cluster.Logs.{Falls, Falls-mono, Grows}
use chaos_harness.Stream.{id_le, new_rows, last_of}

module _ {A : Type 0} where
  select-append : (p : A → Bool) (xs ys : List A) → select p (xs ++ ys) ≡ select p xs ++ select p ys
  unfolding select
  select-append p [] ys = refl
  select-append p (x ∷ xs) ys = ground (arith, select-append p xs ys)

  select-none : (p : A → Bool) (xs : List A) → All (λ a. p a ≡ false) xs → select p xs ≡ []
  unfolding select
  select-none p [] h = refl
  select-none p (x ∷ xs) h = rw h.0 (select-none p xs h.1)

  select-same : (p q : A → Bool) (xs : List A) → All (λ a. p a ≡ q a) xs → select p xs ≡ select q xs
  unfolding select
  select-same p q [] h = refl
  select-same p q (x ∷ xs) h = rw (h.0, select-same p q xs h.1) refl

Falls-All : (b : ℕ) (ts : List Transition) → Falls b ts → All (λ t. t.id < b) ts
Falls-All b [] h = tt
Falls-All b (t ∷ ts) h = (h.0, All-mono ts (λ s q. omega arith) (Falls-All t.id ts h.1))

-- Falling ids are sorted by turning them round.
sort-Falls : (b : ℕ) (ts : List Transition) → Falls b ts → sort id_le ts ≡ reverse ts
unfolding sort
sort-Falls b [] h = refl
sort-Falls b (t ∷ ts) h =
    sort-greatest id_le t ts (All-mono ts (λ s q. ground arith) (Falls-All t.id ts h.1))
    ∙ ap (λ xs. xs ++ t ∷ []) (sort-Falls t.id ts h.1)
    ∙ sym (reverse-cons t ts)

Falls-select :
    (b : ℕ) (p : Transition → Bool) (ts : List Transition) → Falls b ts → Falls b (select p ts)
unfolding select
Falls-select b p [] h = tt
Falls-select b p (t ∷ ts) h = elim (Bool-cases (p t)) [
  | inl e ↦ rw e (h.0, Falls-select t.id p ts h.1)
  | inr e ↦ rw e (Falls-mono t.id b (select p ts) (omega arith) (Falls-select t.id p ts h.1))
]

Falls-prefix : (b : ℕ) (ts us : List Transition) → Falls b (ts ++ us) → Falls b ts
Falls-prefix b [] us h = tt
Falls-prefix b (t ∷ ts) us h = (h.0, Falls-prefix t.id ts us h.1)

last_of-append :
    (last : ℕ) (ts : List Transition) (t : Transition) → last_of last (ts ++ t ∷ []) ≡ t.id
unfolding last_of
last_of-append last [] t = refl
last_of-append last (s ∷ ts) t = last_of-append s.id ts t

-- All rows of a job up to `last` have been read, and nothing above the sequence.
pub record IsRead (j last : ℕ) (d : Db) : Type 0 where
  pub below : All (λ t. t.id ≤ last) (transitions_of j d.job_transitions)
  pub counted : last ≤ d.transition_ids

abbrev pub IsNumbered : Db → Type 0
IsNumbered d = Falls (suc d.transition_ids) d.job_transitions

module _ (j last : ℕ) (d d' : Db) (g : Grows d d') (r : IsRead j last d) (f : IsNumbered d) where
  -- What the job's log has gained, the newest first.
  abbrev pub gained : List Transition
  gained = transitions_of j g.added

  pub log-gained :
      transitions_of j d'.job_transitions ≡ gained ++ transitions_of j d.job_transitions
  unfolding transitions_of
  log-gained = rw g.rows (select-append (λ t. t.job_id == j) g.added d.job_transitions)

  read_before : select (λ t. t.job_id == j && ltb last t.id) d.job_transitions ≡ []
  unfolding transitions_of
  read_before = select-none _ d.job_transitions (
      All-mono d.job_transitions (λ t h. ground (arith, h))
        (All-unselect (λ t. t.id ≤ last) (λ t. t.job_id == j) d.job_transitions r.below))

  gained_rows : select (λ t. t.job_id == j && ltb last t.id) g.added ≡ gained
  unfolding transitions_of
  gained_rows =
      select-same _ _ g.added (All-mono g.added (λ t h. let c = r.counted in ground arith) g.above)

  gained-Falls : Falls (suc d'.transition_ids) gained
  unfolding transitions_of
  gained-Falls =
      Falls-select _ (λ t. t.job_id == j) g.added
        (Falls-prefix _ g.added d.job_transitions (rw g.rows at (g.falls f)))

  pub new_rows-gained : new_rows j last d' ≡ reverse gained
  unfolding new_rows
  new_rows-gained =
      rw
        (
          g.rows,
          select-append (λ t. t.job_id == j && ltb last t.id) g.added d.job_transitions,
          read_before,
          gained_rows,
          append-nil gained,
        )
        (sort-Falls _ gained gained-Falls)

-- The last id after the rows of a turn.
read_last :
    (rows old : List Transition) (last a b : ℕ)
    → Falls (suc b) rows
    → All (λ t. a < t.id) rows
    → last ≤ a
    → a ≤ b
    → All (λ t. t.id ≤ last) old
    → All (λ t. t.id ≤ last_of last (reverse rows)) (rows ++ old)
      × (last_of last (reverse rows) ≤ b)
unfolding last_of
read_last [] old last a b f above l ab h = (h, omega arith)
read_last (t ∷ rows) old last a b f above l ab h =
    let top = ap (last_of last) (reverse-cons t rows) ∙ last_of-append last (reverse rows) t in
    subst (λ m. All (λ s. s.id ≤ m) (t ∷ rows ++ old) × (m ≤ b)) (sym top)
      (
        (
          omega arith,
          All-append (λ s. s.id ≤ t.id) rows old
              (All-mono rows (λ s q. omega arith) (Falls-All t.id rows f.1))
              (All-mono old (λ s q. omega arith) h),
        ),
        omega arith,
      )

-- After a turn, the log as the turn met it has been read.
pub IsRead-step :
    (j last : ℕ) (d d' : Db)
    → Grows d d'
    → IsRead j last d
    → IsNumbered d
    → IsRead j (last_of last (new_rows j last d')) d'
unfolding transitions_of
IsRead-step j last d d' g r f =
    let fresh : All (λ t. d.transition_ids < t.id) (gained j last d d' g r f) =
      All-select _ (λ t. t.job_id == j) g.added g.above in
    let (below, counted) =
      read_last (gained j last d d' g r f) (transitions_of j d.job_transitions) last
        d.transition_ids d'.transition_ids (gained-Falls j last d d' g r f) fresh r.counted g.rising
        r.below in
    rw (new_rows-gained j last d d' g r f)
      (record { below = rw (log-gained j last d d' g r f) below; counted = counted })
