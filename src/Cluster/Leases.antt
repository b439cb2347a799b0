-- ===== src/Cluster/Leases.antt =====
-- The heartbeat of coordinator/commit.py, and the return of an overdue job by coordinator/reaper.py.
use chaos_harness.Common.{
  ℕ, ◌+◌, ◌-◌, ◌≡◌, refl, sym, ap, subst, ◌∙◌, inl, inr, Bool, true, ◌&&◌, some, List, [], ◌∷◌,
  arith, Bool-cases, update, map, if◌then◌else◌, ◌==◌, ==_self, first, All,
}
use chaos_harness.Common.Int.{ℤ, pos, int_eq, fits_bigint}
use chaos_harness.Json.{Json, Fields}
use chaos_harness.Schema.{
  pending, leased, Lease, Db, is_live, leases_of, state_of, accepted_of, latest, record_transition,
}
use chaos_harness.Runtime.{World, PgText, publish}
use chaos_harness.Runtime.Gate.{ok, gated-open}
use chaos_harness.Commit.{lease_key, uuid_param, renew, handle_heartbeat}
use chaos_harness.Reaper.{
  ReapEnv, reap, reap_one, to_expire, overdue, expire, may_requeue, requeue, is_max_fence,
  note_requeue,
}
use chaos_harness.Cluster.{IsScanned}
use chaos_harness.Schema.Lookup.{In, In-select, state_of-set_state}
use chaos_harness.Protocol.{IsOwned, IsExpired, IsFalling}
use chaos_harness.Cluster.{Step}
use chaos_harness.Cluster.Consistent.{IsConsistent}
use chaos_harness.Cluster.Overdue.{max_fence_head}
use chaos_harness.Cluster.Reaps.{leases_of-expired}
use chaos_harness.Cluster.Invariant.{Step-IsConsistent}
use chaos_harness.Cluster.Acks.{IsOpen}

-- An UPDATE, row by row.
update_is :
    {A : Type 0} (p : A → Bool) (g : A → A) (xs : List A)
    → update p g xs ≡ map (λ x. if p x then g x else x) xs
unfolding update
update_is p g [] = refl
update_is p g (x ∷ xs) = ap (◌∷◌ (if p x then g x else x)) (update_is p g xs)

-- The live row that a heartbeat names.
abbrev pub is_named : ℕ → ℤ → Lease → Bool
is_named j f l = l.job_id == j && (int_eq (pos l.fence) f && is_live l)

-- A heartbeat that names a job and a fence, the gate being open, succeeds, and all that it does is
-- to give each live lease of both the deadline `now` + TTL: no row goes or comes, every other row and
-- every other column of these is as it was, and so is everything outside the table.
pub heartbeat_renews :
    (u : PgText) (mono now : ℕ) (m : Fields) (w : World) (id : Json) (j : ℕ) (f : ℤ)
    → lease_key m ≡ some (id, f)
    → uuid_param u id ≡ some j
    → fits_bigint f ≡ true
    → IsOpen mono w
    → handle_heartbeat u mono now m w ≡ (
      ok tt,
      record w {
        db = record w.db {
          leases =
              map
                (λ (l : Lease).
                  if is_named j f l
                  then record l { expires_at_ms = now + w.app.lease_ttl_ms }
                  else l)
                w.db.leases;
        };
      },
    )
unfolding handle_heartbeat renew
heartbeat_renews u mono now m w id j f named parsed fits opened =
    let rows =
      update_is (is_named j f) (λ l. record l { expires_at_ms = now + w.app.lease_ttl_ms })
        w.db.leases in
    rw
      (
        named,
        handle_heartbeat,
        gated-open mono w.app.db_gate opened.0 _ _ opened.1,
        parsed,
        fits,
        rows,
      )
      refl

first-In :
    {A : Type 0} (p : A → Bool) (a : A) (xs : List A)
    → In a xs
    → p a ≡ true
    → (r : A) × (first p xs ≡ some r)
unfolding first
first-In p a [] h q = absurd h
first-In p a (x ∷ xs) (inl e) q = (x, rw (sym e, q) refl)
first-In p a (x ∷ xs) (inr h) q = elim (Bool-cases (p x)) [
  | inl b ↦ (x, rw b refl)
  | inr b ↦ let (r, k) = first-In p a xs h q in (r, rw (b, k) refl)
]

In-IsScanned : (row : Lease) (ls : List Lease) → In row ls → IsScanned row ls
In-IsScanned row [] h = h
In-IsScanned row (l ∷ ls) (inl e) = inl (
  ap (λ (m : Lease). m.id) (sym e),
  ap (λ (m : Lease). m.job_id) (sym e),
  ap (λ (m : Lease). m.fence) (sym e),
)
In-IsScanned row (l ∷ ls) (inr h) = inr (In-IsScanned row ls h)

leased_unaccepted : (s : _) (ls : List Lease) (cs : _) → s ≡ some leased → IsOwned s ls cs → cs ≡ []
leased_unaccepted s ls cs q o = (subst (λ x. IsOwned x ls cs) q o).1

pending-IsExpired :
    (s : _) (ls : List Lease) (cs : _) → s ≡ some pending → IsOwned s ls cs → All IsExpired ls
pending-IsExpired s ls cs q o = (subst (λ x. IsOwned x ls cs) q o).0

note_db :
    (u : PgText) (e : ReapEnv) (j late : ℕ) (v : World) → (note_requeue u e j late v).db ≡ v.db
unfolding note_requeue publish
note_db u e j late v = ground arith

module _ (u : PgText) (e : ReapEnv) (row : Lease) (ls : List Lease) (w : World)
    (c : IsConsistent w.db) (newest : leases_of row.job_id w.db.leases ≡ row ∷ ls)
    (held : state_of row.job_id w.db.jobs ≡ some leased) where
  present : In row w.db.leases
  unfolding leases_of
  present =
      (In-select (λ l. l.job_id == row.job_id) row w.db.leases
        (subst (In row) (sym newest) (inl refl))).0

  is_last :
      is_max_fence row.fence (latest (leases_of row.job_id (expire e row.id w.db.leases))) ≡ true
  is_last =
      let falling = subst IsFalling newest (c.sound row.job_id).falling in
      rw (leases_of-expired row.job_id e row.id w.db.leases, newest)
        (max_fence_head e row row ls falling ∙ ==_self row.fence)

  requeued :
      may_requeue row.job_id row.fence (record w.db { leases = expire e row.id w.db.leases }) ≡ true
  unfolding may_requeue
  requeued =
      let none_yet =
        leased_unaccepted (state_of row.job_id w.db.jobs) (leases_of row.job_id w.db.leases)
          (accepted_of row.job_id w.db.commits) held (c.sound row.job_id).owned in
      rw (held, is_last, none_yet) refl

  reaped :
      (r : Lease)
      → first (to_expire e row.id) w.db.leases ≡ some r
      → IsOpen e.mono w
      → e.commit_ok ≡ true
      → (reap_one u e row w).1.db
        ≡ requeue e row.job_id w.app.coord_id (record w.db { leases = expire e row.id w.db.leases })
  unfolding reap_one reap
  reaped r found opened good =
      let noted = note_db u e row.job_id (e.overdue_ms - r.expires_at_ms) (record w {
        db =
            requeue e row.job_id w.app.coord_id
              (record w.db { leases = expire e row.id w.db.leases });
      }) in
      rw (reap_one, gated-open e.mono w.app.db_gate opened.0 _ _ opened.1, found, reap, requeued)
        (ground (arith, noted))

  back_in_queue :
      state_of row.job_id
        (requeue e row.job_id w.app.coord_id
          (record w.db { leases = expire e row.id w.db.leases })).jobs
      ≡ some pending
  unfolding requeue record_transition
  back_in_queue =
      rw
        (state_of-set_state row.job_id row.job_id pending e.now w.db.jobs, ==_self row.job_id, held)
        refl

  -- On a consistent database, the newest lease of a leased job being overdue: `_reap_one` on its row,
  -- if the gate is open and the COMMIT succeeds, makes the job pending and leaves it no live lease.
  pub reap_recovers :
      overdue e.expire_ms row ≡ true
      → IsOpen e.mono w
      → e.commit_ok ≡ true
      → (state_of row.job_id (reap_one u e row w).1.db.jobs ≡ some pending)
        × All IsExpired (leases_of row.job_id (reap_one u e row w).1.db.leases)
  unfolding to_expire
  reap_recovers late opened good =
      let (r, found) =
        first-In (to_expire e row.id) row w.db.leases present (rw (==_self row.id, late) refl) in
      let back : state_of row.job_id (reap_one u e row w).1.db.jobs ≡ some pending =
        ap (λ (d : Db). state_of row.job_id d.jobs) (reaped r found opened good) ∙ back_in_queue in
      let after =
        Step-IsConsistent {u = u} c
          (Step.reap e row w (In-IsScanned row w.db.leases present) refl refl) in
      (
        back,
        pending-IsExpired (state_of row.job_id (reap_one u e row w).1.db.jobs) _ _ back
            (after.sound row.job_id).owned,
      )
