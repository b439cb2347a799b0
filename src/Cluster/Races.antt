-- ===== src/Cluster/Races.antt =====
-- handle_commit of coordinator/commit.py, and what other sessions can do between its reads and its
-- writes: the SELECTs lock no row.
use chaos_harness.Common.{
  ℕ, ◌≤◌, String, ◌≡◌, refl, sym, subst, inl, inr, true, false, none, some, [], arith, length, ◌==◌,
  ==_self, ==_iff, Bool-cases,
}
use chaos_harness.Common.Int.{ℤ, pos}
use chaos_harness.Json.{Json, Fields, get, or_empty}
use chaos_harness.Schema.{Db, leases_of, accepted_of, latest, record_transition}
use chaos_harness.Runtime.{World, PgText}
use chaos_harness.Commit.{CommitEnv, accepted_fence, is_valid, accept, insert_commit, handle_commit}
use chaos_harness.Cluster.Tables.{commit_cases}
use chaos_harness.Cluster.Commits.{accepted_none}
use chaos_harness.Cluster.Finality.{IsSuperseded}
use chaos_harness.Cluster.Acks.{written, IsWellFormed, IsOpen}

-- At most one accepted row of the job: what the index `one_accept` says.
abbrev pub HasOne : ℕ → Db → Type 0
HasOne i d = length (accepted_of i d.commits) ≤ 1

accept_one :
    (e : CommitEnv) (i j : ℕ) (f : ℤ) (result : Json) (worker coord : String) (d : Db)
    → accepted_fence j d.commits ≡ none
    → HasOne i d
    → HasOne i (accept e j f result worker coord d)
unfolding accept insert_commit record_transition accepted_of
accept_one e i j f result worker coord d free one = elim (Bool-cases (j == i)) [
  | inl same ↦
      let none_yet = accepted_none j d.commits free in
      let empty = subst (λ k. accepted_of k d.commits ≡ []) ((==_iff j i).0 same) none_yet in
      rw (same, empty) (omega arith)
  | inr other ↦ rw other one
]

reject_one :
    (now i j : ℕ) (f : ℤ) (worker : String) (d : Db)
    → HasOne i d
    → HasOne i (insert_commit now j f worker false d)
unfolding insert_commit accepted_of
reject_one now i j f worker d one = ground arith

-- Whatever other sessions commit between the reads of handle_commit and its writes: if the job has
-- at most one accepted commit before the request, and when its writes begin, then it has at most
-- one after it.
pub accepts_once :
    (u : PgText) (e : CommitEnv) (m : Fields) (w : World) (i : ℕ)
    → HasOne i w.db
    → HasOne i (e.others w.db)
    → HasOne i (handle_commit u e m w).1.db
accepts_once u e m w i now later =
    commit_cases (HasOne i) u e w now later
      (λ j f result valid free.
        accept_one e i j f result w.conn.worker_id w.app.coord_id (e.others w.db) free later)
      (λ j f. reject_one e.insert_ms i j f w.conn.worker_id (e.others w.db) later) m

accept_fence :
    (e : CommitEnv) (j : ℕ) (f : ℤ) (result : Json) (worker coord : String) (d : Db)
    → accepted_fence j (accept e j f result worker coord d).commits ≡ some f
unfolding accepted_fence accept insert_commit record_transition accepted_of
accept_fence e j f result worker coord d = rw (==_self j, accepted_fence) refl

accept_leases :
    (e : CommitEnv) (j : ℕ) (f : ℤ) (result : Json) (worker coord : String) (d : Db)
    → leases_of j (accept e j f result worker coord d).leases ≡ leases_of j d.leases
unfolding accept insert_commit record_transition
accept_leases e j f result worker coord d = refl

-- The lease is valid when handle_commit reads it, and before the writes other sessions give the
-- job a newer lease: the old fence is accepted all the same.
pub stale_accepted :
    (u : PgText) (e : CommitEnv) (m : Fields) (w : World) (sent : String) (f j : ℕ)
    → IsWellFormed u m sent (pos f) j
    → IsOpen e.mono w
    → is_valid e.read_ms (pos f) (latest (leases_of j w.db.leases)) ≡ true
    → accepted_fence j w.db.commits ≡ none
    → accepted_fence j (e.others w.db).commits ≡ none
    → IsSuperseded f (leases_of j (e.others w.db).leases)
    → e.jsonb_ok ≡ true
    → e.commit_ok ≡ true
    → (accepted_fence j (handle_commit u e m w).1.db.commits ≡ some (pos f))
      × IsSuperseded f (leases_of j (handle_commit u e m w).1.db.leases)
stale_accepted u e m w sent f j named opened valid free still newer jsonb good =
    let (done, _, _) =
      written u e m w sent (pos f) j named.0 named.1 opened.0 opened.1 valid free still jsonb in
    subst
      (λ (x : Db).
        (accepted_fence j x.commits ≡ some (pos f)) × IsSuperseded f (leases_of j x.leases))
      (sym (done good))
      (
        accept_fence e j (pos f) (or_empty (get "result" m)) w.conn.worker_id w.app.coord_id
            (e.others w.db),
        subst (IsSuperseded f)
            (sym (
              accept_leases e j (pos f) (or_empty (get "result" m)) w.conn.worker_id w.app.coord_id
                (e.others w.db)))
            newer,
      )
