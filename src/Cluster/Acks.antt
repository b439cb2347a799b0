-- ===== src/Cluster/Acks.antt =====
-- handle_commit and _finish of coordinator/commit.py: what is stored, and what the worker hears.
use chaos_harness.Common.{
  ℕ, ◌-◌, String, ◌≡◌, refl, sym, ap, subst, ◌∙◌, inl, inr, Bool, true, false, none, some, ◌∷◌,
  arith, ltb, if◌then◌else◌, Bool-cases,
}
use chaos_harness.Common.Int.{ℤ, int_eq_iff}
use chaos_harness.Json.{Json, Fields, str, obj, field, end, get, or_empty}
use chaos_harness.Schema.{Db, leases_of, latest, init, succeeded}
use chaos_harness.Runtime.{World, PgText, send, count}
use chaos_harness.Runtime.Rates.{incr}
use chaos_harness.Runtime.Gate.{Result, ok, raise, db_error, is_partitioned, gated-open}
use chaos_harness.Commit.{
  CommitEnv, lease_key, finish, accepted_fence, is_valid, accept, try_accept, commit_body, close,
  commit_text, handle_commit,
}
use chaos_harness.Cluster.{IsSerial, Reach}
use chaos_harness.Cluster.Invariant.{Reach-IsConsistent, init-IsConsistent}
use chaos_harness.Cluster.Safety.{committed_once}
use chaos_harness.Cluster.Finality.{final_for_good}

abbrev pub ack : String → Json
ack sent = obj (field "type" (str "ack") (field "job_id" (str sent) end))

-- What an accepted commit changes in the process: the frames sent and the acks still to drop.
abbrev pub IsAnswered : CommitEnv → String → World → World → Type 0
IsAnswered e sent w w' =
    (w'.conn.ws_sent ≡ (
      if ltb 0 w.app.drop_acks_remaining
      then w.conn.ws_sent
      else (if e.send_ok then ack sent ∷ w.conn.ws_sent else w.conn.ws_sent)))
    × (w'.app.drop_acks_remaining ≡ w.app.drop_acks_remaining - 1)

finish-IsAnswered :
    (e : CommitEnv) (sent : String) (w : World) → IsAnswered e sent w (finish e.send_ok sent true w)
unfolding finish send
finish-IsAnswered e sent w = (ground arith, ground arith)

finish_db :
    (send_ok : Bool) (sent : String) (b : Bool) (w : World) → (finish send_ok sent b w).db ≡ w.db
unfolding finish send
finish_db send_ok sent b w = ground arith

close_ok :
    (e : CommitEnv) (d : Db) (w : World) → e.commit_ok ≡ true → close e d (ok tt, w) ≡ (ok tt, w)
unfolding close
close_ok e d w good = ground arith

close_bad :
    (e : CommitEnv) (d : Db) (w : World)
    → e.commit_ok ≡ false
    → close e d (ok tt, w) ≡ (raise db_error, record w { db = d })
unfolding close
close_bad e d w bad = ground arith

-- A well-formed message, on a coordinator whose gate is open.
module _ (u : PgText) (e : CommitEnv) (m : Fields) (w : World) (sent : String) (f : ℤ) (j : ℕ)
    (named : lease_key m ≡ some (str sent, f)) (parsed : u.parse sent ≡ some j)
    (up : w.app.db_gate.connected ≡ true)
    (passed : is_partitioned e.mono w.app.db_gate ≡ false) where
  pub runs :
      handle_commit u e m w
      ≡ close e (e.others w.db) (commit_body e j sent f (or_empty (get "result" m)) w)
  unfolding handle_commit commit_text
  runs =
      rw (named, handle_commit, gated-open e.mono w.app.db_gate up _ _ passed, commit_text, parsed)
        refl

  pub replay :
      accepted_fence j w.db.commits ≡ some f
      → e.commit_ok ≡ true
      → IsSerial e.others
      → handle_commit u e m w ≡ (ok tt, finish e.send_ok sent true w)
  unfolding commit_body close
  replay stored committed serial =
      rw (runs, commit_body, stored, (int_eq_iff f f).1 refl, close, committed, serial w.db) refl

  module _ (valid : is_valid e.read_ms f (latest (leases_of j w.db.leases)) ≡ true)
      (free : accepted_fence j w.db.commits ≡ none)
      (still : accepted_fence j (e.others w.db).commits ≡ none) (jsonb : e.jsonb_ok ≡ true) where
    stored : World
    unfolding count
    stored = count e.rates_ok e.sec "completed" (record w {
      db = accept e j f (or_empty (get "result" m)) w.conn.worker_id w.app.coord_id (e.others w.db);
    })

    accepted :
        handle_commit u e m w ≡ close e (e.others w.db) (ok tt, finish e.send_ok sent true stored)
    unfolding commit_body try_accept stored
    accepted = rw (runs, commit_body, free, valid, try_accept, still, jsonb) refl

    -- The writes are made, and undone if the COMMIT fails.
    pub written :
        (e.commit_ok ≡ true
          → (handle_commit u e m w).1.db
            ≡ accept e j f
                (or_empty (get "result" m))
                w.conn.worker_id
                w.app.coord_id
                (e.others w.db))
        × (e.commit_ok ≡ false → (handle_commit u e m w).1.db ≡ e.others w.db)
        × IsAnswered e sent w (handle_commit u e m w).1
    unfolding stored count incr
    written = elim (Bool-cases e.commit_ok) [
      | inl good ↦
          let run =
            accepted ∙ close_ok e (e.others w.db) (finish e.send_ok sent true stored) good in
          (
            λ _.
                ap (λ (r : Result (Unit {0}) × World). r.1.db) run
                ∙ finish_db e.send_ok sent true stored,
            λ q. cc,
            subst (λ (r : Result (Unit {0}) × World). IsAnswered e sent w r.1) (sym run)
                (finish-IsAnswered e sent stored),
          )
      | inr bad ↦
          let run =
            accepted ∙ close_bad e (e.others w.db) (finish e.send_ok sent true stored) bad in
          (
            λ q. cc,
            λ _. ap (λ (r : Result (Unit {0}) × World). r.1.db) run,
            subst (λ (r : Result (Unit {0}) × World). IsAnswered e sent w r.1) (sym run)
                (finish-IsAnswered e sent stored),
          )
    ]

abbrev pub IsWellFormed : PgText → Fields → String → ℤ → ℕ → Type 0
IsWellFormed u m sent f j = (lease_key m ≡ some (str sent, f)) × (u.parse sent ≡ some j)

abbrev pub IsOpen : ℕ → World → Type 0
IsOpen mono w = (w.app.db_gate.connected ≡ true) × (is_partitioned mono w.app.db_gate ≡ false)

pub stored_final :
    (u : PgText) (d d' : Db) (j : ℕ) (f : ℤ)
    → Reach u init d
    → accepted_fence j d.commits ≡ some f
    → Reach u d d'
    → accepted_fence j d'.commits ≡ some f
unfolding accepted_fence
stored_final u d d' j f before stored run = elim (committed_once before j) [
  | inl none_yet ↦ absurd (ground (arith, none_yet.0))
  | inr (c, l, ls, row, held, fence, above, done) ↦
      let kept =
        (final_for_good j succeeded (Reach-IsConsistent init-IsConsistent before) run done
          refl).1 in
      ground (arith, kept)
]

-- A worker that got no ack sends its commit again, to any coordinator and at any later time: if the
-- coordinator's gate is open and its COMMIT succeeds, the request leaves the database as it is, and
-- the worker is sent an ack, or one of the acks to be dropped is used up.
pub retry_acked :
    (u : PgText) (d : Db) (e : CommitEnv) (m : Fields) (w : World) (sent : String) (f : ℤ) (j : ℕ)
    → Reach u init d
    → accepted_fence j d.commits ≡ some f
    → Reach u d w.db
    → IsWellFormed u m sent f j
    → IsOpen e.mono w
    → IsSerial e.others
    → e.commit_ok ≡ true
    → ((handle_commit u e m w).1.db ≡ w.db) × IsAnswered e sent w (handle_commit u e m w).1
retry_acked u d e m w sent f j before stored run named opened serial good =
    let again =
      replay u e m w sent f j named.0 named.1 opened.0 opened.1
        (stored_final u d w.db j f before stored run) good serial in
    subst (λ (r : Result (Unit {0}) × World). (r.1.db ≡ w.db) × IsAnswered e sent w r.1) (sym again)
      (finish_db e.send_ok sent true w, finish-IsAnswered e sent w)

-- The accept path of handle_commit with a COMMIT that fails: the database is as it was, and yet the
-- worker has been sent its ack, or an ack still to be dropped has been used up.
pub undone_but_acked :
    (u : PgText) (e : CommitEnv) (m : Fields) (w : World) (sent : String) (f : ℤ) (j : ℕ)
    → IsWellFormed u m sent f j
    → IsOpen e.mono w
    → IsSerial e.others
    → is_valid e.read_ms f (latest (leases_of j w.db.leases)) ≡ true
    → accepted_fence j w.db.commits ≡ none
    → e.jsonb_ok ≡ true
    → e.commit_ok ≡ false
    → ((handle_commit u e m w).1.db ≡ w.db) × IsAnswered e sent w (handle_commit u e m w).1
undone_but_acked u e m w sent f j named opened serial valid free jsonb bad =
    let still = subst (λ x. accepted_fence j x.commits ≡ none) (sym (serial w.db)) free in
    let (_, undone, answered) =
      written u e m w sent f j named.0 named.1 opened.0 opened.1 valid free still jsonb in
    (undone bad ∙ serial w.db, answered)
