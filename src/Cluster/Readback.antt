-- ===== src/Cluster/Readback.antt =====
-- From a commit of coordinator/commit.py to handle_get_job of coordinator/app.py: the result that is
-- read is the one that was committed, whatever happens in between.
use chaos_harness.Common.{
  ℕ, String, ◌≡◌, refl, sym, ap, ◌∙◌, subst, inl, inr, Bool, true, false, Option, none, some, List,
  [], ◌∷◌, arith, ◌==◌, ==_self, if◌then◌else◌, is_some, first, Option-cases,
}
use chaos_harness.Common.Int.{ℤ}
use chaos_harness.Json.{Json, Fields, str, obj, field, end, get, or_empty}
use chaos_harness.Schema.{succeeded, Db, init, state_of, leases_of, accepted_of, latest}
use chaos_harness.Runtime.{World, PgText}
use chaos_harness.Runtime.Gate.{gated-open}
use chaos_harness.Http.{Response}
use chaos_harness.Jobs.{handle_get_job}
use chaos_harness.Commit.{
  CommitEnv, accepted_fence, is_valid, accept, insert_commit, renew, handle_commit,
}
use chaos_harness.Cluster.{Step, Reach, here, next, IsSerial}
use chaos_harness.Cluster.Tables.{
  create_cases, claim_cases, heartbeat_cases, reap_cases, cancel_cases, commit_cases,
}
use chaos_harness.Cluster.Consistent.{IsConsistent}
use chaos_harness.Cluster.Invariant.{Reach-IsConsistent, init-IsConsistent}
use chaos_harness.Cluster.Finality.{final_for_good}
use chaos_harness.Cluster.Safety.{committed_once}
use chaos_harness.Cluster.Commits.{state_of-set_result}
use chaos_harness.Cluster.Acks.{written, IsOpen, IsWellFormed}
use chaos_harness.Cluster.Results.{
  result_of, result_of-set_result, row_found, Keeps, insert-Keeps, cancel_at, claim-Keeps,
  reap-Keeps, accept-Keeps,
}

-- From a world whose database is d.
at_db :
    {d d' : Db} (j : ℕ) (d₁ d₂ : Db)
    → d₁ ≡ d
    → d' ≡ d₂
    → (state_of j d₁.jobs ≡ some succeeded → Keeps j d₁ d₂)
    → state_of j d.jobs ≡ some succeeded
    → Keeps j d d'
at_db {d} {d'} j d₁ d₂ from to g =
    subst (λ x. state_of j x.jobs ≡ some succeeded → Keeps j x d') from
      (subst (λ x. state_of j d₁.jobs ≡ some succeeded → Keeps j d₁ x) (sym to) g)

step-Keeps :
    {u : PgText} {d d' : Db} (j : ℕ)
    → IsConsistent d
    → Step u d d'
    → state_of j d.jobs ≡ some succeeded
    → Keeps j d d'
step-Keeps {u} j c (Step.create e body w from to) = at_db j w.db _ from to λ done.
    create_cases (Keeps j w.db) u e body w refl
      λ key payload b i d q. insert-Keeps j w.db done e key payload w.app.coord_id b i d q
step-Keeps {u} j c (Step.cancel e id w serial from to) = at_db j w.db _ from to λ done.
    cancel_cases (Keeps j w.db) u e id w (λ d h. subst (Keeps j w.db) (sym (serial d)) h) refl
      λ i. cancel_at j w.db done e i w.app.coord_id _ refl
step-Keeps {u} j c (Step.claim e w from to) = at_db j w.db _ from to λ done.
    claim_cases (Keeps j w.db) u e w refl
      (claim-Keeps j w.db done e w.conn.worker_id w.app.lease_ttl_ms w.app.coord_id)
step-Keeps {u} j c (Step.heartbeat mono now m w from to) =
    at_db j w.db _ from to
      λ done. heartbeat_cases (Keeps j w.db) u mono now m w refl λ i f. unfold renew in refl
step-Keeps {u} j c (Step.commit e m w serial from to) =
    let same = sym (serial w.db) in
    let sound = subst IsConsistent (sym from) c in
    at_db j w.db _ from to λ done.
      commit_cases (Keeps j w.db) u e w refl (subst (Keeps j w.db) same refl)
        (λ i f result valid free.
          subst (λ x. Keeps j w.db (accept e i f result w.conn.worker_id w.app.coord_id x)) same
            (accept-Keeps j w.db done sound e i f result w.conn.worker_id w.app.coord_id
              (subst (λ (x : Db). accepted_fence i x.commits ≡ none) (sym same) free)))
        (λ i f.
          subst (λ x. Keeps j w.db (insert_commit e.insert_ms i f w.conn.worker_id false x)) same
            (unfold insert_commit in refl))
        m
step-Keeps {u} j c (Step.reap e row w scanned from to) = at_db j w.db _ from to λ done.
    reap_cases (Keeps j w.db) u e row w refl
      λ l q. reap-Keeps j w.db done e row.id row.job_id row.fence w.app.coord_id
step-Keeps {u} j c (Step.burn fences transitions leases commits to) =
    λ done. ap (λ (x : Db). result_of j x.jobs) to

run-Keeps :
    {u : PgText} {d d' : Db} (j : ℕ)
    → IsConsistent d
    → Reach u d d'
    → state_of j d.jobs ≡ some succeeded
    → Keeps j d d'
run-Keeps j c here done = refl
run-Keeps j c (next r step) done =
    step-Keeps j (Reach-IsConsistent c r) step (final_for_good j succeeded c r done refl).0
    ∙ run-Keeps j c r done

-- What handle_get_job says of a job that has succeeded.
abbrev pub succeeded_reply : PgText → ℕ → Json → Response
succeeded_reply u j v = record {
  status = 200;
  body =
      obj
        (field "job_id" (str (u.print j)) (field "state" (str "succeeded") (field "result" v end)));
}

get_succeeded :
    (u : PgText) (mono j : ℕ) (sent : String) (v : Json) (g : World)
    → IsOpen mono g
    → u.parse sent ≡ some j
    → state_of j g.db.jobs ≡ some succeeded
    → result_of j g.db.jobs ≡ some v
    → handle_get_job u mono sent g ≡ succeeded_reply u j v
unfolding handle_get_job chaos_harness.Http.state_text
get_succeeded u mono j sent v g opened parsed done held =
    let (r, found, id, state, result) = row_found j succeeded g.db.jobs done in
    let value = result ∙ held in
    rw (gated-open mono g.app.db_gate opened.0 _ _ opened.1, parsed, found, id, state, value) refl

-- An accepted commit stores its result, if the job has succeeded after it.
accept_stores :
    (e : CommitEnv) (j : ℕ) (f : ℤ) (v : Json) (worker coord : String) (d : Db)
    → state_of j (accept e j f v worker coord d).jobs ≡ some succeeded
    → result_of j (accept e j f v worker coord d).jobs ≡ some v
unfolding accept insert_commit
accept_stores e j f v worker coord d done = elim (Option-cases (state_of j d.jobs)) [
  | inr (s, q) ↦ result_of-set_result j j v e.now d.jobs ∙ rw (==_self j, q) refl
  | inl q ↦
      let missing : none ≡ some succeeded =
        rw (q, ==_self j) at (sym (state_of-set_result j j v e.now d.jobs) ∙ done) in
      absurd (cc)
]

accept_fence :
    (e : CommitEnv) (j : ℕ) (f : ℤ) (v : Json) (worker coord : String) (d : Db)
    → accepted_fence j (accept e j f v worker coord d).commits ≡ some f
unfolding accept insert_commit accepted_fence accepted_of chaos_harness.Common.select
accept_fence e j f v worker coord d = rw (==_self j, accepted_fence) refl

accepted_done :
    {u : PgText} (d : Db) (j : ℕ) (f : ℤ)
    → Reach u init d
    → accepted_fence j d.commits ≡ some f
    → state_of j d.jobs ≡ some succeeded
unfolding accepted_fence
accepted_done d j f r h = elim (committed_once r j) [
  | inl none_yet ↦ absurd (ground (arith, none_yet.0))
  | inr (c, l, ls, row, held, fence, above, done) ↦ done
]

-- On a reachable database, a coordinator takes the commit of a valid lease of a job with no
-- accepted commit, and its COMMIT succeeds. After any further run, every coordinator whose gate is
-- open answers a request for the job with the state `succeeded` and with the result that this
-- commit carried.
pub result_read :
    (u : PgText) (e : CommitEnv) (m : Fields) (w g : World) (sent : String) (f : ℤ) (j mono : ℕ)
    → Reach u init w.db
    → IsWellFormed u m sent f j
    → IsOpen e.mono w
    → IsSerial e.others
    → is_valid e.read_ms f (latest (leases_of j w.db.leases)) ≡ true
    → accepted_fence j w.db.commits ≡ none
    → e.jsonb_ok ≡ true
    → e.commit_ok ≡ true
    → Reach u (handle_commit u e m w).1.db g.db
    → IsOpen mono g
    → handle_get_job u mono sent g ≡ succeeded_reply u j (or_empty (get "result" m))
result_read u e m w g sent f j mono before named opened serial valid free jsonb commits run open_g =
    let v = or_empty (get "result" m) in
    let still = subst (λ (x : Db). accepted_fence j x.commits ≡ none) (sym (serial w.db)) free in
    let stored =
      (written u e m w sent f j named.0 named.1 opened.0 opened.1 valid free still jsonb).0
        commits in
    let after = next before (Step.commit e m w serial refl refl) in
    let sound = Reach-IsConsistent init-IsConsistent after in
    let fence =
      ap (λ (x : Db). accepted_fence j x.commits) stored
      ∙ accept_fence e j f v w.conn.worker_id w.app.coord_id (e.others w.db) in
    let done = accepted_done _ j f after fence in
    let held =
      ap (λ (x : Db). result_of j x.jobs) stored
      ∙ accept_stores e j f v w.conn.worker_id w.app.coord_id (e.others w.db)
          (sym (ap (λ (x : Db). state_of j x.jobs) stored) ∙ done) in
    get_succeeded u mono j sent v g open_g named.1
      (final_for_good j succeeded sound run done refl).0 (run-Keeps j sound run done ∙ held)
