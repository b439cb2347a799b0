-- ===== src/Worker/Retries.antt =====
-- _commit_with_retry of worker/worker.py against handle_commit of coordinator/commit.py.
use chaos_harness.Common.{
  ℕ, zero, suc, ◌-◌, ◌<◌, ◌≡◌, refl, ap, ◌∙◌, String, sym, subst, inl, inr, Bool, true, false,
  arith, ltb, length, some, if◌then◌else◌, Bool-cases,
}
use chaos_harness.Common.Int.{ℤ}
use chaos_harness.Json.{Fields}
use chaos_harness.Schema.{Db, init}
use chaos_harness.Runtime.{World, PgText, send}
use chaos_harness.Runtime.Gate.{Database, ok, is_partitioned}
use chaos_harness.Commit.{CommitEnv, accepted_fence, finish, handle_commit}
use chaos_harness.Cluster.{IsSerial, Reach}
use chaos_harness.Cluster.Acks.{replay, stored_final, IsWellFormed, IsOpen}
use chaos_harness.Worker.{
  Attempt, timeout, confirmed, attempts, commit_with_retry, commit_max_attempts,
}

module _ (ex : ℕ → World → Attempt × World) (left : ℕ) (w w' : World) where
  attempts-timeout : ex left w ≡ (timeout, w') → attempts ex (suc left) w ≡ attempts ex left w'
  unfolding attempts
  attempts-timeout q =
      ap
        (λ (r : Attempt × World). elim r.0 as (λ _. Attempt × World) [
          | timeout ↦ attempts ex left r.1
          | done ↦ (done, r.1)
        ])
        q

  attempts-confirmed : ex left w ≡ (confirmed, w') → attempts ex (suc left) w ≡ (confirmed, w')
  unfolding attempts
  attempts-confirmed q =
      ap
        (λ (r : Attempt × World). elim r.0 as (λ _. Attempt × World) [
          | timeout ↦ attempts ex left r.1
          | done ↦ (done, r.1)
        ])
        q

-- One attempt whose frame arrives: the coordinator handles the commit, and the worker hears of it
-- if it is sent a frame.
pub exchange : PgText → (ℕ → CommitEnv) → Fields → ℕ → World → Attempt × World
unfolding handle_commit
exchange u e m k w =
    let w' = (handle_commit u (e k) m w).1 in
    (if ltb (length w.conn.ws_sent) (length w'.conn.ws_sent) then confirmed else timeout, w')

-- A coordinator that answers while the attempts last.
pub record IsAnswering (g : World) (e : CommitEnv) : Type 0 where
  pub opened : IsOpen e.mono g
  pub serial : IsSerial e.others
  pub commits : e.commit_ok ≡ true
  pub sends : e.send_ok ≡ true

module _ (u : PgText) (e : ℕ → CommitEnv) (m : Fields) (sent : String) (f : ℤ) (j : ℕ)
    (named : IsWellFormed u m sent f j) where
  -- A frame is sent unless an ack is to be dropped.
  heard :
      (w : World)
      → (if ltb (length w.conn.ws_sent) (length (finish true sent true w).conn.ws_sent)
          then confirmed
          else timeout)
        ≡ (if ltb 0 w.app.drop_acks_remaining then timeout else confirmed)
  unfolding finish send
  heard w = ground arith

  exchange_is :
      (k : ℕ) (w : World)
      → accepted_fence j w.db.commits ≡ some f
      → IsAnswering w (e k)
      → exchange u e m k w
        ≡ (if ltb 0 w.app.drop_acks_remaining then timeout else confirmed, finish true sent true w)
  unfolding exchange
  exchange_is k w stored h =
      let run : handle_commit u (e k) m w ≡ (ok tt, finish true sent true w) =
        replay u (e k) m w sent f j named.0 named.1 h.opened.0 h.opened.1 stored h.commits h.serial
        ∙ ap (λ b. (ok tt, finish b sent true w)) h.sends in
      rw (exchange, run) (ap (λ (a : Attempt). (a, finish true sent true w)) (heard w))

  -- What one attempt leaves of the world.
  attempt_keeps :
      (w : World)
      → ((finish true sent true w).db ≡ w.db)
        × ((finish true sent true w).app.db_gate ≡ w.app.db_gate)
        × ((finish true sent true w).app.drop_acks_remaining ≡ w.app.drop_acks_remaining - 1)
  unfolding finish send
  attempt_keeps w = (ground arith, ground arith, ground arith)

  IsAnswering-step :
      (k : ℕ) (w : World) → IsAnswering w (e k) → IsAnswering (finish true sent true w) (e k)
  IsAnswering-step k w h =
      let (_, gate, _) = attempt_keeps w in
      record {
        opened =
            subst (λ (g : Database). (g.connected ≡ true) × (is_partitioned (e k).mono g ≡ false))
              (sym gate) h.opened;
        serial = h.serial;
        commits = h.commits;
        sends = h.sends;
      }

  attempts_confirmed :
      (n : ℕ) (w : World)
      → accepted_fence j w.db.commits ≡ some f
      → ((k : ℕ) → IsAnswering w (e k))
      → w.app.drop_acks_remaining < n
      → ((attempts (exchange u e m) n w).0 ≡ confirmed)
        × ((attempts (exchange u e m) n w).1.db ≡ w.db)
  attempts_confirmed zero w stored h less = absurd (omega arith)
  attempts_confirmed (suc n) w stored h less =
      let (same, _, dropped) = attempt_keeps w in
      let next = finish true sent true w in
      elim (Bool-cases (ltb 0 w.app.drop_acks_remaining)) [
        | inr none_left ↦
            let last : exchange u e m n w ≡ (confirmed, next) =
              exchange_is n w stored (h n)
              ∙ ap (λ (b : Bool). (if b then timeout else confirmed, next)) none_left in
            rw (attempts-confirmed (exchange u e m) n w next last) (refl, same)
        | inl some_left ↦
            let again : exchange u e m n w ≡ (timeout, next) =
              exchange_is n w stored (h n)
              ∙ ap (λ (b : Bool). (if b then timeout else confirmed, next)) some_left in
            let (done, kept) =
              attempts_confirmed n next (ap (λ (d : Db). accepted_fence j d.commits) same ∙ stored)
                (λ k. IsAnswering-step k w (h k)) (ground arith) in
            rw (attempts-timeout (exchange u e m) n w next again) (done, kept ∙ same)
      ]

-- A worker whose commit was accepted sends it to a coordinator that answers, and that still drops
-- fewer than 8 acks: _commit_with_retry ends with a confirmation, and the database is as it was.
pub retries_confirm :
    (u : PgText) (e : ℕ → CommitEnv) (m : Fields) (sent : String) (f : ℤ) (j : ℕ) (d : Db)
    (w : World)
    → IsWellFormed u m sent f j
    → Reach u init d
    → accepted_fence j d.commits ≡ some f
    → Reach u d w.db
    → ((k : ℕ) → IsAnswering w (e k))
    → w.app.drop_acks_remaining < commit_max_attempts
    → ((commit_with_retry (exchange u e m) w).0 ≡ confirmed)
      × ((commit_with_retry (exchange u e m) w).1.db ≡ w.db)
unfolding commit_with_retry
retries_confirm u e m sent f j d w named before stored run h less =
    attempts_confirmed u e m sent f j named commit_max_attempts w
      (stored_final u d w.db j f before stored run) h less
