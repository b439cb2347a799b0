-- ===== src/Cluster/Dedup.antt =====
-- Deduplication by handle_create_job of coordinator/app.py: what its reply says is what the
-- database has under the key, then and later.
use chaos_harness.Common.{ℕ, String, ◌≡◌, sym, subst, ◌∙◌, Bool, false, some}
use chaos_harness.Json.{Json, Fields, str, obj, get}
use chaos_harness.Schema.{Db}
use chaos_harness.Runtime.{World, PgText}
use chaos_harness.Runtime.Gate.{ok}
use chaos_harness.Jobs.{CreateEnv, insert_job, created_reply, handle_create_job}
use chaos_harness.Cluster.{Reach}
use chaos_harness.Cluster.Keys.{IsKeyOf, Reach-IsKeyOf}
use chaos_harness.Cluster.Replies.{reply_same, insert_stored, handle_cases}

insert_found :
    (e : CreateEnv) (key : String) (payload : Json) (coord : String) (d d' : Db) (b : Bool)
    (i j : ℕ)
    → IsKeyOf key i d
    → insert_job e key payload coord d ≡ ok (b, j, d')
    → (j ≡ i) × (b ≡ false) × (d' ≡ d)
unfolding insert_job
insert_found e key payload coord d d' b i j found h =
    let same : ok (false, i, d) ≡ ok (b, j, d') = (rw (found, insert_job) at h) in (cc, cc, cc)

module _ (u : PgText) (key : String) (e : CreateEnv) (fs : Fields) (w : World)
    (named : get "idempotency_key" fs ≡ str key) where
  -- A reply that names a job: the database then has the job under the key.
  pub reply-IsKeyOf :
      (b : Bool) (j : ℕ)
      → (handle_create_job u e (some (obj fs)) w).0 ≡ ok (created_reply u b j)
      → IsKeyOf key j (handle_create_job u e (some (obj fs)) w).1.db
  reply-IsKeyOf =
      handle_cases u e key w
        (λ r. (b : Bool) (j : ℕ) → r.0 ≡ ok (created_reply u b j) → IsKeyOf key j r.1.db)
        (λ r other b j h. absurd (other b j h)) fs named
        λ payload b j d w' q same b' j' h.
          let (_, id) = reply_same u b b' j j' h in
          subst (IsKeyOf key j') (sym same) (
            subst (λ i. IsKeyOf key i d) id
              (insert_stored e key payload w.app.coord_id w.db d b j q))

  reply_found :
      (i : ℕ)
      → IsKeyOf key i w.db
      → (b : Bool) (j : ℕ) → (handle_create_job u e (some (obj fs)) w).0 ≡ ok (created_reply u b j)
      → (j ≡ i) × (b ≡ false) × ((handle_create_job u e (some (obj fs)) w).1.db ≡ w.db)
  reply_found i found =
      handle_cases u e key w
        (λ r.
          (b : Bool) (j : ℕ)
          → r.0 ≡ ok (created_reply u b j)
          → (j ≡ i) × (b ≡ false) × (r.1.db ≡ w.db))
        (λ r other b j h. absurd (other b j h)) fs named
        λ payload b j d w' q same b' j' h.
          let (flag, id) = reply_same u b b' j j' h in
          let (at, old, kept) = insert_found e key payload w.app.coord_id w.db d b i j found q in
          (sym id ∙ at, sym flag ∙ old, same ∙ kept)

-- Two submissions of one key, anywhere in a run, at any coordinators and with any payloads: if both
-- replies name a job, they name the same one, the second reply does not say that the job is new,
-- and the second request leaves the database as it is.
pub same_key_same_job :
    (u : PgText) (key : String) (e₁ e₂ : CreateEnv) (fs₁ fs₂ : Fields) (w₁ w₂ : World)
    (b₁ b₂ : Bool) (j₁ j₂ : ℕ)
    → get "idempotency_key" fs₁ ≡ str key
    → get "idempotency_key" fs₂ ≡ str key
    → (handle_create_job u e₁ (some (obj fs₁)) w₁).0 ≡ ok (created_reply u b₁ j₁)
    → Reach u (handle_create_job u e₁ (some (obj fs₁)) w₁).1.db w₂.db
    → (handle_create_job u e₂ (some (obj fs₂)) w₂).0 ≡ ok (created_reply u b₂ j₂)
    → (j₂ ≡ j₁) × (b₂ ≡ false) × ((handle_create_job u e₂ (some (obj fs₂)) w₂).1.db ≡ w₂.db)
same_key_same_job u key e₁ e₂ fs₁ fs₂ w₁ w₂ b₁ b₂ j₁ j₂ n₁ n₂ h₁ run h₂ =
    reply_found u key e₂ fs₂ w₂ n₂ j₁
      (Reach-IsKeyOf key j₁ run (reply-IsKeyOf u key e₁ fs₁ w₁ n₁ b₁ j₁ h₁)) b₂ j₂ h₂
