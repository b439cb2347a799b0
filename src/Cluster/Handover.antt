-- ===== src/Cluster/Handover.antt =====
-- The frame that coordinator/dispatch.py pushes for a claim, and what worker/worker.py makes of it.
use chaos_harness.Common.{ℕ, String, suc, ◌≡◌, refl, true, Option, some, ◌∷◌, arith}
use chaos_harness.Common.Int.{pos}
use chaos_harness.Json.{Json, Fields, str, obj, get}
use chaos_harness.Schema.{Job}
use chaos_harness.Runtime.{World, PgText, send}
use chaos_harness.Runtime.Gate.{ok}
use chaos_harness.Dispatch.{ClaimEnv, claim_one, push, dispatch_message, dispatch_fields}
use chaos_harness.Commit.{lease_key}
use chaos_harness.Chaos.{Numerals}
use chaos_harness.Cluster.Rounds.{claimed, turn_cases}
use chaos_harness.Worker.Frames.{Worker, handle}
use chaos_harness.Worker.Execution.{Work, prepare, commit_frame}

-- What a turn that claims a job does.
unfoldable pub IsTurn : PgText → ClaimEnv → World → World → Type 0
IsTurn u e w w' =
    (r : Job) × (f : ℕ) × ((claimed e w).0 ≡ some (r, f))
    × (w' ≡ push u e.send_ok r f (record w { db = (claimed e w).1 }))

pub turn :
    (u : PgText) (e : ClaimEnv) (w : World)
    → (claim_one u e w).0 ≡ ok true
    → IsTurn u e w (claim_one u e w).1
unfolding IsTurn
turn u e w =
    turn_cases (λ r. r.0 ≡ ok true → IsTurn u e w r.1) u e w (λ x h. cc) (λ o h. cc)
      (λ r f o h. (r, f, o, refl))

-- The frame of a claim.
pub frame_sent :
    (u : PgText) (r : Job) (f : ℕ) (w : World)
    → (push u true r f w).conn.ws_sent ≡ obj (dispatch_fields u r f) ∷ w.conn.ws_sent
unfolding push send dispatch_message
frame_sent u r f w = refl

-- The worker starts a task for it.
pub frame_handled :
    (u : PgText) (r : Job) (f : ℕ) (v : Worker)
    → handle (obj (dispatch_fields u r f)) v
      ≡ (ok tt, record v { made = suc v.made; jobs = (v.made, dispatch_fields u r f) ∷ v.jobs })
unfolding handle
frame_handled u r f v = refl

prepared_names :
    (s : Numerals) (loads : String → Option Json) (m : Fields) (p : Work)
    → prepare s loads m ≡ ok p
    → (p.job_id ≡ get "job_id" m) × (p.fence ≡ get "fence" m)
unfolding prepare
prepared_names s loads m p h = (ground arith, ground arith)

-- The task's commit names the lease.
pub commit_named :
    (u : PgText) (s : Numerals) (loads : String → Option Json) (worker : String) (r : Job) (f : ℕ)
    (p : Work)
    → prepare s loads (dispatch_fields u r f) ≡ ok p
    → lease_key (commit_frame worker p) ≡ some (str (u.print r.job_id), pos f)
unfolding lease_key get
commit_named u s loads worker r f p h =
    let (id, fence) = prepared_names s loads (dispatch_fields u r f) p h in rw (id, fence) refl
