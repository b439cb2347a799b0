-- ===== src/Round.antt =====
-- `_dispatch_round` and one turn of `_run` of coordinator/dispatch.py, over the registry of
-- coordinator/ws.py. A worker's ConnState is that of the Hub; the World has it while its loop runs.
pub mod Filled
pub mod Bounds
use chaos_harness.Common.{ℕ, false, Option, none, some, List, [], ◌∷◌, if◌then◌else◌}
use chaos_harness.Runtime.{World, PgText}
use chaos_harness.Runtime.Gate.{Result, ok, raise}
use chaos_harness.Dispatch.{ClaimEnv, fill, paused}
use chaos_harness.Ws.{Hub, conn_of, change_conn}
use chaos_harness.Ws.Registry.{all}

-- The loop over `registry.all()`, with the fuel of each worker's loop. An exception ends the round.
unfoldable pub fill_all :
    PgText
    → (ℕ → ℕ → ClaimEnv)
    → ℕ
    → List ℕ
    → Hub × World
    → Option (Result (Unit {0}) × (Hub × World))
unfolding fill conn_of
fill_all u e fuel [] (h, w) = some (ok tt, (h, w))
fill_all u e fuel (c ∷ cs) (h, w) = elim (conn_of c h.conns) [
  | none ↦ fill_all u e fuel cs (h, w)
  | some s ↦ elim (fill u (e c) fuel (record w { conn = s })) [
    | none ↦ none
    | some (r, w') ↦
        let h' = record h { conns = change_conn c (λ _. w'.conn) h.conns } in
        elim r [ raise x ↦ some (raise x, (h', w')) | ok _ ↦ fill_all u e fuel cs (h', w') ]
  ]
]

-- _dispatch_round.
unfoldable pub dispatch_round :
    PgText → (ℕ → ℕ → ClaimEnv) → ℕ → Hub × World → Option (Result (Unit {0}) × (Hub × World))
unfolding fill_all all
dispatch_round u e fuel (h, w) = fill_all u e fuel (all h.workers) (h, w)

-- One turn of _run after its wait, at the clock's reading `mono`: a pause skips the round, and an
-- exception of the round, DBPartitioned or other, goes no further.
unfoldable pub run_turn : PgText → (ℕ → ℕ → ClaimEnv) → ℕ → ℕ → Hub × World → Option (Hub × World)
unfolding dispatch_round paused
run_turn u e fuel mono (h, w) =
    let awake = record w { app = record w.app { wake = false } } in
    if paused mono w.app
    then some (h, awake)
    else elim (dispatch_round u e fuel (h, awake)) [ none ↦ none | some (r, s) ↦ some s ]
