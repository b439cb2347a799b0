-- ===== src/Cluster/Flood.antt =====
-- The inner loop of `_dispatch_round` of coordinator/dispatch.py for a worker whose socket has
-- died and is not yet unregistered: each send fails, and the loop goes on.
use chaos_harness.Common.{ℕ, ◌≡◌, Bool, true, false, Option, none, some, List}
use chaos_harness.Json.{Json}
use chaos_harness.Runtime.{World}
use chaos_harness.Runtime.Gate.{Result, ok, raise, Database, is_partitioned}
use chaos_harness.Dispatch.{ClaimEnv, has_capacity}
use chaos_harness.Cluster.Rounds.{queued}

-- A turn on a database that answers, with no row locked, and a socket that does not.
pub record IsDead (g : Database) (e : ClaimEnv) : Type 0 where
  pub up : g.connected ≡ true
  pub passed : is_partitioned e.mono g ≡ false
  pub commits : e.commit_ok ≡ true
  pub unsent : e.send_ok ≡ false
  pub unlocked : (j : ℕ) → e.locked j ≡ false

-- What the turns keep: the gate, the frames, and room for one more job.
abbrev IsKept : Database → List Json → World → Type 0
IsKept g frames w = (w.app.db_gate ≡ g) × (w.conn.ws_sent ≡ frames) × (has_capacity w.conn ≡ true)

-- What a turn on a dead socket leaves.
abbrev IsDrained : Database → List Json → Result Bool × World → Type 0
IsDrained g frames (ok true, w) = IsKept g frames w
IsDrained g frames (ok false, w) = (queued w.db.jobs ≡ 0) × IsKept g frames w
IsDrained g frames (raise x, w) = ⊥

abbrev pub IsFlooded : List Json → Option (Result (Unit {0}) × World) → Type 0
IsFlooded frames none = ⊥
IsFlooded frames (some (r, w)) = (r ≡ ok tt) × (queued w.db.jobs ≡ 0) × (w.conn.ws_sent ≡ frames)
