-- ===== src/Ws/Sessions.antt =====
-- A connection of coordinator/ws.py from its first frame to its end: what it leaves in the registry
-- and in the database.
use chaos_harness.Common.{
  ℕ, suc, String, ◌≡◌, refl, ◌∙◌, inl, inr, Option, none, some, List, [], ◌∷◌, ==_self, str_eq,
  if◌then◌else◌, Option-cases,
}
use chaos_harness.Common.Int.{ℤ}
use chaos_harness.Json.{Json, as_obj}
use chaos_harness.Runtime.{ConnState, World, PgText}
use chaos_harness.Chaos.{Numerals}
use chaos_harness.Cluster.{Reach, here, IsSerial}
use chaos_harness.Cluster.Logs.{Reach_trans}
use chaos_harness.Cluster.Tables.{Result-cases}
use chaos_harness.Ws.{Hub, conn_of, change_conn, register, disconnect, route}
use chaos_harness.Ws.Registry.{WorkerRegistry, lookup, lookup-remove}
use chaos_harness.Ws.Concurrency.{conn_of-change_conn, disconnect_is}
use chaos_harness.Ws.Connection.{
  Opening, registers, ends, other_id, Message, text, closing, other, ServeEnv, serve, first_frame,
  after_first, handle_ws,
}
use chaos_harness.Ws.Routes.{Same, route_steps, route-Same}

-- From one world to another by handlers' steps, on a connection of one worker.
abbrev Serves : PgText → World → World → Type 0
Serves u w w' = Reach u w.db w'.db × Same w w'

Serves-trans : (u : PgText) (w v x : World) → Serves u w v → Serves u v x → Serves u w x
Serves-trans u w v x a b = (Reach_trans a.0 b.0, b.1 ∙ a.1)

-- The handlers see no other session inside their transactions, and other tasks keep to steps.
pub record IsQuiet (u : PgText) (e : ServeEnv) : Type 0 where
  pub serial : (k : ℕ) → IsSerial (e.commits k).others
  pub steps : (k : ℕ) (w : World) → Reach u w.db (e.between k w).db
  pub keeps : (k : ℕ) (w : World) → (e.between k w).conn.worker_id ≡ w.conn.worker_id

module _ (u : PgText) (e : ServeEnv) (quiet : IsQuiet u e) where
  paused-Serves : (k : ℕ) (w : World) → Serves u w (e.between k w)
  paused-Serves k w = (quiet.steps k w, quiet.keeps k w)

  serve-Serves : (ms : List Message) (k : ℕ) (w : World) → Serves u w (serve u e k ms w)
  unfolding serve
  serve-Serves [] k w = (here, refl)
  serve-Serves (closing ∷ ms) k w = paused-Serves k w
  serve-Serves (other ∷ ms) k w =
      Serves-trans u w (e.between k w) (serve u e (suc k) ms (e.between k w)) (paused-Serves k w)
        (serve-Serves ms (suc k) (e.between k w))
  serve-Serves (text none ∷ ms) k w = paused-Serves k w
  serve-Serves (text (some json) ∷ ms) k w = elim (Option-cases (as_obj json)) [
    | inl q ↦ rw (q, serve) (paused-Serves k w)
    | inr (m, q) ↦
        let v = e.between k w in
        let routed = route u (e.commits k) m v in
        let step : Serves u w routed.1 =
          Serves-trans u w v routed.1 (paused-Serves k w)
            (route_steps u (e.commits k) m v (quiet.serial k), route-Same u (e.commits k) m v) in
        elim (Result-cases routed.0) [
          | inr (x, p) ↦ rw (q, serve, p) step
          | inl (t, p) ↦
              rw (q, serve, p)
                (Serves-trans u w routed.1 (serve u e (suc k) ms routed.1) step
                  (serve-Serves ms (suc k) routed.1))
        ]
  ]

-- The registry after a connection: without its worker, and otherwise as other connections left it.
abbrev pub IsLeft : WorkerRegistry → Hub → Hub → Opening → Type 0
IsLeft met h h' ends = h' ≡ h
IsLeft met h h' (other_id id) = Unit
IsLeft met h h' (registers worker limit) =
    (v : String) → lookup v h'.workers ≡ (if str_eq worker v then none else lookup v met)

-- What other connections do to the hub, which leaves this one its ConnState.
abbrev Leaves : (Hub → Hub) → ℕ → Type 0
Leaves meanwhile c =
    (h : Hub) (s : ConnState)
    → conn_of c h.conns ≡ some s
    → (t : ConnState) × (conn_of c (meanwhile h).conns ≡ some t)

-- The end of a connection that registered.
left :
    (c : ℕ) (worker : String) (w : World) (h : Hub) (s : ConnState)
    → w.conn.worker_id ≡ worker
    → conn_of c h.conns ≡ some s
    → (v : String)
    → lookup v (disconnect c (record h { conns = change_conn c (λ _. w.conn) h.conns })).workers
      ≡ (if str_eq worker v then none else lookup v h.workers)
left c worker w h s named found v =
    let ended =
      disconnect_is c (record h { conns = change_conn c (λ _. w.conn) h.conns }) w.conn
        (conn_of-change_conn c (λ _. w.conn) h.conns s found) in
    rw (ended, named) (lookup-remove worker v h.workers)

registered_conn :
    (c : ℕ) (worker : String) (limit : ℤ) (h : Hub)
    → conn_of c (register c worker limit h).conns
      ≡ some (record { worker_id = worker; limit = limit; inflight = []; ws_sent = [] })
unfolding register conn_of
registered_conn c worker limit h = rw (==_self c) refl

-- The registry that other connections have made by the end.
abbrev pub met : (Hub → Hub) → ℕ → Hub → Opening → WorkerRegistry
met meanwhile c h (registers worker limit) = (meanwhile (register c worker limit h)).workers
met meanwhile c h _ = h.workers

module _ (u : PgText) (e : ServeEnv) (meanwhile : Hub → Hub) (c : ℕ) (ms : List Message) (h : Hub)
    (w : World) (quiet : IsQuiet u e) (leaves : Leaves meanwhile c) where
  opened_ends :
      (o : Opening)
      → Reach u w.db (after_first u e meanwhile c ms o (h, w)).1.db
        × IsLeft (met meanwhile c h o) h (after_first u e meanwhile c ms o (h, w)).0 o
  unfolding after_first
  opened_ends ends = (here, refl)
  opened_ends (other_id id) = (here, tt)
  opened_ends (registers worker limit) =
      let state : ConnState = record {
        worker_id = worker;
        limit = limit;
        inflight = [];
        ws_sent = [];
      } in
      let (steps, same) = serve-Serves u e quiet ms 0 (record w { conn = state }) in
      let (t, found) =
        leaves (register c worker limit h) state (registered_conn c worker limit h) in
      (
        steps,
        left c worker (serve u e 0 ms (record w { conn = state }))
            (meanwhile (register c worker limit h)) t same found,
      )

-- A connection, whatever its first frame and its messages and however it ends: the database has gone
-- through steps of the handlers; if the first frame registered no worker, the registry is as it was,
-- and otherwise it is as the other connections made it, without the worker. An id that is no text is
-- left out.
pub session_ends :
    (u : PgText) (s : Numerals) (e : ServeEnv) (meanwhile : Hub → Hub) (c : ℕ) (first : Option Json)
    (ms : List Message) (h : Hub) (w : World)
    → IsQuiet u e
    → Leaves meanwhile c
    → Reach u w.db (handle_ws u s e meanwhile c first ms (h, w)).1.db
      × IsLeft
          (met meanwhile c h (first_frame s first))
          h
          (handle_ws u s e meanwhile c first ms (h, w)).0
          (first_frame s first)
unfolding handle_ws
session_ends u s e meanwhile c first ms h w quiet leaves =
    opened_ends u e meanwhile c ms h w quiet leaves (first_frame s first)
