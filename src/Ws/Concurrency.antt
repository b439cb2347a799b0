-- ===== src/Ws/Concurrency.antt =====
-- The change of a worker's concurrency through any coordinator, and a worker that reconnects:
-- coordinator/ws.py over the registry.
use chaos_harness.Common.{
  ℕ, String, ◌≡◌, ◌≢◌, refl, inl, inr, Bool, true, false, none, some, List, [], ◌∷◌, arith, ◌==◌,
  ==_self, str_eq, eq_refl, Bool-cases,
}
use chaos_harness.Common.Int.{ℤ, is_negative}
use chaos_harness.Json.{Json, num, obj, field, end}
use chaos_harness.Runtime.{ConnState}
use chaos_harness.Ws.{
  Hub, conn_of, change_conn, register, disconnect, set_limit, apply_set_concurrency,
  concurrency_channel, concurrency_message, handle_set_concurrency, hear_concurrency,
}
use chaos_harness.Ws.Registry.{remove, lookup, lookup-remove}

pub conn_of-change_conn :
    (c : ℕ) (f : ConnState → ConnState) (cs : List (ℕ × ConnState)) (s : ConnState)
    → conn_of c cs ≡ some s
    → conn_of c (change_conn c f cs) ≡ some (f s)
unfolding conn_of change_conn
conn_of-change_conn c f [] s h = cc
conn_of-change_conn c f ((d, t) ∷ cs) s h = elim (Bool-cases (d == c)) [
  | inl e ↦ rw (e, conn_of) (cc (rw (e, conn_of) at h))
  | inr e ↦ ground (arith, conn_of-change_conn c f cs s)
]

apply_published :
    (sent : Bool) (worker : String) (n : ℤ) (h : Hub)
    → ◌≡◌ {A = List (String × Json)}
        ((concurrency_channel, obj (concurrency_message worker n h.coord_id))
          ∷ (apply_set_concurrency sent worker n h).1.published)
        ((concurrency_channel, obj (concurrency_message worker n h.coord_id)) ∷ h.published)
unfolding apply_set_concurrency
apply_published sent worker n h = ground arith

apply_held :
    (sent : Bool) (worker : String) (n : ℤ) (h : Hub) (c : ℕ) (s : ConnState)
    → lookup worker h.workers ≡ some c
    → conn_of c h.conns ≡ some s
    → conn_of c (apply_set_concurrency sent worker n h).1.conns ≡ some (set_limit sent n s)
unfolding apply_set_concurrency
apply_held sent worker n h c s held found =
    rw (held, apply_set_concurrency) (conn_of-change_conn c (set_limit sent n) h.conns s found)

-- A request to change a worker's concurrency that reaches coordinator `a`, while coordinator `b`
-- holds the worker: `a` publishes a message; when `b` hears it, the worker's connection has the new
-- limit, and when `a` hears it, nothing changes.
pub concurrency_reaches :
    (a b : Hub) (sent : Bool) (worker : String) (n : ℤ) (c : ℕ) (s : ConnState)
    → is_negative n ≡ false
    → lookup worker b.workers ≡ some c
    → conn_of c b.conns ≡ some s
    → str_eq a.coord_id b.coord_id ≡ false
    → ((handle_set_concurrency sent true worker (some (obj (field "n" (num n) end))) a).1.published
        ≡ (concurrency_channel, obj (concurrency_message worker n a.coord_id)) ∷ a.published)
      × (conn_of c (hear_concurrency sent (concurrency_message worker n a.coord_id) b).conns
          ≡ some (set_limit sent n s))
      × (hear_concurrency sent (concurrency_message worker n a.coord_id) a ≡ a)
unfolding handle_set_concurrency hear_concurrency
concurrency_reaches a b sent worker n c s natural held found other = (
  rw natural (apply_published sent worker n a),
  rw (other, natural) (apply_held sent worker n b c s held found),
  rw (eq_refl a.coord_id) refl,
)

pub disconnect_is :
    (c : ℕ) (h : Hub) (s : ConnState)
    → conn_of c h.conns ≡ some s
    → disconnect c h ≡ record h { workers = remove s.worker_id h.workers }
unfolding disconnect
disconnect_is c h s q = rw (q, disconnect) refl

not_held :
    (sent : Bool) (worker : String) (n : ℤ) (h : Hub)
    → lookup worker h.workers ≡ none
    → (apply_set_concurrency sent worker n h).0 ≡ false
unfolding apply_set_concurrency
not_held sent worker n h q = rw (q, apply_set_concurrency) refl

module _ (h : Hub) (worker : String) (l₁ l₂ : ℤ) (c₁ c₂ : ℕ) where
  old_conn :
      (c₂ == c₁) ≡ false
      → conn_of c₁ (register c₂ worker l₂ (register c₁ worker l₁ h)).conns
        ≡ some (record { worker_id = worker; limit = l₁; inflight = []; ws_sent = [] })
  unfolding register conn_of
  old_conn differ = rw (differ, ==_self c₁) refl

  new_conn :
      conn_of c₂ (register c₂ worker l₂ (register c₁ worker l₁ h)).conns
      ≡ some (record { worker_id = worker; limit = l₂; inflight = []; ws_sent = [] })
  unfolding register conn_of
  new_conn = rw (==_self c₂) refl

-- A worker that connects again before its old connection has ended: when the old one ends, the
-- registry has no entry for the worker, though the new connection is open, and a change of the
-- worker's concurrency does not find it.
pub reconnect_lost :
    (h : Hub) (worker : String) (l₁ l₂ : ℤ) (c₁ c₂ : ℕ) (sent : Bool) (n : ℤ)
    → c₁ ≢ c₂
    → (lookup worker (disconnect c₁ (register c₂ worker l₂ (register c₁ worker l₁ h))).workers
        ≡ none)
      × (conn_of c₂ (disconnect c₁ (register c₂ worker l₂ (register c₁ worker l₁ h))).conns
          ≡ some (record { worker_id = worker; limit = l₂; inflight = []; ws_sent = [] }))
      × ((apply_set_concurrency sent worker n
            (disconnect c₁ (register c₂ worker l₂ (register c₁ worker l₁ h)))).0
          ≡ false)
reconnect_lost h worker l₁ l₂ c₁ c₂ sent n apart =
    let differ : (c₂ == c₁) ≡ false = ground arith in
    let gone : lookup worker
          (remove worker (register c₂ worker l₂ (register c₁ worker l₁ h)).workers)
        ≡ none =
      rw
        (
          lookup-remove worker worker (register c₂ worker l₂ (register c₁ worker l₁ h)).workers,
          eq_refl worker,
        )
        refl in
    rw
      (
        disconnect_is c₁ (register c₂ worker l₂ (register c₁ worker l₁ h))
            (record { worker_id = worker; limit = l₁; inflight = []; ws_sent = [] })
            (old_conn h worker l₁ l₂ c₁ c₂ differ),
        gone,
      )
      (refl, new_conn h worker l₁ l₂ c₁ c₂, not_held sent worker n _ gone)
