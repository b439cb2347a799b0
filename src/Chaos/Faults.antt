-- ===== src/Chaos/Faults.antt =====
-- How far a fault of coordinator/chaos.py reaches: one coordinator, or its peers as well.
use chaos_harness.Common.{
  ℕ, ◌+◌, String, ◌≡◌, refl, inl, inr, true, false, some, ◌∷◌, arith, str_eq, eq_refl, Option-cases,
  Bool-cases,
}
use chaos_harness.Common.Int.{pos}
use chaos_harness.Json.{Json, Fields, num, str, obj, field, end, get, get_or, as_str, as_obj}
use chaos_harness.Runtime.{App, World}
use chaos_harness.Runtime.Gate.{ok}
use chaos_harness.Chaos.{
  Numerals, to_int, is_broadcast, apply_fault_local, fault_message, chaos_channel, handle_chaos,
  hear_fault, params_of,
}

-- The body of a request.
abbrev pub request : String → Fields → Json
request fault params = obj (field "fault" (str fault) (field "params" (obj params) end))

abbrev pub drop_acks_params : ℕ → Fields
drop_acks_params n = field "n" (num (pos n)) end

-- POST /chaos with drop_acks and n: the coordinator that gets it drops n more acks; the message that
-- it publishes makes each peer drop n more, and does nothing to the coordinator itself.
pub drop_acks_everywhere :
    (s : Numerals) (mono mono' n : ℕ) (w : World) (peer : App)
    → str_eq w.app.coord_id peer.coord_id ≡ false
    → ((handle_chaos s true mono (some (request "drop_acks" (drop_acks_params n))) w).1.app
        ≡ record w.app { drop_acks_remaining = w.app.drop_acks_remaining + n })
      × ((handle_chaos s true mono
            (some (request "drop_acks" (drop_acks_params n)))
            w).1.redis.published
          ≡ (chaos_channel, obj (fault_message "drop_acks" (drop_acks_params n) w.app.coord_id))
            ∷ w.redis.published)
      × (hear_fault s mono' (fault_message "drop_acks" (drop_acks_params n) w.app.coord_id) peer
          ≡ (ok tt, record peer { drop_acks_remaining = peer.drop_acks_remaining + n }))
      × (hear_fault s mono'
            (fault_message "drop_acks" (drop_acks_params n) w.app.coord_id)
            (handle_chaos s true mono (some (request "drop_acks" (drop_acks_params n))) w).1.app
          ≡ (
            ok tt,
            (handle_chaos s true mono (some (request "drop_acks" (drop_acks_params n))) w).1.app,
          ))
unfolding handle_chaos hear_fault
drop_acks_everywhere s mono mono' n w peer other =
    (refl, refl, rw other refl, rw (eq_refl w.app.coord_id) refl)

-- What no fault of a peer changes.
abbrev SameGate : App → App → Type 0
SameGate a b = (b.db_gate ≡ a.db_gate) × (b.logical_clock_offset_s ≡ a.logical_clock_offset_s)

broadcast-SameGate :
    (s : Numerals) (mono : ℕ) (fault : String) (params : Fields) (app : App)
    → is_broadcast fault ≡ true
    → SameGate app (apply_fault_local s mono fault params app).1
unfolding is_broadcast apply_fault_local
broadcast-SameGate s mono fault params app h = elim (Bool-cases (str_eq fault "pause_dispatch")) [
  | inl e ↦ rw e (elim (Option-cases (to_int s (get_or "ms" params (num (pos 0))))) [
    | inl q ↦ rw q (refl, refl)
    | inr (n, q) ↦ rw q (refl, refl)
  ])
  | inr e ↦ elim (Bool-cases (str_eq fault "drop_acks")) [
    | inl k ↦
        rw (e, k)
          (elim (Option-cases (to_int s (get_or "n" params (num (pos 0))))) [
            | inl q ↦ rw q (refl, refl)
            | inr (n, q) ↦ rw q (refl, refl)
          ])
    | inr k ↦ absurd (ground arith)
  ]
]

-- Whatever message a coordinator hears from its peers, it does not partition the database or skew
-- the coordinator's clock.
peers_stay_out :
    (s : Numerals) (mono : ℕ) (payload : Fields) (app : App)
    → ((hear_fault s mono payload app).1.db_gate ≡ app.db_gate)
      × ((hear_fault s mono payload app).1.logical_clock_offset_s ≡ app.logical_clock_offset_s)
unfolding hear_fault
peers_stay_out s mono payload app = elim (Option-cases (as_str (get "fault" payload))) [
  | inl q ↦ (ground arith, ground arith)
  | inr (fault, q) ↦ elim (Option-cases (as_obj (params_of payload))) [
    | inl r ↦ (ground arith, ground arith)
    | inr (params, r) ↦ elim (Bool-cases (is_broadcast fault)) [
      | inl k ↦
          let kept = broadcast-SameGate s mono fault params app k in
          (ground (arith, kept.0), ground (arith, kept.1))
      | inr k ↦ (ground arith, ground arith)
    ]
  ]
]
