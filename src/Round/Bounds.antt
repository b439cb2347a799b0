-- ===== src/Round/Bounds.antt =====
-- What a turn of `_run` of coordinator/dispatch.py does to the connections and to the database.
use chaos_harness.Common.{
  ℕ, ◌≡◌, refl, sym, subst, ◌∙◌, ◌⊎◌, inl, inr, false, some, List, [], ◌∷◌, arith, ◌==◌, ==_iff,
  Bool-cases, Option-cases,
}
use chaos_harness.Schema.Lookup.{In}
use chaos_harness.Runtime.{World, PgText, ConnState}
use chaos_harness.Runtime.Gate.{Result, raise}
use chaos_harness.Dispatch.{ClaimEnv, fill, paused}
use chaos_harness.Ws.{Hub, conn_of, change_conn}
use chaos_harness.Ws.Registry.{all}
use chaos_harness.Ws.Concurrency.{conn_of-change_conn}
use chaos_harness.Cluster.{Reach, here}
use chaos_harness.Cluster.Logs.{Reach_trans}
use chaos_harness.Cluster.Tables.{Result-cases}
use chaos_harness.Cluster.Capacity.{IsWithin}
use chaos_harness.Round.{fill_all, dispatch_round, run_turn}
use chaos_harness.Round.Filled.{IsKept, fill-Reach, fill-IsKept}

conn_of_other :
    (c d : ℕ) (f : ConnState → ConnState) (cs : List (ℕ × ConnState))
    → (d == c) ≡ false
    → conn_of c (change_conn d f cs) ≡ conn_of c cs
unfolding conn_of change_conn
conn_of_other c d f [] n = refl
conn_of_other c d f ((k, s) ∷ cs) n = ground (arith, n, conn_of_other c d f cs n)

-- A connection is kept, or left alone if its worker is not among some.
abbrev IsLeft : ℕ → ℕ → List ℕ → ConnState → List (ℕ × ConnState) → Type 0
IsLeft n c cs s conns =
    (t : ConnState) × (conn_of c conns ≡ some t) × IsKept n s t × (In c cs ⊎ (t ≡ s))

-- The loop of one worker, seen from a connection.
one_left :
    (u : PgText) (e : ℕ → ClaimEnv) (fuel n c d : ℕ) (cs : List ℕ) (h : Hub) (w w' : World)
    (s t : ConnState) (r : Result (Unit {0}))
    → conn_of c h.conns ≡ some s
    → IsWithin n s
    → conn_of d h.conns ≡ some t
    → fill u e fuel (record w { conn = t }) ≡ some (r, w')
    → IsLeft n c (d ∷ cs) s (change_conn d (λ _. w'.conn) h.conns)
one_left u e fuel n c d cs h w w' s t r found within other q = elim (Bool-cases (d == c)) [
  | inr apart ↦
      (s, conn_of_other c d (λ _. w'.conn) h.conns apart ∙ found, (within, refl, refl), inr refl)
  | inl e' ↦
      let same : d ≡ c = (==_iff d c).0 e' in
      let at_c = subst (λ k. conn_of k h.conns ≡ some t) same other in
      let both : some s ≡ some t = sym found ∙ at_c in
      let one : s ≡ t = cc in
      (
        w'.conn,
        subst (λ k. conn_of c (change_conn k (λ _. w'.conn) h.conns) ≡ some w'.conn) (sym same)
            (conn_of-change_conn c (λ _. w'.conn) h.conns s found),
        subst (λ (x : ConnState). IsKept n x w'.conn) (sym one)
            (fill-IsKept u e fuel n (record w { conn = t }) w' r (subst (IsWithin n) one within) q),
        inl (inl (sym same)),
      )
]

left_on :
    (n c d : ℕ) (cs : List ℕ) (s t : ConnState) (conns : List (ℕ × ConnState))
    → IsKept n s t
    → (In c (d ∷ cs)) ⊎ (t ≡ s)
    → IsLeft n c cs t conns
    → IsLeft n c (d ∷ cs) s conns
left_on n c d cs s t conns kept once (v, found, (within, id, limit), rest) =
    (v, found, (within, id ∙ kept.1, limit ∙ kept.2), choose once rest)
  where
    choose : (In c (d ∷ cs)) ⊎ (t ≡ s) → (In c cs) ⊎ (v ≡ t) → (In c (d ∷ cs)) ⊎ (v ≡ s)
    choose (inl m) _ = inl m
    choose (inr e) (inl m) = inl (inr m)
    choose (inr e) (inr f) = inr (f ∙ e)

abbrev IsRound : PgText → ℕ → ℕ → List ℕ → ConnState → Hub × World → Hub × World → Type 0
IsRound u n c cs s (h, w) (h', w') =
    Reach u w.db w'.db × (h'.workers ≡ h.workers) × IsLeft n c cs s h'.conns

fill_all-IsRound :
    (u : PgText) (e : ℕ → ℕ → ClaimEnv) (fuel n c : ℕ) (cs : List ℕ) (s : ConnState)
    (x x' : Hub × World) (r : Result (Unit {0}))
    → conn_of c x.0.conns ≡ some s
    → IsWithin n s
    → fill_all u e fuel cs x ≡ some (r, x')
    → IsRound u n c cs s x x'
unfolding fill_all
fill_all-IsRound u e fuel n c [] s x x' r found within q =
    let same : x ≡ x' = cc in
    subst (IsRound u n c [] s x) same (here, refl, (s, found, (within, refl, refl), inr refl))
fill_all-IsRound u e fuel n c (d ∷ cs) s (h, w) x' r found within q =
    elim (Option-cases (conn_of d h.conns)) [
      | inl none_there ↦
          let (run, same, rest) =
            fill_all-IsRound u e fuel n c cs s (h, w) x' r found within
              (rw (none_there, fill_all) at q) in
          (run, same, left_on n c d cs s s x'.0.conns (within, refl, refl) (inr refl) rest)
      | inr (t, there) ↦ elim (Option-cases (fill u (e d) fuel (record w { conn = t }))) [
        | inl out ↦ absurd (cc (rw (there, fill_all, out) at q))
        | inr ((o, w'), filled) ↦
            let (t', found', kept, once) =
              one_left u (e d) fuel n c d cs h w w' s t o found within there filled in
            let run = fill-Reach u (e d) fuel (record w { conn = t }) w' o filled in
            let h' = record h { conns = change_conn d (λ _. w'.conn) h.conns } in
            elim (Result-cases o) [
              | inr (y, k) ↦
                  let ended : some (raise y, (h', w')) ≡ some (r, x') =
                    (rw (there, fill_all, filled, k) at q) in
                  let same : (h', w') ≡ x' = cc in
                  subst (IsRound u n c (d ∷ cs) s (h, w)) same (run, refl, (t', found', kept, once))
              | inl (y, k) ↦
                  let (further, same, rest) =
                    fill_all-IsRound u e fuel n c cs t' (h', w') x' r found' kept.0
                      (rw (there, fill_all, filled, k) at q) in
                  (Reach_trans run further, same, left_on n c d cs s t' x'.0.conns kept once rest)
            ]
      ]
    ]

-- A turn of the dispatch loop, its pauses, partitions and failures included: the database moves by
-- steps of the handlers only, the registry keeps its workers, and a connection keeps its worker and
-- its limit, with no more jobs in flight than the limit, or than before; a connection that is not
-- registered is left alone.
pub turn_bounded :
    (u : PgText) (e : ℕ → ℕ → ClaimEnv) (fuel mono n c : ℕ) (s : ConnState) (h h' : Hub)
    (w w' : World)
    → conn_of c h.conns ≡ some s
    → IsWithin n s
    → run_turn u e fuel mono (h, w) ≡ some (h', w')
    → Reach u w.db w'.db
      × (h'.workers ≡ h.workers)
      × (t : ConnState) × (conn_of c h'.conns ≡ some t)
      × IsKept n s t
      × (In c (all h.workers) ⊎ (t ≡ s))
unfolding run_turn dispatch_round
turn_bounded u e fuel mono n c s h h' w w' found within q =
    let awake = record w { app = record w.app { wake = false } } in
    let (run, same, (t, left, kept, once)) : IsRound u n c (all h.workers) s (h, w) (h', w') =
      elim (Bool-cases (paused mono w.app)) [
        | inl p ↦
            let ended : some (h, awake) ≡ some (h', w') = (rw (p, run_turn) at q) in
            let same : (h, awake) ≡ (h', w') = cc in
            subst (IsRound u n c (all h.workers) s (h, w)) same
              (here, refl, (s, found, (within, refl, refl), inr refl))
        | inr p ↦ elim (Option-cases (fill_all u e fuel (all h.workers) (h, awake))) [
          | inl out ↦ absurd (cc (rw (p, run_turn, dispatch_round, out) at q))
          | inr ((r, x), filled) ↦
              let ended : some x ≡ some (h', w') =
                (rw (p, run_turn, dispatch_round, filled) at q) in
              let same : x ≡ (h', w') = cc in
              subst (IsRound u n c (all h.workers) s (h, w)) same
                (fill_all-IsRound u e fuel n c (all h.workers) s (h, awake) x r found within filled)
        ]
      ] in
    (run, same, t, left, kept, once)
