-- ===== src/Harness/Submissions.antt =====
-- The ledger that `_submit_one` of chaos_harness.py keeps over a run's replies.
use chaos_harness.Common.{
  String, ◌≡◌, ◌≢◌, refl, sym, ap, subst, ◌∙◌, inl, inr, true, false, some, List, [], ◌∷◌, arith,
  str_eq, eq_iff, exists, map, Bool-cases, Option-cases, All, All-mono, Pairs,
}
use chaos_harness.Schema.Lookup.{In}
use chaos_harness.Harness.{Tracked, Ledger, key_job, record_reply}

-- `_K`, `_J` and the log at the start.
abbrev no_replies : Ledger
no_replies = record { keys = []; jobs = []; distinct_ids_logged = 0 }

-- The replies, newest first, each with the key that was sent and the id that came back.
unfoldable pub ledger : List (String × String) → Ledger
unfolding record_reply
ledger [] = no_replies
ledger ((key, jid) ∷ rs) = record_reply key jid (ledger rs)

-- A later reply to the same key has the same id.
abbrev pub IsDeduped : List (String × String) → Type 0
IsDeduped = Pairs (λ (r s : String × String). r.0 ≡ s.0 → r.1 ≡ s.1)

ledger_keys : (rs : List (String × String)) → (ledger rs).keys ≡ rs
unfolding ledger
ledger_keys [] = refl
ledger_keys ((key, jid) ∷ rs) = ap (◌∷◌ (key, jid)) (ledger_keys rs)

key_job-All :
    (P : String → Type 0) (k old : String) (rs : List (String × String))
    → All (λ (r : String × String). k ≡ r.0 → P r.1) rs
    → key_job k rs ≡ some old
    → P old
unfolding key_job
key_job-All P k old [] h q = cc
key_job-All P k old ((j, id) ∷ rs) h q = elim (Bool-cases (str_eq j k)) [
  | inl e ↦ let same : id ≡ old = ground arith in subst P same (h.0 (sym ((eq_iff j k).0 e)))
  | inr e ↦ key_job-All P k old rs h.1 (ground arith)
]

logged_same :
    (key jid : String) (g : Ledger)
    → ((old : String) → key_job key g.keys ≡ some old → jid ≡ old)
    → (record_reply key jid g).distinct_ids_logged ≡ g.distinct_ids_logged
unfolding record_reply
logged_same key jid g h = elim (Option-cases (key_job key g.keys)) [
  | inl q ↦ ground arith
  | inr (old, q) ↦ ground (arith, (eq_iff old jid).1 (sym (h old q)))
]

exists_other :
    (jid : String) (ts : List Tracked)
    → exists (λ (t : Tracked). str_eq t.jid jid) ts ≡ false
    → All (λ (t : Tracked). jid ≢ t.jid) ts
unfolding exists
exists_other jid [] h = tt
exists_other jid (t ∷ ts) h = elim (Bool-cases (str_eq t.jid jid)) [
  | inl e ↦ absurd (ground arith)
  | inr e ↦ (
    λ same. absurd (clash (sym e ∙ (eq_iff t.jid jid).1 (sym same))),
    exists_other jid ts (ground arith),
  )
]
  where
    clash : false ≡ true → ⊥
    clash q = cc

tracked_once :
    (key jid : String) (g : Ledger)
    → Pairs (λ (s t : Tracked). s.jid ≢ t.jid) g.jobs
    → Pairs (λ (s t : Tracked). s.jid ≢ t.jid) (record_reply key jid g).jobs
unfolding record_reply
tracked_once key jid g h = elim (Bool-cases (exists (λ (t : Tracked). str_eq t.jid jid) g.jobs)) [
  | inl e ↦ rw (e, record_reply) h
  | inr e ↦ rw (e, record_reply) (exists_other jid g.jobs e, h)
]

-- Replies that give one id for each key, over a run: the harness logs no violation of the
-- deduplication, and it tracks no job twice.
pub ledger_clean :
    (rs : List (String × String))
    → IsDeduped rs
    → ((ledger rs).distinct_ids_logged ≡ 0)
      × Pairs (λ (s t : Tracked). s.jid ≢ t.jid) (ledger rs).jobs
unfolding ledger
ledger_clean [] h = (refl, tt)
ledger_clean ((key, jid) ∷ rs) h =
    let (quiet, distinct) = ledger_clean rs h.1 in
    (
      logged_same key jid (ledger rs) (λ old q.
            key_job-All (λ x. jid ≡ x) key old rs h.0
              (subst (λ ks. key_job key ks ≡ some old) (ledger_keys rs) q))
          ∙ quiet,
      tracked_once key jid (ledger rs) distinct,
    )

exists_tracked :
    (jid : String) (ts : List Tracked)
    → exists (λ (t : Tracked). str_eq t.jid jid) ts ≡ true
    → In jid (map (λ (t : Tracked). t.jid) ts)
unfolding exists
exists_tracked jid [] h = absurd (cc)
exists_tracked jid (t ∷ ts) h = elim (Bool-cases (str_eq t.jid jid)) [
  | inl e ↦ inl (sym ((eq_iff t.jid jid).0 e))
  | inr e ↦ inr (exists_tracked jid ts (ground arith))
]

tracked_old :
    (key jid : String) (g : Ledger)
    → exists (λ (t : Tracked). str_eq t.jid jid) g.jobs ≡ true
    → (record_reply key jid g).jobs ≡ g.jobs
unfolding record_reply
tracked_old key jid g e = rw (e, record_reply) refl

tracked_new :
    (key jid : String) (g : Ledger)
    → exists (λ (t : Tracked). str_eq t.jid jid) g.jobs ≡ false
    → (record_reply key jid g).jobs ≡ record { jid = jid; key = key } ∷ g.jobs
unfolding record_reply
tracked_new key jid g e = rw (e, record_reply) refl

-- The ids of the replies are among those of the tracked jobs.
abbrev HasAll : List (String × String) → List Tracked → Type 0
HasAll rs ts = All (λ (r : String × String). In r.1 (map (λ (t : Tracked). t.jid) ts)) rs

-- Each id that is replied is tracked.
pub ledger_all : (rs : List (String × String)) → HasAll rs (ledger rs).jobs
unfolding ledger
ledger_all [] = tt
ledger_all ((key, jid) ∷ rs) =
    let rest = ledger_all rs in
    let g = ledger rs in
    elim (Bool-cases (exists (λ (t : Tracked). str_eq t.jid jid) g.jobs)) [
      | inl e ↦
          subst (HasAll ((key, jid) ∷ rs)) (sym (tracked_old key jid g e))
            (exists_tracked jid g.jobs e, rest)
      | inr e ↦
          subst (HasAll ((key, jid) ∷ rs)) (sym (tracked_new key jid g e))
            (inl refl, All-mono rs (λ r m. inr m) rest)
    ]

-- What is tracked was replied.
pub ledger_only :
    (rs : List (String × String)) → All (λ (t : Tracked). In (t.key, t.jid) rs) (ledger rs).jobs
unfolding ledger
ledger_only [] = tt
ledger_only ((key, jid) ∷ rs) =
    let g = ledger rs in
    let later = All-mono g.jobs (λ t m. inr m) (ledger_only rs) in
    let replied = All (λ (t : Tracked). In (t.key, t.jid) ((key, jid) ∷ rs)) in
    elim (Bool-cases (exists (λ (t : Tracked). str_eq t.jid jid) g.jobs)) [
      | inl e ↦ subst replied (sym (tracked_old key jid g e)) later
      | inr e ↦ subst replied (sym (tracked_new key jid g e)) (inl refl, later)
    ]
