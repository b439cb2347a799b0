-- ===== src/Harness.antt =====
-- `_verify` and `_submit_one` of chaos_harness.py: what the harness keeps of its submissions, and
-- the invariants that it checks on the audits.
pub mod Trails
pub mod Order
pub mod OneTrail
pub mod Global
pub mod Clean
pub mod Submissions
pub mod Run
pub mod Report
pub mod Verdict
pub mod Percentiles
use chaos_harness.Common.{
  ℕ, suc, ◌<◌, String, Bool, true, false, not, ◌&&◌, ◌||◌, Option, none, some, List, [], ◌∷◌, ◌++◌,
  map, ltb, leb, ◌==◌, str_eq, if◌then◌else◌, length, select, exists,
}
use chaos_harness.Common.Int.{ℤ, pos, negsuc}
use chaos_harness.Common.Sort.{sort}
use chaos_harness.Schema.{JobState, succeeded, failed, cancelled, state_eq}
use chaos_harness.Audit.{
  TransitionEntry, CommitEntry, LeaseEntry, Trail, AuditReply, refused, answered,
}

pub data Violation : Type 0 where
  dedup : String → ℕ → Violation
  audit_unreachable : String → Violation
  lost : String → Violation
  double_commit : String → ℕ → Violation
  fencing_nonmonotonic_per_job : String → List ℕ → Violation
  stale_commit_accepted : String → ℤ → Violation
  fencing_global_nonmonotonic : ℕ → ℕ → Violation

-- One job of `_J`: its id and its key.
pub record Tracked : Type 0 where
  pub jid : String
  pub key : String

-- One audit: `none` where it is not ok.
pub record Audited : Type 0 where
  pub jid : String
  pub trail : Option Trail

-- `_audit_one` on the coordinator's reply.
abbrev pub audited : String → AuditReply → Audited
audited jid (refused r) = record { jid = jid; trail = none }
audited jid (answered t) = record { jid = jid; trail = some t }

pub is_terminal : TransitionEntry → Bool
unfolding state_eq
is_terminal t = state_eq t.to succeeded || (state_eq t.to failed || state_eq t.to cancelled)

abbrev pub tokens : Trail → List ℕ
tokens t = map (λ (l : LeaseEntry). l.fence) t.lease_history

-- `tokens != sorted(tokens)`
pub list_eq : List ℕ → List ℕ → Bool
list_eq [] [] = true
list_eq (x ∷ xs) (y ∷ ys) = (x == y) && list_eq xs ys
list_eq _ _ = false

-- `max(tokens)`
pub largest : List ℕ → Option ℕ
largest [] = none
largest (a ∷ fs) = elim (largest fs) [ none ↦ some a | some b ↦ some (if ltb b a then a else b) ]

-- `tokens and f < max(tokens)`
pub is_stale : ℤ → Option ℕ → Bool
is_stale f none = false
is_stale (pos f) (some m) = ltb f m
is_stale (negsuc f) (some m) = true

-- `len(successful) == 0` with no terminal transition, and `len(successful) > 1`.
pub count_check : String → ℕ → Bool → List Violation
count_check jid n terminal =
    if n == 0
    then if terminal then [] else lost jid ∷ []
    else if ltb 1 n
    then double_commit jid n ∷ []
    else []

pub order_check : String → List ℕ → List Violation
unfolding list_eq sort
order_check jid fences =
    if list_eq fences (sort leb fences) then [] else fencing_nonmonotonic_per_job jid fences ∷ []

pub stale_check : String → Option ℕ → List CommitEntry → List Violation
unfolding is_stale
stale_check jid top [] = []
stale_check jid top (c ∷ cs) =
    let later = stale_check jid top cs in
    if c.accepted && is_stale c.fence top then stale_commit_accepted jid c.fence ∷ later else later

-- The checks on one trail.
pub trail_check : String → Trail → List Violation
unfolding count_check order_check stale_check largest is_terminal select exists
trail_check jid t =
    count_check jid (length (select (λ c. c.accepted) t.commits)) (exists is_terminal t.transitions)
    ++ (order_check jid (tokens t) ++ stale_check jid (largest (tokens t)) t.commits)

pub audit_checks : List Audited → List Violation
unfolding trail_check
audit_checks [] = []
audit_checks (a ∷ rest) =
    elim a.trail [ none ↦ audit_unreachable a.jid ∷ [] | some t ↦ trail_check a.jid t ]
    ++ audit_checks rest

-- `all_fences`, with the job dropped, which the check only prints.
pub all_fences : List Audited → List LeaseEntry
all_fences [] = []
all_fences (a ∷ rest) = elim a.trail [ none ↦ [] | some t ↦ t.lease_history ] ++ all_fences rest

abbrev pub issued_le : LeaseEntry → LeaseEntry → Bool
issued_le l m = leb l.issued_at_ms m.issued_at_ms

-- The loop over the sorted list: `none` is the first `last`, -1. It breaks at the first violation.
pub fence_walk : Option ℕ → List LeaseEntry → List Violation
fence_walk last [] = []
fence_walk last (l ∷ ls) =
    let later = fence_walk (some l.fence) ls in
    elim last [
      | none ↦ later
      | some f ↦
          if leb l.fence f then fencing_global_nonmonotonic l.issued_at_ms l.fence ∷ [] else later
    ]

pub global_check : List Audited → List Violation
unfolding all_fences fence_walk sort
global_check audits = fence_walk none (sort issued_le (all_fences audits))

-- `seen_keys`: a key with more than one job. `_J` has each job once.
pub ids_of_key : String → List Tracked → List Tracked
unfolding select
ids_of_key k = select (λ t. str_eq t.key k)

pub dedup_checks : List Tracked → List Tracked → List Violation
unfolding ids_of_key
dedup_checks all [] = []
dedup_checks all (t ∷ ts) =
    let later = dedup_checks all ts in
    let first_of_key = not (exists (λ (s : Tracked). str_eq s.key t.key) ts) in
    let n = length (ids_of_key t.key all) in
    if first_of_key && ltb 1 n then dedup t.key n ∷ later else later

-- _verify. The newest entry of `_J` stands first.
pub verify : List Tracked → List Audited → List Violation
unfolding dedup_checks audit_checks global_check
verify jobs audits = dedup_checks jobs jobs ++ (audit_checks audits ++ global_check audits)

-- _submit_one on a reply with a job's id: `_K` by its lookup, `_J`, and the logged event.
pub record Ledger : Type 0 where
  pub keys : List (String × String)
  pub jobs : List Tracked
  pub distinct_ids_logged : ℕ

pub key_job : String → List (String × String) → Option String
key_job k [] = none
key_job k ((j, id) ∷ rest) = let later = key_job k rest in if str_eq j k then some id else later

unfoldable pub record_reply : String → String → Ledger → Ledger
unfolding key_job exists
record_reply key jid g = record {
  keys = (key, jid) ∷ g.keys;
  jobs =
      if exists (λ (t : Tracked). str_eq t.jid jid) g.jobs
      then g.jobs
      else record { jid = jid; key = key } ∷ g.jobs;
  distinct_ids_logged = elim (key_job key g.keys) [
    | none ↦ g.distinct_ids_logged
    | some old ↦ if str_eq old jid then g.distinct_ids_logged else suc g.distinct_ids_logged
  ];
}
