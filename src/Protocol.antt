-- ===== src/Protocol.antt =====
-- What the dispatcher promises of one job, apart from tables, workers and coordinators: a state,
-- the job's leases and accepted commits (newest first), and the log of its transitions. The steps
-- are those that db/schema.sql and coordinator/*.py name.
pub mod Sound
use chaos_harness.Common.{
  ℕ, ◌<◌, ◌≡◌, Bool, true, false, Option, none, some, List, [], ◌∷◌, update, All, Pairs,
}
use chaos_harness.Common.Int.{ℤ, pos}
use chaos_harness.Schema.{
  JobState, pending, leased, succeeded, failed, cancelled, Transition, Lease, Commit, is_live,
  latest,
}

pub record View : Type 0 where
  pub state : Option JobState
  pub leases : List Lease
  pub accepted : List Commit
  pub history : List Transition

-- The edges of the state machine.
pub data Edge : Option JobState → JobState → Type 0 where
  submit : Edge none pending
  claim : Edge (some pending) leased
  requeue : Edge (some leased) pending
  finish : Edge (some leased) succeeded
  cancel : Edge (some pending) cancelled

-- The log is a walk along the edges that ends in the state.
abbrev pub Walk : Option JobState → List Transition → Type 0
Walk none [] = Unit
Walk none (t ∷ ts) = ⊥
Walk (some s) [] = ⊥
Walk (some s) (t ∷ ts) = (t.to_state ≡ s) × Edge t.from_state s × Walk t.from_state ts

abbrev pub IsExpired : Lease → Type 0
IsExpired l = is_live l ≡ false

-- Fences fall along the list, so the first lease is the latest.
abbrev pub IsFalling : List Lease → Type 0
IsFalling = Pairs (λ l m. m.fence < l.fence)

-- The first lease is live and the others are not.
abbrev pub IsHeld : List Lease → Type 0
IsHeld [] = ⊥
IsHeld (l ∷ ls) = (is_live l ≡ true) × All IsExpired ls

-- One commit was accepted, under the latest fence; no earlier lease is live.
abbrev pub IsDone : List Lease → List Commit → Type 0
IsDone (l ∷ ls) (c ∷ []) = (c.fence ≡ pos l.fence) × All IsExpired ls
IsDone _ _ = ⊥

-- What the state says of the leases and of the accepted commits.
abbrev pub IsOwned : Option JobState → List Lease → List Commit → Type 0
IsOwned none ls cs = (ls ≡ []) × (cs ≡ [])
IsOwned (some pending) ls cs = All IsExpired ls × (cs ≡ [])
IsOwned (some leased) ls cs = IsHeld ls × (cs ≡ [])
IsOwned (some succeeded) ls cs = IsDone ls cs
IsOwned (some failed) ls cs = ⊥
IsOwned (some cancelled) ls cs = All IsExpired ls × (cs ≡ [])

pub record IsSound (v : View) : Type 0 where
  pub owned : IsOwned v.state v.leases v.accepted
  pub falling : IsFalling v.leases
  pub walk : Walk v.state v.history

-- The latest lease is one that p selects, or is not; there may be none.
abbrev pub Head : Bool → (Lease → Bool) → List Lease → Type 0
Head b p [] = Unit
Head b p (l ∷ ls) = p l ≡ b

abbrev pub mark : ℕ → Lease → Lease
mark now l = record l { expired_at_ms = some now }

-- One step of one job, with the condition under which it may be made.
pub data JobStep (v v' : View) : Type 0 where
  stay : v' ≡ v → JobStep v v'
  submit :
      (t : Transition)
      → v.state ≡ none
      → t.from_state ≡ none
      → t.to_state ≡ pending
      → v' ≡ record v { state = some pending; history = t ∷ v.history }
      → JobStep v v'
  claim :
      (t : Transition) (l : Lease)
      → v.state ≡ some pending
      → t.from_state ≡ some pending
      → t.to_state ≡ leased
      → is_live l ≡ true
      → All (λ m. m.fence < l.fence) v.leases
      → v' ≡ record v { state = some leased; leases = l ∷ v.leases; history = t ∷ v.history }
      → JobStep v v'
  renew :
      (p : Lease → Bool) (deadline : ℕ)
      → v' ≡ record v { leases = update p (λ l. record l { expires_at_ms = deadline }) v.leases }
      → JobStep v v'
  expire :
      (p : Lease → Bool) (now : ℕ)
      → (v.state ≡ some leased → Head false p v.leases)
      → v' ≡ record v { leases = update p (mark now) v.leases }
      → JobStep v v'
  requeue :
      (t : Transition) (p : Lease → Bool) (now : ℕ)
      → v.state ≡ some leased
      → t.from_state ≡ some leased
      → t.to_state ≡ pending
      → Head true p v.leases
      → v' ≡ record v {
        state = some pending;
        leases = update p (mark now) v.leases;
        history = t ∷ v.history;
      }
      → JobStep v v'
  accept :
      (t : Transition) (c : Commit) (l : Lease)
      → latest v.leases ≡ some l
      → is_live l ≡ true
      → c.fence ≡ pos l.fence
      → v.accepted ≡ []
      → t.from_state ≡ some leased
      → t.to_state ≡ succeeded
      → v' ≡ record v { state = some succeeded; accepted = c ∷ v.accepted; history = t ∷ v.history }
      → JobStep v v'
  cancel :
      (t : Transition)
      → v.state ≡ some pending
      → t.from_state ≡ some pending
      → t.to_state ≡ cancelled
      → v' ≡ record v { state = some cancelled; history = t ∷ v.history }
      → JobStep v v'
