-- ===== src/Worker.antt =====
-- worker/worker.py: the slots that bound a worker's jobs, and the commit that is sent until it is
-- confirmed.
pub mod Slots
pub mod Retries
pub mod Frames
pub mod Execution
pub mod Beats
pub mod Dialing
pub mod Resizing
pub mod Tasks
pub mod Listed
pub mod Held
pub mod Slotted
pub mod Holding
pub mod Confirming
use chaos_harness.Common.{
  ℕ, zero, suc, ◌+◌, ◌-◌, Bool, true, false, Option, none, some, ltb, if◌then◌else◌,
}
use chaos_harness.Common.Int.{ℤ, clamp_zero}

-- ResizableSemaphore.
pub record ResizableSemaphore : Type 0 where
  pub limit : ℕ
  pub in_use : ℕ

unfoldable pub make : ℤ → ResizableSemaphore
make limit = record { limit = clamp_zero limit; in_use = 0 }

-- `none` where the caller waits.
unfoldable pub acquire : ResizableSemaphore → Option ResizableSemaphore
acquire s = if ltb s.in_use s.limit then some (record s { in_use = s.in_use + 1 }) else none

-- Each release follows an acquire, so that `in_use` does not fall below 0.
unfoldable pub release : ResizableSemaphore → ResizableSemaphore
release s = record s { in_use = s.in_use - 1 }

unfoldable pub set_limit : ℤ → ResizableSemaphore → ResizableSemaphore
set_limit n s = record s { limit = clamp_zero n }

-- What one attempt of _commit_with_retry comes to: the send fails, no confirmation comes in time,
-- or one comes.
pub data Attempt : Type 0 where
  unsent timeout confirmed : Attempt

-- The loop of _commit_with_retry over the attempts that are left, on whatever state the other side
-- has: its last attempt, and the state after it.
pub attempts {ℓ} : {S : Type ℓ} → (ℕ → S → Attempt × S) → ℕ → S → Attempt × S
attempts exchange zero s = (timeout, s)
attempts exchange (suc left) s =
    let (a, s') = exchange left s in
    let later = attempts exchange left s' in elim a [ timeout ↦ later | done ↦ (done, s') ]

abbrev pub commit_max_attempts : ℕ
commit_max_attempts = 8

-- _commit_with_retry.
pub commit_with_retry {ℓ} : {S : Type ℓ} → (ℕ → S → Attempt × S) → S → Attempt × S
unfolding attempts
commit_with_retry exchange s = attempts exchange commit_max_attempts s
