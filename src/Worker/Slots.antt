-- ===== src/Worker/Slots.antt =====
-- ResizableSemaphore of worker/worker.py over a run of acquires, releases and changes of its limit.
use chaos_harness.Common.{ℕ, ◌+◌, ◌≤◌, ◌≡◌, inl, inr, some, arith, max, Bool-cases, ltb}
use chaos_harness.Common.Int.{ℤ}
use chaos_harness.Worker.{ResizableSemaphore, acquire, release, set_limit}

pub data SlotStep (s t : ResizableSemaphore) : Type 0 where
  acquired : acquire s ≡ some t → SlotStep s t
  released : t ≡ release s → SlotStep s t
  resized : (n : ℤ) → t ≡ set_limit n s → SlotStep s t

-- A run, with the largest limit that was set on the way, at least the bound at its start.
pub data SlotRun (s : ResizableSemaphore) : ℕ → ResizableSemaphore → Type 0 where
  start : SlotRun s s.limit s
  then_slot :
      {b : ℕ} {t v : ResizableSemaphore}
      → SlotRun s b t
      → SlotStep t v
      → SlotRun s (max b v.limit) v

step_bounded :
    (b : ℕ) (s t : ResizableSemaphore)
    → s.in_use ≤ b
    → s.limit ≤ b
    → SlotStep s t
    → t.in_use ≤ max b t.limit
unfolding acquire release set_limit
step_bounded b s t u l (acquired e) = elim (Bool-cases (ltb s.in_use s.limit)) [
  | inl room ↦
      let same : some (record s { in_use = s.in_use + 1 }) ≡ some t = (rw (room, acquire) at e) in
      let used : s.in_use + 1 ≡ t.in_use = cc in let kept : s.limit ≡ t.limit = cc in ground arith
  | inr full ↦ absurd (ground arith)
]
step_bounded b s t u l (released e) = rw e (omega arith)
step_bounded b s t u l (resized n e) = rw e (omega arith)

-- Over any run from a semaphore that is not overfull, the slots in use never exceed the largest
-- limit that was in force.
pub slots_bounded :
    (s t : ResizableSemaphore) (b : ℕ) → s.in_use ≤ s.limit → SlotRun s b t → t.in_use ≤ b
slots_bounded s t b h run = (bounded run).0
  where
    bounded :
        {b' : ℕ} {t' : ResizableSemaphore} → SlotRun s b' t' → (t'.in_use ≤ b') × (t'.limit ≤ b')
    bounded start = (h, omega arith)
    bounded (then_slot {b = c} {t = m} {v = v} r step) =
        let (u, l) = bounded r in (step_bounded c m v u l step, omega arith)
