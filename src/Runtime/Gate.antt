-- ===== src/Runtime/Gate.antt =====
-- `Database` of coordinator/db.py without the pool's queries: the partition gate.
use chaos_harness.Common.{ℕ, ◌+◌, ◌*◌, Bool, ltb, if◌then◌else◌, ◌≡◌, refl, arith, true, false}

-- What a handler raises: the gate's two errors, an error of the driver, and any other exception.
pub data Exc : Type 0 where
  db_partitioned not_connected db_error other_error : Exc

pub data Result {ℓ} (A : Type ℓ) : Type ℓ where
  ok : A → Result A
  raise : Exc → Result A

pub record Database : Type 0 where
  pub connected : Bool
  pub partition_until : ℕ

-- Refuse all access for the next `ms` milliseconds.
unfoldable pub partition : ℕ → ℕ → Database → Database
partition mono ms d = record d { partition_until = mono + ms * 1_000_000 }

unfoldable pub is_partitioned : ℕ → Database → Bool
is_partitioned mono d = ltb mono d.partition_until

pub gate : ℕ → Database → Result (Unit {0})
unfolding is_partitioned
gate mono d =
    if d.connected
    then if is_partitioned mono d then raise db_partitioned else ok tt
    else raise not_connected

-- `self._gate()` in front of a query or a transaction.
unfoldable pub gated {ℓ} : {A : Type ℓ} → ℕ → Database → (Exc → A) → A → A
unfolding gate
gated mono d failed run = elim (gate mono d) [ ok _ ↦ run | raise e ↦ failed e ]

-- The gate lets a query through, or does not.
module _ (mono : ℕ) (d : Database) (up : d.connected ≡ true) where
  pub gate-open : is_partitioned mono d ≡ false → gate mono d ≡ ok tt
  unfolding gate
  gate-open h = ground arith

  gate-shut : is_partitioned mono d ≡ true → gate mono d ≡ raise db_partitioned
  unfolding gate
  gate-shut h = ground arith

  module _ {A : Type 0} (failed : Exc → A) (run : A) where
    pub gated-open : is_partitioned mono d ≡ false → gated mono d failed run ≡ run
    unfolding gated
    gated-open h = rw (gate-open h, gated) refl

    pub gated-shut : is_partitioned mono d ≡ true → gated mono d failed run ≡ failed db_partitioned
    unfolding gated
    gated-shut h = rw (gate-shut h, gated) refl
