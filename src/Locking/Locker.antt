-- ===== src/Locking/Locker.antt =====
-- gateway/locking/locker.go: `DistributedLocker`, as far as a connection calls it: locks by number over
-- a state that they share, and what a connection relies on.
use gnmi_gateway.Prelude.{ℕ, Bool, true, false, eqb, ◌≡◌}

pub record DistributedLocker (S : Type 0) : Type 0 where
  pub try : S → ℕ → S × Bool
  pub unlock : S → ℕ → S
  pub lock_acquired : S → ℕ → Bool

-- The locks for one id exclude each other, in the states that are reached: `Try` acquires the lock if
-- it says so, and neither call touches another lock.
pub record IsExclusive {S : Type 0} (k : DistributedLocker S) (id : ℕ → ℕ → Type 0) : Type 1 where
  pub IsReached : S → Type 0
  pub try_reached : (s : S) (i : ℕ) → IsReached s → IsReached (k.try s i).0
  pub unlock_reached : (s : S) (i : ℕ) → IsReached s → IsReached (k.unlock s i)
  pub try_acquires : (s : S) (i : ℕ) → (k.try s i).1 ≡ true → k.lock_acquired (k.try s i).0 i ≡ true
  pub try_other :
      (s : S) (i j : ℕ) → eqb i j ≡ false → k.lock_acquired (k.try s i).0 j ≡ k.lock_acquired s j
  pub unlock_other :
      (s : S) (i j : ℕ) → eqb i j ≡ false → k.lock_acquired (k.unlock s i) j ≡ k.lock_acquired s j
  pub excludes :
      (s : S) (i j : ℕ)
      → IsReached s
      → k.lock_acquired s i ≡ true
      → k.lock_acquired s j ≡ true
      → id i j
      → i ≡ j
