-- ===== src/Connections/Loop/Locked.antt =====
-- gateway/connections/state.go: the calls of the lock in `connectWithLock`, for several connections whose
-- locks are any lockers over a shared state. Loop `i` has lock `i`.
pub mod Exclusion
mod Example
use gnmi_gateway.Prelude.{
  ℕ, Bool, true, false, ◌&&◌, Option, none, some, List, [], ◌∷◌, if◌then◌else◌,
}
use gnmi_gateway.Locking.Locker.{DistributedLocker}
use gnmi_gateway.Connections.Loop.{
  Place, head, locking, connecting, finished, Loop, Input, runs, stops, step_at,
}
use gnmi_gateway.Connections.Loop.Stopping.{loop_at}

-- The slots that are taken, the loops, and the state of their locks.
pub record Process (S : Type 0) : Type 0 where
  pub used : ℕ
  pub loops : List Loop
  pub locks : S

-- A loop runs on, or is told to stop.
pub data Event : Type 0 where
  goes told_to_stop : ℕ → Event

module _ {S : Type 0} (k : DistributedLocker S) (limit : ℕ) where
  -- A step of loop `i`, with the locks after its calls.
  abbrev pub moved : Process S → ℕ → Input → S → Process S
  moved p i input locks =
      let (used', loops') = step_at limit p.used p.loops i input in
      record { used = used'; loops = loops'; locks = locks }

  -- `t.lock.Try()` comes before `doConnect`, and `t.lock.Unlock()` after it if the lock is acquired.
  unfoldable pub run_locked : Process S → ℕ → Loop → Process S
  run_locked p i c = elim c.place [
    | head ↦ moved p i (runs false) p.locks
    | locking ↦ let (locks, held) = k.try p.locks i in moved p i (runs held) locks
    | connecting ↦
        moved p i (runs false)
          (if c.uses_lock && k.lock_acquired p.locks i then k.unlock p.locks i else p.locks)
    | finished ↦ moved p i (runs false) p.locks
  ]

  unfoldable pub process_step : Process S → Event → Process S
  process_step p (told_to_stop i) = moved p i stops p.locks
  process_step p (goes i) = elim (loop_at p.loops i) [ none ↦ p | some c ↦ run_locked p i c ]

  unfoldable pub run_process : Process S → List Event → Process S
  run_process p [] = p
  run_process p (e ∷ es) = run_process (process_step p e) es
