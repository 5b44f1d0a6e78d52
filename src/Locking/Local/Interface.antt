-- ===== src/Locking/Local/Interface.antt =====
-- The local locks of a process are distributed lockers that exclude each other.
use gnmi_gateway.Prelude.{ℕ, true, false, Text, eqb, arith, ◌≡◌, refl, sym, ◌∙◌}
use gnmi_gateway.Locking.Locker.{DistributedLocker, IsExclusive}
use gnmi_gateway.Locking.Local.{System, tries, unlocks, try, load_or_store, step, start}
use gnmi_gateway.Locking.Local.Invariant.{Inv, start-Inv, step-Inv, step-SameName}

abbrev pub local_locks : DistributedLocker System
local_locks = record {
  try = λ s i. (step s (tries i), (try s.registry (s.locks i)).held);
  unlock = λ s i. step s (unlocks i);
  lock_acquired = λ s i. (s.locks i).acquired;
}

module _ (ids : ℕ → Text) where
  -- The invariant holds, and every lock has its id.
  abbrev pub IsReached : System → Type 0
  IsReached s = Inv s × ((i : ℕ) → (s.locks i).id ≡ ids i)

  try_acquires :
      (s : System) (i : ℕ)
      → (try s.registry (s.locks i)).held ≡ true
      → ((step s (tries i)).locks i).acquired ≡ true
  unfolding step try load_or_store
  try_acquires s i held = ground arith

  try_other :
      (s : System) (i j : ℕ)
      → eqb i j ≡ false
      → ((step s (tries i)).locks j).acquired ≡ (s.locks j).acquired
  unfolding step
  try_other s i j e = rw e refl

  unlock_other :
      (s : System) (i j : ℕ)
      → eqb i j ≡ false
      → ((step s (unlocks i)).locks j).acquired ≡ (s.locks j).acquired
  unfolding step
  unlock_other s i j e = rw e refl

  pub local_locks-IsExclusive : IsExclusive local_locks (λ i j. ids i ≡ ids j)
  local_locks-IsExclusive = record {
    IsReached = IsReached;
    try_reached =
        λ s i (v, at). (step-Inv s (tries i) v, λ j. (step-SameName s (tries i) j).0 ∙ at j);
    unlock_reached =
        λ s i (v, at). (step-Inv s (unlocks i) v, λ j. (step-SameName s (unlocks i) j).0 ∙ at j);
    try_acquires = try_acquires;
    try_other = try_other;
    unlock_other = unlock_other;
    excludes = λ s i j (v, at) hi hj e. v.unique i j hi hj (at i ∙ e ∙ sym (at j));
  }

  pub start-IsReached :
      (members : ℕ → Text) → (local_locks-IsExclusive).IsReached (start ids members)
  unfolding local_locks-IsExclusive start
  start-IsReached members = (start-Inv ids members, λ i. refl)
