-- ===== src/Locking/Local/Examples.antt =====
-- Runs and instances of the theorems on local locks: two members contend for one target's lock.
use gnmi_gateway.Prelude.{
  ℕ, true, List, [], ◌∷◌, Text, codes, eqb, if◌then◌else◌, ◌≡◌, refl, ◌==◌, lookup, insert, erase,
}
use gnmi_gateway.Locking.Local.{step, unlock, Call, tries, unlocks, start, run, try}
use gnmi_gateway.Locking.Local.Exclusion.{run-exclusive}

abbrev ids : ℕ → Text
ids i = codes "/gnmi/target/r1"

abbrev members : ℕ → Text
members i = if eqb i 0 then codes "10.0.0.1:9339" else codes "10.0.0.2:9339"

abbrev contention : List Call
contention = tries 0 ∷ tries 1 ∷ unlocks 0 ∷ tries 1 ∷ []

second_holds : ((run (start ids members) contention).locks 1).acquired ≡ true
unfolding run step start try unlock lookup insert erase ◌==◌
second_holds = refl

run-exclusive_example : ◌≡◌ {A = ℕ} 1 1
run-exclusive_example = run-exclusive ids members contention 1 1 refl second_holds second_holds
