-- ===== src/Connections/Loop/Examples.antt =====
-- The bound on the connections at a concrete run: two loops and one slot.
use gnmi_gateway.Prelude.{ℕ, some, Bool, true, false, List, [], ◌∷◌, arith, ◌≡◌, refl}
use gnmi_gateway.Connections.Loop.{
  Place, head, locking, connecting, finished, Loop, Input, runs, stops, run_loops,
}
use gnmi_gateway.Connections.Loop.Stopping.{loop_at, run_loops-finishes}
use gnmi_gateway.Connections.Loop.Slots.{IsSound, IsBounded, run_loops-IsBounded}

abbrev fresh : Bool → Loop
fresh uses_lock = record {
  uses_lock = uses_lock;
  place = head;
  slot_acquired = false;
  lock_acquired = false;
  stopped = false;
}

fresh-IsSound : (uses_lock : Bool) → IsSound (fresh uses_lock)
fresh-IsSound uses_lock = record {
  has_slot = λ e. ground arith;
  waits_with_slot = λ e. ground arith;
  has_lock = λ e u. ground arith;
}

start-IsBounded : IsBounded 1 0 (fresh true ∷ fresh false ∷ [])
start-IsBounded = record {
  counted = refl;
  limited = omega arith;
  sound = (fresh-IsSound true, (fresh-IsSound false, tt));
  few = omega arith;
}

abbrev race : List (ℕ × Input)
race = (0, runs false) ∷ (1, runs false) ∷ (0, runs true) ∷ (1, runs false) ∷ (0, stops) ∷ []

run_loops-IsBounded_example :
    let r = run_loops 1 0 (fresh true ∷ fresh false ∷ []) race in IsBounded 1 r.0 r.1
run_loops-IsBounded_example =
    run_loops-IsBounded 1 0 (fresh true ∷ fresh false ∷ []) race start-IsBounded

-- The first loop is connected, the second one still waits for the slot.
race_ends : (run_loops 1 0 (fresh true ∷ fresh false ∷ []) race).0 ≡ 1
unfolding run_loops gnmi_gateway.Connections.Loop.step_at gnmi_gateway.Connections.Loop.loop_step
    gnmi_gateway.Connections.Loop.run_head gnmi_gateway.Connections.Loop.after_slot
race_ends = refl

-- A loop that has a slot and is asked to stop before it gets the lock.
abbrev stopping : Loop
stopping = record {
  uses_lock = true;
  place = locking;
  slot_acquired = true;
  lock_acquired = false;
  stopped = true;
}

abbrev ending : List (ℕ × Input)
ending = (1, runs false) ∷ (1, runs true) ∷ (0, runs false) ∷ (1, runs false) ∷ (1, runs false) ∷ []

run_loops-finishes_example :
    (c : Loop) × (loop_at (run_loops 1 1 (fresh true ∷ stopping ∷ []) ending).1 1 ≡ some c)
    × (c.place ≡ finished)
    × (c.slot_acquired ≡ false)
run_loops-finishes_example =
    run_loops-finishes 1 1 (fresh true ∷ stopping ∷ []) ending 1 stopping refl
      (refl, λ e. ground arith) (omega arith)
