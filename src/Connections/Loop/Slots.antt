-- ===== src/Connections/Loop/Slots.antt =====
-- The slots bound the connections.
use gnmi_gateway.Prelude.{
  ℕ, zero, suc, ◌+◌, ◌≤◌, Bool, true, false, List, [], ◌∷◌, All, if◌then◌else◌, arith, ◌≡◌, refl,
}
use gnmi_gateway.Connections.Loop.{
  Place, head, locking, connecting, finished, Loop, Input, after_slot, run_head, loop_step, step_at,
  run_loops,
}

abbrev pub slot : Loop → ℕ
slot c = if c.slot_acquired then 1 else 0

abbrev pub slots : List Loop → ℕ
slots [] = 0
slots (c ∷ cs) = slot c + slots cs

abbrev pub is_connecting : Place → Bool
is_connecting connecting = true
is_connecting head = false
is_connecting locking = false
is_connecting finished = false

-- The loops that are in `doConnect`.
abbrev pub connections : List Loop → ℕ
connections [] = 0
connections (c ∷ cs) = (if is_connecting c.place then 1 else 0) + connections cs

abbrev is_waiting : Place → Bool
is_waiting locking = true
is_waiting head = false
is_waiting connecting = false
is_waiting finished = false

-- A loop in `doConnect` has its slot, and its lock if it uses one.
pub record IsSound (c : Loop) : Type 0 where
  pub has_slot : is_connecting c.place ≡ true → c.slot_acquired ≡ true
  pub waits_with_slot : is_waiting c.place ≡ true → c.slot_acquired ≡ true
  pub has_lock : is_connecting c.place ≡ true → c.uses_lock ≡ true → c.lock_acquired ≡ true

loop_step-slot :
    (limit used : ℕ) (c : Loop) (input : Input)
    → slot c ≤ used
    → (loop_step limit used c input).0 + slot c ≡ used + slot (loop_step limit used c input).1
unfolding loop_step run_head
loop_step-slot limit used c input enough = ground arith

loop_step-limit :
    (limit used : ℕ) (c : Loop) (input : Input)
    → used ≤ limit
    → (loop_step limit used c input).0 ≤ limit
unfolding loop_step run_head
loop_step-limit limit used c input below = ground arith

pub loop_step-IsSound :
    (limit used : ℕ) (c : Loop) (input : Input)
    → IsSound c
    → IsSound (loop_step limit used c input).1
unfolding loop_step run_head after_slot
loop_step-IsSound limit used c input s = record {
  has_slot = λ e. ground (arith, s.has_slot, s.waits_with_slot);
  waits_with_slot = λ e. ground (arith, s.has_slot, s.waits_with_slot);
  has_lock = λ e u. ground (arith, s.has_lock);
}

step_at-slots :
    (limit used : ℕ) (cs : List Loop) (i : ℕ) (input : Input)
    → slots cs ≤ used
    → (step_at limit used cs i input).0 + slots cs ≡ used + slots (step_at limit used cs i input).1
unfolding step_at
step_at-slots limit used [] i input enough = refl
step_at-slots limit used (c ∷ cs) zero input enough =
    omega (arith, loop_step-slot limit used c input (omega (arith, enough)))
step_at-slots limit used (c ∷ cs) (suc i) input enough =
    omega (arith, step_at-slots limit used cs i input (omega (arith, enough)))

step_at-limit :
    (limit used : ℕ) (cs : List Loop) (i : ℕ) (input : Input)
    → used ≤ limit
    → (step_at limit used cs i input).0 ≤ limit
unfolding step_at
step_at-limit limit used [] i input below = below
step_at-limit limit used (c ∷ cs) zero input below = loop_step-limit limit used c input below
step_at-limit limit used (c ∷ cs) (suc i) input below = step_at-limit limit used cs i input below

step_at-IsSound :
    (limit used : ℕ) (cs : List Loop) (i : ℕ) (input : Input)
    → All IsSound cs
    → All IsSound (step_at limit used cs i input).1
unfolding step_at
step_at-IsSound limit used [] i input s = s
step_at-IsSound limit used (c ∷ cs) zero input s = (loop_step-IsSound limit used c input s.0, s.1)
step_at-IsSound limit used (c ∷ cs) (suc i) input s =
    (s.0, step_at-IsSound limit used cs i input s.1)

connections-slots : (cs : List Loop) → All IsSound cs → connections cs ≤ slots cs
connections-slots [] s = omega arith
connections-slots (c ∷ cs) s = ground (arith, s.0.has_slot, connections-slots cs s.1)

-- The slots are counted right, the limit holds, and every loop is sound.
pub record IsBounded (limit used : ℕ) (cs : List Loop) : Type 0 where
  pub counted : used ≡ slots cs
  pub limited : used ≤ limit
  pub sound : All IsSound cs
  pub few : connections cs ≤ limit

step_at-IsBounded :
    (limit used : ℕ) (cs : List Loop) (i : ℕ) (input : Input)
    → IsBounded limit used cs
    → let r = step_at limit used cs i input in IsBounded limit r.0 r.1
step_at-IsBounded limit used cs i input b =
    let r = step_at limit used cs i input in
    let counted : r.0 ≡ slots r.1 =
      omega (arith, b.counted, step_at-slots limit used cs i input (omega (arith, b.counted))) in
    let limited : r.0 ≤ limit = step_at-limit limit used cs i input b.limited in
    let sound = step_at-IsSound limit used cs i input b.sound in
    record {
      counted = counted;
      limited = limited;
      sound = sound;
      few = omega (arith, counted, limited, connections-slots r.1 sound);
    }

-- Whatever the loops of the connections do and however their steps interleave, the slots taken are
-- those that the loops hold and never more than the limit, no more loops than that are in `doConnect`,
-- and each of these holds a slot, and its lock if it uses one.
pub run_loops-IsBounded :
    (limit used : ℕ) (cs : List Loop) (steps : List (ℕ × Input))
    → IsBounded limit used cs
    → let r = run_loops limit used cs steps in IsBounded limit r.0 r.1
unfolding run_loops
run_loops-IsBounded limit used cs [] b = b
run_loops-IsBounded limit used cs ((i, input) ∷ steps) b =
    let r = step_at limit used cs i input in
    run_loops-IsBounded limit r.0 r.1 steps (step_at-IsBounded limit used cs i input b)
