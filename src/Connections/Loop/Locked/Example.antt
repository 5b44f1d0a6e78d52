-- ===== src/Connections/Loop/Locked/Example.antt =====
-- Two connections of one target with local locks.
use gnmi_gateway.Prelude.{
  some_inj, none_not_some, ℕ, zero, suc, Bool, true, false, subst, none, some, List, [], ◌∷◌, Text,
  codes, arith, ◌≡◌, refl,
}
use gnmi_gateway.Locking.Local.{System, start, new_non_blocking_lock}
use gnmi_gateway.Locking.Local.Interface.{local_locks, local_locks-IsExclusive, start-IsReached}
use gnmi_gateway.Connections.Loop.{head, connecting, Loop}
use gnmi_gateway.Connections.Loop.Slots.{IsSound}
use gnmi_gateway.Connections.Loop.Stopping.{loop_at}
use gnmi_gateway.Connections.Loop.Locked.{Process, Event, goes, run_process}
use gnmi_gateway.Connections.Loop.Locked.Exclusion.{IsSafe, IsConnected, run_process-exclusive}

abbrev waiting : Loop
waiting = record {
  uses_lock = true;
  place = head;
  slot_acquired = false;
  lock_acquired = false;
  stopped = false;
}

waiting-IsSound : IsSound waiting
waiting-IsSound = record {
  has_slot = λ e. ground arith;
  waits_with_slot = λ e. ground arith;
  has_lock = λ e u. ground arith;
}

abbrev ids : ℕ → Text
ids i = codes "/target/r1"

abbrev members : ℕ → Text
members i = codes "gateway"

abbrev begin : Process System
begin = record { used = 0; loops = waiting ∷ waiting ∷ []; locks = start ids members }

abbrev Covered : Loop → Type 0
Covered c = IsSound c × (c.uses_lock ≡ true → c.lock_acquired ≡ true → false ≡ true)

begin-covered :
    (i : ℕ) (c : Loop)
    → loop_at begin.loops i ≡ some c
    → IsSound c
      × (c.uses_lock ≡ true → c.lock_acquired ≡ true → (begin.locks.locks i).acquired ≡ true)
unfolding start
begin-covered zero c e = subst (λ l. Covered l) (some_inj e) (waiting-IsSound, λ u h. ground arith)
begin-covered (suc zero) c e =
    subst (λ l. Covered l) (some_inj e) (waiting-IsSound, λ u h. ground arith)
begin-covered (suc (suc i)) c e = absurd (none_not_some e)

begin-IsSafe : IsSafe local_locks (λ i j. ids i ≡ ids j) (local_locks-IsExclusive ids) 5 begin
begin-IsSafe = record { reached = start-IsReached ids members; covered = begin-covered }

-- Both loops take a slot and try the lock, and the second one was first.
abbrev events : List Event
events = goes 0 ∷ goes 1 ∷ goes 1 ∷ goes 0 ∷ []

abbrev left_out : Loop
left_out = record {
  uses_lock = true;
  place = head;
  slot_acquired = true;
  lock_acquired = false;
  stopped = false;
}

abbrev let_in : Loop
let_in = record {
  uses_lock = true;
  place = connecting;
  slot_acquired = true;
  lock_acquired = true;
  stopped = false;
}

abbrev ended : Process System
ended = run_process local_locks 5 begin events

first_waits : loop_at ended.loops 0 ≡ some left_out
unfolding run_process gnmi_gateway.Connections.Loop.Locked.process_step
    gnmi_gateway.Connections.Loop.Locked.run_locked gnmi_gateway.Connections.Loop.step_at
    gnmi_gateway.Connections.Loop.loop_step gnmi_gateway.Connections.Loop.run_head
    gnmi_gateway.Connections.Loop.after_slot gnmi_gateway.Locking.Local.try
    gnmi_gateway.Locking.Local.step start gnmi_gateway.Prelude.lookup gnmi_gateway.Prelude.insert
    gnmi_gateway.Prelude.◌==◌
first_waits = refl

second_connects : loop_at ended.loops 1 ≡ some let_in
unfolding run_process gnmi_gateway.Connections.Loop.Locked.process_step
    gnmi_gateway.Connections.Loop.Locked.run_locked gnmi_gateway.Connections.Loop.step_at
    gnmi_gateway.Connections.Loop.loop_step gnmi_gateway.Connections.Loop.run_head
    gnmi_gateway.Connections.Loop.after_slot gnmi_gateway.Locking.Local.try start
    gnmi_gateway.Prelude.lookup
second_connects = refl

run_process-exclusive_example : ¬ (IsConnected left_out × IsConnected let_in)
run_process-exclusive_example =
    run_process-exclusive local_locks (λ i j. ids i ≡ ids j) (local_locks-IsExclusive ids) 5 begin
      events 0 1 left_out let_in begin-IsSafe refl (λ e. ground arith) first_waits second_connects
