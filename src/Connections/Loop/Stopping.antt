-- ===== src/Connections/Loop/Stopping.antt =====
-- A loop that is told to stop comes to its end.
use gnmi_gateway.Prelude.{
  some_inj, ℕ, zero, suc, ◌+◌, ◌-◌, ◌≤◌, true, false, Option, none, some, List, [], ◌∷◌, eqb,
  eqb_iff, Bool-cases, inl, inr, if◌then◌else◌, arith, ◌≡◌, refl, ap, ◌∙◌,
}
use gnmi_gateway.Connections.Loop.{
  Place, head, locking, connecting, finished, Loop, Input, runs, stops, after_slot, run_head,
  loop_step, step_at, run_loops,
}

-- The loop at a position.
abbrev pub loop_at : List Loop → ℕ → Option Loop
loop_at [] i = none
loop_at (c ∷ cs) zero = some c
loop_at (c ∷ cs) (suc i) = loop_at cs i

abbrev is_run : Input → ℕ
is_run (runs _) = 1
is_run stops = 0

-- How often the loop at a position runs on.
abbrev pub own_runs : ℕ → List (ℕ × Input) → ℕ
own_runs i [] = 0
own_runs i ((j, input) ∷ steps) =
    if eqb j i then is_run input + own_runs i steps else own_runs i steps

-- The steps that are left to a loop that has been told to stop.
abbrev rank : Place → ℕ
rank finished = 0
rank head = 1
rank connecting = 2
rank locking = 3

-- A loop that has been told to stop, and has no slot once it is at its end.
abbrev pub IsStopping : Loop → Type 0
IsStopping c = (c.stopped ≡ true) × (c.place ≡ finished → c.slot_acquired ≡ false)

pub step_at-other :
    (limit used : ℕ) (cs : List Loop) (j i : ℕ) (input : Input)
    → eqb j i ≡ false
    → loop_at (step_at limit used cs j input).1 i ≡ loop_at cs i
unfolding step_at
step_at-other limit used [] j i input e = refl
step_at-other limit used (c ∷ cs) zero zero input e = ground arith
step_at-other limit used (c ∷ cs) zero (suc i) input e = refl
step_at-other limit used (c ∷ cs) (suc j) zero input e = refl
step_at-other limit used (c ∷ cs) (suc j) (suc i) input e =
    step_at-other limit used cs j i input (ground arith)

pub step_at-own :
    (limit used : ℕ) (cs : List Loop) (i : ℕ) (input : Input) (c : Loop)
    → loop_at cs i ≡ some c
    → loop_at (step_at limit used cs i input).1 i ≡ some (loop_step limit used c input).1
unfolding step_at
step_at-own limit used [] i input c e = ground arith
step_at-own limit used (d ∷ cs) zero input c e =
    ap (λ x. some (loop_step limit used x input).1) (some_inj e)
step_at-own limit used (d ∷ cs) (suc i) input c e = step_at-own limit used cs i input c e

loop_step-IsStopping :
    (limit used : ℕ) (c : Loop) (input : Input)
    → IsStopping c
    → IsStopping (loop_step limit used c input).1
unfolding loop_step run_head after_slot
loop_step-IsStopping limit used c input (stopped, released) = (ground arith, λ e. ground arith)

loop_step-rank :
    (limit used : ℕ) (c : Loop) (input : Input)
    → c.stopped ≡ true
    → rank (loop_step limit used c input).1.place ≤ rank c.place - is_run input
unfolding loop_step run_head
loop_step-rank limit used c input stopped = ground arith

-- After enough steps of its own, the loop is at its end.
run_loops-rank :
    (limit used : ℕ) (cs : List Loop) (steps : List (ℕ × Input)) (i : ℕ) (c : Loop)
    → loop_at cs i ≡ some c
    → IsStopping c
    → (c' : Loop) × (loop_at (run_loops limit used cs steps).1 i ≡ some c')
      × IsStopping c'
      × (rank c'.place ≤ rank c.place - own_runs i steps)
unfolding run_loops
run_loops-rank limit used cs [] i c at s = (c, at, s, ground arith)
run_loops-rank limit used cs ((j, input) ∷ steps) i c at s = elim (Bool-cases (eqb j i)) [
  | inr other ↦
      let (used', cs') = step_at limit used cs j input in
      let at' : loop_at cs' i ≡ some c = step_at-other limit used cs j i input other ∙ at in
      let (c', found, s', low) = run_loops-rank limit used' cs' steps i c at' s in
      (c', found, s', rw other low)
  | inl own ↦
      let (used', cs') = step_at limit used cs j input in
      let d = (loop_step limit used c input).1 in
      let same : j ≡ i = (eqb_iff j i).0 own in
      let at' : loop_at cs' i ≡ some d = rw same (step_at-own limit used cs i input c at) in
      let (c', found, s', low) =
        run_loops-rank limit used' cs' steps i d at' (loop_step-IsStopping limit used c input s) in
      let step = loop_step-rank limit used c input s.0 in (c', found, s', rw own (omega arith))
]

at_end : (p : Place) → rank p ≤ 0 → p ≡ finished
at_end p h = ground arith

-- A loop that has been told to stop is at its end after three steps of its own, of which the return of
-- doConnect is one, and has given its slot back, whatever Try answers it and however the steps of the
-- other loops interleave with its own.
pub run_loops-finishes :
    (limit used : ℕ) (cs : List Loop) (steps : List (ℕ × Input)) (i : ℕ) (c : Loop)
    → loop_at cs i ≡ some c
    → IsStopping c
    → 3 ≤ own_runs i steps
    → (c' : Loop) × (loop_at (run_loops limit used cs steps).1 i ≡ some c')
      × (c'.place ≡ finished)
      × (c'.slot_acquired ≡ false)
run_loops-finishes limit used cs steps i c at s enough =
    let (c', found, (_, released), low) = run_loops-rank limit used cs steps i c at s in
    let small : rank c.place ≤ 3 = ground arith in
    let ended = at_end c'.place (omega arith) in (c', found, ended, released ended)
