-- ===== src/Connections/Loop/Locked/Exclusion.antt =====
-- One connection per target: the loops whose locks are for one id are not in doConnect together.
use gnmi_gateway.Prelude.{
  some_inj, ℕ, zero, suc, Bool, true, false, ◌&&◌, none, some, List, [], ◌∷◌, eqb, eqb_iff,
  Bool-cases, ◌⊎◌, Option-cases, inl, inr, if◌then◌else◌, arith, ◌≡◌, ◌≢◌, refl, sym, ap, subst,
  ◌∙◌,
}
use gnmi_gateway.Locking.Locker.{DistributedLocker, IsExclusive}
use gnmi_gateway.Connections.Loop.{
  Place, head, locking, connecting, finished, Loop, Input, runs, stops, run_head, loop_step,
  step_at,
}
use gnmi_gateway.Connections.Loop.Slots.{is_connecting, IsSound, loop_step-IsSound}
use gnmi_gateway.Connections.Loop.Stopping.{loop_at, step_at-other, step_at-own}
use gnmi_gateway.Connections.Loop.Locked.{
  Process, Event, goes, told_to_stop, moved, run_locked, process_step, run_process,
}

step_at-none :
    (limit used : ℕ) (cs : List Loop) (i : ℕ) (input : Input)
    → loop_at cs i ≡ none
    → step_at limit used cs i input ≡ (used, cs)
unfolding step_at
step_at-none limit used [] i input e = refl
step_at-none limit used (c ∷ cs) zero input e = ground arith
step_at-none limit used (c ∷ cs) (suc i) input e = rw (step_at-none limit used cs i input e) refl

-- A loop that uses a lock is in doConnect.
abbrev pub IsConnected : Loop → Type 0
IsConnected c = (c.place ≡ connecting) × (c.uses_lock ≡ true)

connected : {place : Place} → place ≡ connecting → is_connecting place ≡ true
connected e = ap is_connecting e

module _ {S : Type 0} (k : DistributedLocker S) (id : ℕ → ℕ → Type 0) (x : IsExclusive k id)
    (limit : ℕ) where
  -- A loop is sound, and its lock is acquired while the loop believes so.
  abbrev IsCovered : S → ℕ → Loop → Type 0
  IsCovered locks i c =
      IsSound c × (c.uses_lock ≡ true → c.lock_acquired ≡ true → k.lock_acquired locks i ≡ true)

  pub record IsSafe (p : Process S) : Type 0 where
    pub reached : x.IsReached p.locks
    pub covered : (i : ℕ) (c : Loop) → loop_at p.loops i ≡ some c → IsCovered p.locks i c

  -- The loop that moves is covered by what it knows, the others keep their locks.
  moved-IsSafe :
      (p : Process S) (i : ℕ) (c : Loop) (input : Input) (locks : S)
      → IsSafe p
      → loop_at p.loops i ≡ some c
      → x.IsReached locks
      → IsCovered locks i (loop_step limit p.used c input).1
      → ((j : ℕ) → eqb i j ≡ false → k.lock_acquired locks j ≡ k.lock_acquired p.locks j)
      → IsSafe (moved k limit p i input locks)
  moved-IsSafe p i c input locks safe at reached own others = record {
    reached = reached;
    covered = λ j d found. elim (Bool-cases (eqb i j)) [
      | inr apart ↦
          let before : loop_at p.loops j ≡ some d =
            sym (step_at-other limit p.used p.loops i j input apart) ∙ found in
          let (sound, holds) = safe.covered j d before in (sound, λ u l. others j apart ∙ holds u l)
      | inl same ↦
          let at_j : i ≡ j = (eqb_iff i j).0 same in
          let after = (step_at limit p.used p.loops i input).1 in
          let next = step_at-own limit p.used p.loops i input c at in
          let is_d = some_inj (sym next ∙ subst (λ n. loop_at after n ≡ some d) (sym at_j) found) in
          subst (λ n. IsCovered locks n d) at_j (subst (λ e. IsCovered locks i e) is_d own)
    ];
  }

  -- Only in doConnect and before it does a step change what a loop knows of its lock.
  loop_step-keeps :
      (used : ℕ) (c : Loop) (input : Input) (locks : S) (i : ℕ)
      → IsCovered locks i c
      → (c.place ≡ head) ⊎ ((c.place ≡ finished) ⊎ (input ≡ stops))
      → IsCovered locks i (loop_step limit used c input).1
  unfolding loop_step run_head
  loop_step-keeps used c input locks i (sound, holds) where_at =
      (loop_step-IsSound limit used c input sound, λ u l. holds (ground arith) (ground arith))

  tried :
      (used : ℕ) (c : Loop) (held : Bool)
      → c.place ≡ locking
      → (loop_step limit used c (runs held)).1.lock_acquired ≡ true
      → held ≡ true
  unfolding loop_step
  tried used c held e l = ground arith

  forgotten :
      (used : ℕ) (c : Loop)
      → c.place ≡ connecting
      → (loop_step limit used c (runs false)).1.lock_acquired ≡ true
      → ⊥
  unfolding loop_step
  forgotten used c e l = ground arith

  released :
      (p : Process S) (i : ℕ) (leaves : Bool)
      → x.IsReached p.locks
      → let locks = if leaves then k.unlock p.locks i else p.locks in
        x.IsReached locks
        × ((j : ℕ) → eqb i j ≡ false → k.lock_acquired locks j ≡ k.lock_acquired p.locks j)
  released p i true reached = (x.unlock_reached p.locks i reached, x.unlock_other p.locks i)
  released p i false reached = (reached, λ j apart. refl)

  locked_step :
      (p : Process S) (i : ℕ) (c : Loop) (place : Place)
      → c.place ≡ place
      → IsSafe p
      → loop_at p.loops i ≡ some c
      → IsSafe (run_locked k limit p i c)
  unfolding run_locked
  locked_step p i c head e safe at =
      rw (run_locked, e)
        (moved-IsSafe p i c (runs false) p.locks safe at safe.reached
          (loop_step-keeps p.used c (runs false) p.locks i (safe.covered i c at) (inl e))
          (λ j apart. refl))
  locked_step p i c finished e safe at =
      rw (run_locked, e)
        (moved-IsSafe p i c (runs false) p.locks safe at safe.reached
          (loop_step-keeps p.used c (runs false) p.locks i (safe.covered i c at) (inr (inl e)))
          (λ j apart. refl))
  locked_step p i c locking e safe at =
      let (locks, held) = k.try p.locks i in
      rw (run_locked, e)
        (moved-IsSafe p i c (runs held) locks safe at (x.try_reached p.locks i safe.reached)
          (
            loop_step-IsSound limit p.used c (runs held) (safe.covered i c at).0,
            λ u l. x.try_acquires p.locks i (tried p.used c held e l),
          )
          (λ j apart. x.try_other p.locks i j apart))
  locked_step p i c connecting e safe at =
      let (reached, others) =
        released p i (c.uses_lock && k.lock_acquired p.locks i) safe.reached in
      rw (run_locked, e)
        (moved-IsSafe p i c (runs false) _ safe at reached
          (
            loop_step-IsSound limit p.used c (runs false) (safe.covered i c at).0,
            λ u l. absurd (forgotten p.used c e l),
          )
          others)

  event-IsSafe : (p : Process S) (e : Event) → IsSafe p → IsSafe (process_step k limit p e)
  unfolding process_step
  event-IsSafe p (goes i) safe = elim (Option-cases (loop_at p.loops i)) [
    | inl e ↦ rw (process_step, e) safe
    | inr (c, e) ↦ rw (process_step, e) (locked_step p i c c.place refl safe e)
  ]
  event-IsSafe p (told_to_stop i) safe = elim (Option-cases (loop_at p.loops i)) [
    | inl e ↦ rw (step_at-none limit p.used p.loops i stops e) safe
    | inr (c, e) ↦
        moved-IsSafe p i c stops p.locks safe e safe.reached
          (loop_step-keeps p.used c stops p.locks i (safe.covered i c e) (inr (inr refl)))
          (λ j apart. refl)
  ]

  run-IsSafe : (p : Process S) (es : List Event) → IsSafe p → IsSafe (run_process k limit p es)
  unfolding run_process
  run-IsSafe p [] safe = safe
  run-IsSafe p (e ∷ es) safe = run-IsSafe (process_step k limit p e) es (event-IsSafe p e safe)

  connected-same :
      (p : Process S) (i j : ℕ) (c d : Loop)
      → IsSafe p
      → loop_at p.loops i ≡ some c
      → loop_at p.loops j ≡ some d
      → IsConnected c
      → IsConnected d
      → id i j
      → i ≡ j
  connected-same p i j c d safe at_i at_j on_c on_d same =
      let (sound_c, held_c) = safe.covered i c at_i in
      let (sound_d, held_d) = safe.covered j d at_j in
      x.excludes p.locks i j safe.reached
        (held_c on_c.1 (sound_c.has_lock (connected on_c.0) on_c.1))
        (held_d on_d.1 (sound_d.has_lock (connected on_d.0) on_d.1)) same

  -- From loops that are sound and believe in no lock that they do not hold: whatever the loops do,
  -- whichever are told to stop and however their steps interleave, two different loops that use locks
  -- for one id are never in doConnect at the same time, if the locks exclude each other.
  pub run_process-exclusive :
      (p : Process S) (es : List Event) (i j : ℕ) (c d : Loop)
      → IsSafe p
      → id i j
      → i ≢ j
      → loop_at (run_process k limit p es).loops i ≡ some c
      → loop_at (run_process k limit p es).loops j ≡ some d
      → ¬ (IsConnected c × IsConnected d)
  run_process-exclusive p es i j c d safe same apart at_i at_j (on_c, on_d) = apart (
      connected-same (run_process k limit p es) i j c d (run-IsSafe p es safe) at_i at_j on_c on_d
        same)
