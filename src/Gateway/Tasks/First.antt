-- ===== src/Gateway/Tasks/First.antt =====
-- The first error ends `StartGateway`.
use gnmi_gateway.Prelude.{
  ℕ, zero, suc, Bool, true, ◌||◌, Option, none, some, List, [], ◌∷◌, ◌++◌, ℤ, arith, ◌≡◌, ◌⊎◌, inl,
  inr, is_some, subst, sym,
}
use gnmi_gateway.Gateway.Serving.{ServerConfig, Network}
use gnmi_gateway.Gateway.Tasks.{
  Task, TaskError, starts_server, registers, ends, starts_loader, watches, starts_exporter,
  adds_exporter, reports, Shared, Event, goes_on, receives, receive, task_step, step_task,
  event_step, run_tasks,
}

abbrev pub task_at : List Task → ℕ → Option Task
task_at [] i = none
task_at (t ∷ ts) zero = some t
task_at (t ∷ ts) (suc i) = task_at ts i

-- An error was sent.
abbrev has_error : Shared → Bool
has_error s = is_some s.finished || is_some s.received

receive-received : (s : Shared) → has_error s ≡ true → is_some (receive s).received ≡ true
unfolding receive
receive-received s h = ground arith

receive-has_error : (s : Shared) → has_error s ≡ true → has_error (receive s) ≡ true
unfolding receive
receive-has_error s h = ground arith

module _ {C : Type 0} (w : Network C) (subscription_limit : ℤ) (c : ServerConfig C) where
  task_step-has_error :
      (s : Shared) (t : Task) (fails : Bool)
      → has_error s ≡ true
      → has_error (task_step w subscription_limit c s t fails).0 ≡ true
  unfolding task_step
  task_step-has_error s starts_server fails h = h
  task_step-has_error s registers fails h = h
  task_step-has_error s ends fails h = h
  task_step-has_error s (starts_loader n) fails h = h
  task_step-has_error s (watches n) fails h = h
  task_step-has_error s (starts_exporter n) fails h = h
  task_step-has_error s (adds_exporter n) fails h = h
  task_step-has_error s (reports e next) fails h = ground arith

  task_step-reports :
      (s : Shared) (e : TaskError) (next : Task) (fails : Bool)
      → has_error (task_step w subscription_limit c s (reports e next) fails).0 ≡ true
  unfolding task_step
  task_step-reports s e next fails = ground arith

  step_task-has_error :
      (s : Shared) (ts : List Task) (i : ℕ) (fails : Bool)
      → has_error s ≡ true
      → has_error (step_task w subscription_limit c s ts i fails).0 ≡ true
  unfolding step_task
  step_task-has_error s [] i fails h = h
  step_task-has_error s (t ∷ ts) zero fails h = task_step-has_error s t fails h
  step_task-has_error s (t ∷ ts) (suc i) fails h = step_task-has_error s ts i fails h

  step_task-sends :
      (s : Shared) (ts : List Task) (i : ℕ) (e : TaskError) (next : Task) (fails : Bool)
      → task_at ts i ≡ some (reports e next)
      → has_error (step_task w subscription_limit c s ts i fails).0 ≡ true
  unfolding step_task
  step_task-sends s [] i e next fails at = ground arith
  step_task-sends s (t ∷ ts) zero e next fails at =
      subst
        (λ o.
          elim o [ none ↦ true | some u ↦ has_error (task_step w subscription_limit c s u fails).0 ]
          ≡ true)
        (sym at) (task_step-reports s e next fails)
  step_task-sends s (t ∷ ts) (suc i) e next fails at = step_task-sends s ts i e next fails at

  -- The goroutine waits to report its error, or an error was sent.
  abbrev IsUnderWay : ℕ → TaskError → Task → Shared × List Task → Type 0
  IsUnderWay i e next (s, ts) = (task_at ts i ≡ some (reports e next)) ⊎ (has_error s ≡ true)

  step_task-IsUnderWay :
      (s : Shared) (ts : List Task) (i j : ℕ) (e : TaskError) (next : Task) (fails : Bool)
      → task_at ts i ≡ some (reports e next)
      → IsUnderWay i e next (step_task w subscription_limit c s ts j fails)
  unfolding step_task
  step_task-IsUnderWay s [] i j e next fails at = inl at
  step_task-IsUnderWay s (t ∷ ts) zero zero e next fails at =
      inr (step_task-sends s (t ∷ ts) zero e next fails at)
  step_task-IsUnderWay s (t ∷ ts) zero (suc j) e next fails at = inl at
  step_task-IsUnderWay s (t ∷ ts) (suc i) zero e next fails at = inl at
  step_task-IsUnderWay s (t ∷ ts) (suc i) (suc j) e next fails at =
      step_task-IsUnderWay s ts i j e next fails at

  event_step-IsUnderWay :
      (s : Shared) (ts : List Task) (i : ℕ) (e : TaskError) (next : Task) (step : Event)
      → IsUnderWay i e next (s, ts)
      → IsUnderWay i e next (event_step w subscription_limit c s ts step)
  unfolding event_step
  event_step-IsUnderWay s ts i e next (goes_on j fails) (inl at) =
      step_task-IsUnderWay s ts i j e next fails at
  event_step-IsUnderWay s ts i e next (goes_on j fails) (inr h) =
      inr (step_task-has_error s ts j fails h)
  event_step-IsUnderWay s ts i e next receives (inl at) = inl at
  event_step-IsUnderWay s ts i e next receives (inr h) = inr (receive-has_error s h)

  goes_on-has_error :
      (s : Shared) (ts : List Task) (i : ℕ) (e : TaskError) (next : Task) (fails : Bool)
      → IsUnderWay i e next (s, ts)
      → has_error (step_task w subscription_limit c s ts i fails).0 ≡ true
  goes_on-has_error s ts i e next fails (inl at) = step_task-sends s ts i e next fails at
  goes_on-has_error s ts i e next fails (inr h) = step_task-has_error s ts i fails h

  run_tasks-under_way :
      (s : Shared) (ts : List Task) (i : ℕ) (e : TaskError) (next : Task) (es : List Event)
      (fails : Bool)
      → IsUnderWay i e next (s, ts)
      → is_some
          (run_tasks w subscription_limit c s ts (es ++ goes_on i fails ∷ receives ∷ [])).0.received
        ≡ true
  unfolding run_tasks event_step
  run_tasks-under_way s ts i e next [] fails u =
      receive-received (step_task w subscription_limit c s ts i fails).0
        (goes_on-has_error s ts i e next fails u)
  run_tasks-under_way s ts i e next (step ∷ es) fails u =
      let r = event_step w subscription_limit c s ts step in
      run_tasks-under_way r.0 r.1 i e next es fails (event_step-IsUnderWay s ts i e next step u)

  -- A goroutine that waits to report an error does not wait in vain for StartGateway: whatever happens in between,
  -- once it has gone on and StartGateway has received again, StartGateway has an error to return with.
  pub run_tasks-received :
      (s : Shared) (ts : List Task) (i : ℕ) (e : TaskError) (next : Task) (es : List Event)
      (fails : Bool)
      → task_at ts i ≡ some (reports e next)
      → is_some
          (run_tasks w subscription_limit c s ts (es ++ goes_on i fails ∷ receives ∷ [])).0.received
        ≡ true
  run_tasks-received s ts i e next es fails at = run_tasks-under_way s ts i e next es fails (inl at)
