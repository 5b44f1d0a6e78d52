-- ===== src/Gateway/Tasks/Exporters.antt =====
-- The exporters as clients.
use gnmi_gateway.Prelude.{
  ℕ, zero, suc, ◌+◌, Bool, true, false, ◌&&◌, List, [], ◌∷◌, Text, ℤ, codes, ◌==◌, if◌then◌else◌,
  arith, ◌≡◌, refl, ◌∙◌,
}
use gnmi_gateway.Gateway.{CacheClient}
use gnmi_gateway.Gateway.Serving.{
  ServerConfig, Network, Serving, stops, serves, add_client, start_gnmi_server, serve_with,
  new_server,
}
use gnmi_gateway.Gateway.Tasks.{
  Task, starts_server, registers, ends, starts_loader, watches, starts_exporter, adds_exporter,
  reports, Shared, Event, goes_on, receives, after_call, after_server, receive, task_step,
  step_task, event_step, run_tasks,
}

-- The external clients of a name.
abbrev pub external_clients : Text → List CacheClient → ℕ
external_clients name [] = 0
external_clients name (c ∷ clients) =
    (if c.external && c.name == name then 1 else 0) + external_clients name clients

-- The exporters of a name that are not clients yet.
abbrev pub pending : Text → Task → ℕ
pending name starts_server = 0
pending name registers = 0
pending name ends = 0
pending name (starts_loader _) = 0
pending name (watches _) = 0
pending name (starts_exporter n) = if n == name then 1 else 0
pending name (adds_exporter n) = if n == name then 1 else 0
pending name (reports e next) = pending name next

abbrev pub all_pending : Text → List Task → ℕ
all_pending name [] = 0
all_pending name (t ∷ ts) = pending name t + all_pending name ts

external_clients-add :
    (name : Text) (clients : List CacheClient) (n : Text) (external : Bool)
    → external_clients name (add_client clients n external)
      ≡ external_clients name clients + (if external && n == name then 1 else 0)
unfolding add_client
external_clients-add name [] n external = ground arith
external_clients-add name (c ∷ clients) n external =
    ground (arith, external_clients-add name clients n external)

after_server-pending : (name : Text) (result : Serving) → pending name (after_server result) ≡ 0
unfolding after_server
after_server-pending name (stops e) = refl
after_server-pending name (serves server) = refl

module _ {C : Type 0} (w : Network C) (subscription_limit : ℤ) (c : ServerConfig C) where
  start_gnmi_server-external :
      (name : Text) (clients : List CacheClient)
      → external_clients name (start_gnmi_server w subscription_limit c clients).1
        ≡ external_clients name clients
  unfolding start_gnmi_server serve_with new_server
  start_gnmi_server-external name clients =
      ground (arith, external_clients-add name clients (codes "gnmi_server") false)

  task_step-pending :
      (name : Text) (s : Shared) (t : Task) (fails : Bool)
      → let r = task_step w subscription_limit c s t fails in
        pending name r.1 + external_clients name r.0.clients
        ≡ pending name t + external_clients name s.clients
  unfolding task_step after_call after_server
  task_step-pending name s starts_server fails =
      let r = start_gnmi_server w subscription_limit c s.clients in
      ground (arith, after_server-pending name r.2, start_gnmi_server-external name s.clients)
  task_step-pending name s registers fails = ground arith
  task_step-pending name s ends fails = refl
  task_step-pending name s (starts_loader n) fails = ground arith
  task_step-pending name s (watches n) fails = ground arith
  task_step-pending name s (starts_exporter n) fails = ground arith
  task_step-pending name s (adds_exporter n) fails =
      ground (arith, external_clients-add name s.clients n true)
  task_step-pending name s (reports e next) fails = ground arith

  step_task-pending :
      (name : Text) (s : Shared) (ts : List Task) (i : ℕ) (fails : Bool)
      → let r = step_task w subscription_limit c s ts i fails in
        all_pending name r.1 + external_clients name r.0.clients
        ≡ all_pending name ts + external_clients name s.clients
  unfolding step_task
  step_task-pending name s [] i fails = refl
  step_task-pending name s (t ∷ ts) zero fails = ground (arith, task_step-pending name s t fails)
  step_task-pending name s (t ∷ ts) (suc i) fails =
      ground (arith, step_task-pending name s ts i fails)

  event_step-pending :
      (name : Text) (s : Shared) (ts : List Task) (e : Event)
      → let r = event_step w subscription_limit c s ts e in
        all_pending name r.1 + external_clients name r.0.clients
        ≡ all_pending name ts + external_clients name s.clients
  unfolding event_step receive
  event_step-pending name s ts (goes_on i fails) = step_task-pending name s ts i fails
  event_step-pending name s ts receives = ground arith

  -- However the goroutines interleave and whichever of their calls fail: the external clients of a name and
  -- the exporters of that name that are still to become clients are as many as at the start.
  pub run_tasks-pending :
      (name : Text) (s : Shared) (ts : List Task) (es : List Event)
      → let r = run_tasks w subscription_limit c s ts es in
        all_pending name r.1 + external_clients name r.0.clients
        ≡ all_pending name ts + external_clients name s.clients
  unfolding run_tasks
  run_tasks-pending name s ts [] = refl
  run_tasks-pending name s ts (e ∷ es) =
      let r = event_step w subscription_limit c s ts e in
      run_tasks-pending name r.0 r.1 es ∙ event_step-pending name s ts e
