-- ===== src/Gateway/Tasks.antt =====
-- gateway/gateway.go: `StartGateway` while it waits for the first error of its goroutines. Each of them calls
-- what it is for, sends an error to `finished`, which has room for one, and goes on. Which goroutine goes on
-- next, and what its call returns, is a list of steps.
pub mod Exporters
pub mod First
mod Example
use gnmi_gateway.Prelude.{
  ℕ, zero, suc, Bool, true, false, Option, none, some, List, [], ◌∷◌, Text, ℤ,
}
use gnmi_gateway.Gateway.{CacheClient}
use gnmi_gateway.Gateway.Serving.{
  ServerConfig, Network, ServingError, Serving, stops, serves, add_client, start_gnmi_server,
}

pub data TaskError : Type 0 where
  server_fails : ServingError → TaskError
  registration_fails : TaskError
  loader_fails watch_fails exporter_fails : Text → TaskError

-- Where a goroutine is; `reports` waits to send its error, and goes on with the task behind it.
pub data Task : Type 0 where
  starts_server registers ends : Task
  starts_loader watches starts_exporter adds_exporter : Text → Task
  reports : TaskError → Task → Task

-- What the goroutines share: the clients, the channel `finished`, and what `StartGateway` received.
pub record Shared : Type 0 where
  pub clients : List CacheClient
  pub finished : Option TaskError
  pub received : Option TaskError

-- The goroutine with this number goes on, its call failing or not, or `StartGateway` receives.
pub data Event : Type 0 where
  goes_on : ℕ → Bool → Event
  receives : Event

-- A task that goes on after a call, its error first.
unfoldable pub after_call : Bool → TaskError → Task → Task
after_call true e next = reports e next
after_call false e next = next

unfoldable pub after_server : Serving → Task
after_server (stops e) = reports (server_fails e) ends
after_server (serves _) = ends

-- `err = <-finished`, which `StartGateway` does once.
unfoldable pub receive : Shared → Shared
receive s = elim s.received [
  | some _ ↦ s
  | none ↦ record s { finished = none; received = s.finished }
]

module _ {C : Type 0} (w : Network C) (subscription_limit : ℤ) (c : ServerConfig C) where
  -- The goroutines of the server, of the registration, of a loader and of an exporter.
  unfoldable pub task_step : Shared → Task → Bool → Shared × Task
  task_step s starts_server fails =
      let (_, clients, result) = start_gnmi_server w subscription_limit c s.clients in
      (record s { clients = clients }, after_server result)
  task_step s registers fails = (s, after_call fails registration_fails ends)
  task_step s ends fails = (s, ends)
  task_step s (starts_loader name) fails = (s, after_call fails (loader_fails name) (watches name))
  task_step s (watches name) fails = (s, after_call fails (watch_fails name) ends)
  task_step s (starts_exporter name) fails =
      (s, after_call fails (exporter_fails name) (adds_exporter name))
  task_step s (adds_exporter name) fails =
      (record s { clients = add_client s.clients name true }, ends)
  task_step s (reports e next) fails = elim s.finished [
    | some _ ↦ (s, reports e next)
    | none ↦ (record s { finished = some e }, next)
  ]

  unfoldable pub step_task : Shared → List Task → ℕ → Bool → Shared × List Task
  step_task s [] i fails = (s, [])
  step_task s (t ∷ ts) zero fails = let (s', t') = task_step s t fails in (s', t' ∷ ts)
  step_task s (t ∷ ts) (suc i) fails = let (s', ts') = step_task s ts i fails in (s', t ∷ ts')

  unfoldable pub event_step : Shared → List Task → Event → Shared × List Task
  event_step s ts (goes_on i fails) = step_task s ts i fails
  event_step s ts receives = (receive s, ts)

  unfoldable pub run_tasks : Shared → List Task → List Event → Shared × List Task
  run_tasks s ts [] = (s, ts)
  run_tasks s ts (e ∷ es) = let (s', ts') = event_step s ts e in run_tasks s' ts' es
