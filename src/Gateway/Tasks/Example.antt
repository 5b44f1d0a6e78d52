-- ===== src/Gateway/Tasks/Example.antt =====
-- Two exporters of which one fails to start, and a server without a certificate.
use gnmi_gateway.Prelude.{
  ◌+◌, pos, true, false, none, List, [], ◌∷◌, ◌++◌, Text, ◌==◌, codes, is_some, ◌≡◌, refl,
}
use gnmi_gateway.Gateway.Serving.{ServerConfig, Network}
use gnmi_gateway.Gateway.Tasks.{
  Task, starts_server, starts_exporter, adds_exporter, reports, exporter_fails, Shared, Event,
  goes_on, receives, run_tasks,
}
use gnmi_gateway.Gateway.Tasks.Exporters.{external_clients, all_pending, run_tasks-pending}
use gnmi_gateway.Gateway.Tasks.First.{run_tasks-received}

abbrev network : Network Text
network = record { creds_from_file = λ cert key. none; listens = λ address. true }

abbrev config : ServerConfig Text
config = record { tls_creds = none; tls_cert = []; tls_key = []; listen_port = pos 9339 }

abbrev shared : Shared
shared = record { clients = []; finished = none; received = none }

abbrev kafka : Task
kafka = starts_exporter (codes "kafka")

abbrev tasks : List Task
tasks = starts_server ∷ kafka ∷ starts_exporter (codes "influxdb") ∷ []

-- Kafka fails to start, and is a client all the same; the server fails, too.
abbrev events : List Event
events = goes_on 0 false ∷ goes_on 1 true ∷ goes_on 1 true ∷ goes_on 1 false ∷ goes_on 0 false ∷ []

run_tasks-pending_example :
    let r = run_tasks network (pos 0) config shared tasks events in
    all_pending (codes "kafka") r.1 + external_clients (codes "kafka") r.0.clients ≡ 1
unfolding ◌==◌
run_tasks-pending_example =
    run_tasks-pending network (pos 0) config (codes "kafka") shared tasks events

run_tasks-received_example :
    is_some
      (run_tasks network
        (pos 0)
        config
        shared
        (reports (exporter_fails (codes "kafka")) (adds_exporter (codes "kafka")) ∷ tasks)
        (events ++ goes_on 0 true ∷ receives ∷ [])).0.received
    ≡ true
run_tasks-received_example =
    run_tasks-received network (pos 0) config shared
      (reports (exporter_fails (codes "kafka")) (adds_exporter (codes "kafka")) ∷ tasks) 0
      (exporter_fails (codes "kafka")) (adds_exporter (codes "kafka")) events true refl
