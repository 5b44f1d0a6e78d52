-- ===== src/Gateway/Serving/Example.antt =====
-- `StartGNMIServer` with its certificate in files.
use gnmi_gateway.Prelude.{
  pos, true, false, none, some, List, [], ◌∷◌, ◌++◌, Text, ◌==◌, codes, itoa, ◌≡◌,
}
use gnmi_gateway.Proto.{Notification}
use gnmi_gateway.Gateway.{CacheClient, send_update_to_clients}
use gnmi_gateway.Gateway.Serving.{ServerConfig, Network, start_gnmi_server}
use gnmi_gateway.Gateway.Serving.Joining.{is_serving, recipients, start_gnmi_server-joins}

abbrev network : Network Text
network = record {
  creds_from_file = λ cert key. some (cert ++ key);
  listens = λ address. address == codes ":9339";
}

abbrev config : ServerConfig Text
config = record {
  tls_creds = none;
  tls_cert = codes "c";
  tls_key = codes "k";
  listen_port = pos 9339;
}

abbrev notification : Notification
notification = record {
  timestamp = pos 7;
  prefix = some (record { origin = []; target = codes "r1"; elem = [] });
  alias = [];
  update = [];
  delete = [];
  atomic = false;
}

abbrev clients : List CacheClient
clients = record { name = codes "kafka"; external = true } ∷ []

start_gnmi_server-joins_example :
    (is_serving (start_gnmi_server network (pos 0) config clients).2 ≡ true)
    × (recipients (λ t. false) (start_gnmi_server network (pos 0) config clients).1 notification
        ≡ codes "gnmi_server" ∷ [])
unfolding send_update_to_clients ◌==◌ itoa
start_gnmi_server-joins_example =
    start_gnmi_server-joins network (pos 0) config clients (λ t. false) notification
