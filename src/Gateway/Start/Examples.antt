-- ===== src/Gateway/Start/Examples.antt =====
-- A member of a cluster that finds its address by itself.
use gnmi_gateway.Prelude.{
  Bool, true, false, pos, some, none, List, [], ◌∷◌, ◌++◌, Text, All, codes, ◌==◌, ◌⊎◌, inl, inr,
  arith, ◌≤◌, refl,
}
use gnmi_gateway.Gateway.Start.{
  Config, Address, World, StartOpts, Effect, zookeeper, connection_manager, gnmi_server,
  registration, loader, exporter, LocalIp, local_ip, ip_error, no_local_ips, get_local_ip,
  start_gateway,
}
use gnmi_gateway.Gateway.Start.Plan.{Follows, start_gateway-Follows}

abbrev loopback : Address
loopback = record {
  is_ip_net = true;
  is_loopback = true;
  has_bytes = true;
  text = codes "127.0.0.1";
}

abbrev second_card : Address
second_card = record {
  is_ip_net = true;
  is_loopback = false;
  has_bytes = true;
  text = codes "10.0.0.2";
}

abbrev first_card : Address
first_card = record {
  is_ip_net = true;
  is_loopback = false;
  has_bytes = true;
  text = codes "10.0.0.1";
}

abbrev world : World
world = record {
  spectator_starts = true;
  addresses = some (loopback ∷ second_card ∷ first_card ∷ []);
  zookeeper_connects = true;
  manager_is_made = true;
  manager_starts = true;
  is_loader = λ name. name == codes "simple";
  is_exporter = λ name. name == codes "kafka";
}

abbrev config : Config
config = record {
  wants_spectator = false;
  zookeeper_hosts = codes "zk" ∷ [];
  enable_gnmi_server = true;
  server_address = [];
  server_port = pos 0;
  server_listen_address = codes "0.0.0.0";
  server_listen_port = pos 9339;
  loaders = codes "simple" ∷ [];
  exporters = codes "kafka" ∷ [];
}

abbrev no_opts : StartOpts
no_opts = record { loaders = []; exporters = [] }

start_gateway-Follows_example :
    Follows
      (zookeeper
        ∷ connection_manager
        ∷ gnmi_server
        ∷ registration (codes "10.0.0.1:9339")
        ∷ loader (codes "cluster")
        ∷ loader (codes "simple")
        ∷ exporter (codes "kafka")
        ∷ [])
      (start_gateway world config no_opts)
unfolding gnmi_gateway.Gateway.Start.server_address ◌==◌ get_local_ip
    gnmi_gateway.Prelude.sort_texts gnmi_gateway.Gateway.Start.valid_ips
    gnmi_gateway.Prelude.insert_text gnmi_gateway.Prelude.text_leb
    gnmi_gateway.Gateway.Start.cluster_member gnmi_gateway.Prelude.itoa
start_gateway-Follows_example = start_gateway-Follows world config no_opts

abbrev cards : List Address
cards = loopback ∷ second_card ∷ first_card ∷ []
