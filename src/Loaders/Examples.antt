-- ===== src/Loaders/Examples.antt =====
-- The theorems about the loaders at concrete inputs.
use gnmi_gateway.Prelude.{
  map, pos, Bool, true, false, Option, none, some, List, [], ◌∷◌, ◌++◌, Text, Map, lookup, has,
  if◌then◌else◌, ◌≡◌, refl, any, all, ◌==◌, codes, is_some,
}
use gnmi_gateway.Proto.{Target, Configuration, GnmiPath, empty_path, Mode}
use gnmi_gateway.Connections.State.{ConnectionState}
use gnmi_gateway.Connections.Manager.{Settings, new_connection}
use gnmi_gateway.Clustering.{Event, adds, removes, Answer, children, missing, errs, watch_run}
use gnmi_gateway.Loaders.Reload.{reloads, HasFollowed, reloads-Follows}
use gnmi_gateway.Loaders.Simple.{TargetConfig, yaml_to_targets}
use gnmi_gateway.Loaders.Simple.Parse.{yaml_to_targets-lookup, Converts}
use gnmi_gateway.Loaders.Netbox.{NetboxConfig, Device, add_devices, device_target}
use gnmi_gateway.Loaders.Netbox.Devices.{add_devices_lem, target_at}
use gnmi_gateway.Loaders.Cluster.{all_request, member_target, member_meta}
use gnmi_gateway.Loaders.Cluster.Follow.{told, IsLatest, told-latest}
use gnmi_gateway.Clustering.Members.{latest}

abbrev settings : Settings
settings = record {
  zookeeper_prefix = codes "/gateway/";
  server_address = codes "10.0.0.1";
  server_port = pos 9339;
  zk_conn = true;
}

abbrev router : Text → Target
router address = record {
  addresses = address ∷ [];
  credentials = none;
  request = codes "all";
  meta = [];
}

abbrev routers : Map Target → Option Configuration
routers targets = some (record { request = []; target = targets })

-- The first file has r1 and r2, the second cannot be read, and the third has r2 and r3; by then both
-- clients are there.
abbrev files : List (List Text × Option Configuration)
files =
    (
      [],
      routers (
          (codes "r1", router (codes "10.1.0.1:57400"))
          ∷ (codes "r2", router (codes "10.1.0.2:57400"))
          ∷ []),
    )
    ∷ ([], none)
    ∷ (
      codes "r2" ∷ codes "r1" ∷ [],
      routers (
          (codes "r2", router (codes "10.1.0.9:57400"))
          ∷ (codes "r3", router (codes "10.1.0.3:57400"))
          ∷ []),
    )
    ∷ []

reloads-Follows_example : HasFollowed none files (reloads settings [] none files)
unfolding lookup ◌==◌
reloads-Follows_example =
    reloads-Follows settings files ((refl, (refl, tt)), (tt, ((refl, (refl, tt)), tt)))

files-followed : is_some (reloads settings [] none files) ≡ true
unfolding lookup ◌==◌ any gnmi_gateway.Connections.Manager.handle_target_control_msg
    gnmi_gateway.Connections.Manager.remove_targets gnmi_gateway.Connections.Manager.insert_targets
    gnmi_gateway.Connections.Manager.insert_target gnmi_gateway.Connections.Manager.make_clients
    gnmi_gateway.Connections.Manager.new_connection gnmi_gateway.Prelude.insert
    gnmi_gateway.Prelude.erase gnmi_gateway.Prelude.keep gnmi_gateway.Connections.State.equal
    gnmi_gateway.Loaders.watch_round gnmi_gateway.Loaders.removed_names
files-followed = refl

-- Without the clients the third file makes the manager panic.
files-panic : is_some (reloads settings [] none (map (λ round. ([], round.1)) files)) ≡ false
unfolding lookup ◌==◌ any gnmi_gateway.Connections.Manager.handle_target_control_msg
    gnmi_gateway.Connections.Manager.remove_targets gnmi_gateway.Connections.Manager.insert_targets
    gnmi_gateway.Connections.Manager.insert_target gnmi_gateway.Connections.Manager.make_clients
    gnmi_gateway.Connections.Manager.new_connection gnmi_gateway.Prelude.insert
    gnmi_gateway.Prelude.erase gnmi_gateway.Prelude.keep gnmi_gateway.Connections.State.equal
    gnmi_gateway.Loaders.watch_round gnmi_gateway.Loaders.removed_names
files-panic = refl

abbrev answers : List Answer
answers = children (codes "a" ∷ codes "b" ∷ []) ∷ errs ∷ children (codes "a" ∷ codes "c" ∷ []) ∷ []

-- The client of b is there when b is removed.
abbrev events : List (List Text × Event)
events =
    ([], adds (codes "b")) ∷ ([], adds (codes "c")) ∷ (codes "b" ∷ [], removes (codes "b")) ∷ []

told-latest_example : IsLatest (codes "c") (latest [] answers) events (told settings [] events)
unfolding watch_run any ◌==◌ gnmi_gateway.Clustering.watch_step gnmi_gateway.Clustering.watch_round
    gnmi_gateway.Prelude.keep gnmi_gateway.Clustering.member_id_in_slice
told-latest_example =
    told-latest settings (codes "a") (codes "c") answers
      (record { previous = codes "c" ∷ []; errors = 0 }) events refl refl refl

members-told : is_some (told settings [] events) ≡ true
unfolding lookup ◌==◌ any gnmi_gateway.Connections.Manager.handle_target_control_msg
    gnmi_gateway.Connections.Manager.remove_targets gnmi_gateway.Connections.Manager.insert_targets
    gnmi_gateway.Connections.Manager.insert_target gnmi_gateway.Connections.Manager.make_clients
    gnmi_gateway.Connections.Manager.new_connection gnmi_gateway.Prelude.insert
    gnmi_gateway.Prelude.erase gnmi_gateway.Prelude.keep gnmi_gateway.Connections.State.equal
    gnmi_gateway.Loaders.Cluster.callback
members-told = refl

-- A parser that knows one path.
abbrev one_path : Text → Option GnmiPath
one_path x = if x == codes "/interfaces" then some empty_path else none

abbrev simple_config : TargetConfig
simple_config = record {
  connection =
      (
        codes "r1",
        record {
          addresses = codes "10.1.0.1:57400" ∷ [];
          request = codes "all";
          meta = [];
          credentials = record { username = codes "admin"; password = codes "secret" };
        },
      )
      ∷ [];
  request =
      (
        codes "all",
        record {
          target = codes "*";
          paths = codes "openconfig:/interfaces" ∷ codes "/interfaces" ∷ [];
        },
      )
      ∷ [];
}

abbrev simple_file : Text → Option TargetConfig
simple_file _ = some simple_config

abbrev simple_out : Configuration
simple_out = record {
  request =
      (
        codes "all",
        record {
          subscribe = some (record {
            prefix = some (record empty_path { target = codes "*" });
            subscription =
                some (record empty_path { origin = codes "openconfig" }) ∷ some empty_path ∷ [];
            mode = Mode.stream;
            updates_only = false;
          });
        },
      )
      ∷ [];
  target =
      (
        codes "r1",
        record {
          addresses = codes "10.1.0.1:57400" ∷ [];
          request = codes "all";
          meta = [];
          credentials = some (record { username = codes "admin"; password = codes "secret" });
        },
      )
      ∷ [];
}

yaml_to_targets-lookup_example : Converts one_path simple_config simple_out (codes "r1")
unfolding yaml_to_targets lookup gnmi_gateway.Loaders.Simple.add_requests
    gnmi_gateway.Loaders.Simple.parse_paths gnmi_gateway.Loaders.Simple.parse_path ◌==◌
    gnmi_gateway.Loaders.Simple.origin_and_path gnmi_gateway.Prelude.split
    gnmi_gateway.Prelude.insert gnmi_gateway.Loaders.Simple.add_targets
    gnmi_gateway.Loaders.Simple.make_request gnmi_gateway.Loaders.Simple.make_target
yaml_to_targets-lookup_example =
    yaml_to_targets-lookup simple_file one_path [] simple_config simple_out (codes "r1") refl
      (refl, tt) (refl, tt) refl

abbrev netbox_config : NetboxConfig
netbox_config = record {
  subscribe_paths = [];
  gnmi_port = pos 9339;
  credentials = record { username = codes "admin"; password = codes "secret" };
}

-- Two devices of one name, and one without an address.
abbrev devices : List Device
devices =
    record { primary_ip = some (some (codes "10.0.0.1/24")); name = some (codes "r1") }
    ∷ record { primary_ip = some none; name = some (codes "r2") }
    ∷ record { primary_ip = some (some (codes "10.0.0.7/24")); name = some (codes "r1") }
    ∷ []

abbrev parse_cidr : Text → Option Text
parse_cidr x = if x == codes "10.0.0.1/24" then some (codes "10.0.0.1") else some (codes "10.0.0.7")

abbrev netbox_targets : Map Target
netbox_targets = (codes "r1", device_target netbox_config (codes "10.0.0.7")) ∷ []

add_devices_lem_example :
    lookup netbox_targets (codes "r1") ≡ some (target_at netbox_config (codes "10.0.0.7"))
unfolding add_devices gnmi_gateway.Loaders.Netbox.read_device ◌==◌ gnmi_gateway.Prelude.insert
add_devices_lem_example =
    (add_devices_lem netbox_config parse_cidr devices (codes "r1")).1 netbox_targets refl
