-- ===== src/Loaders/Netbox.antt =====
-- gateway/loaders/netbox/netbox.go: the devices of a NetBox as targets. What NetBox answers,
-- `xpath.ToGNMIPath`, `net.ParseCIDR` (with the text of the address) and `target.Validate` are
-- arguments. The fields of a device are pointers, and a nil one that is read is a panic.
pub mod Devices
use gnmi_gateway.Prelude.{
  ℤ, Bool, false, Option, none, some, List, [], ◌∷◌, ◌++◌, Text, Map, insert, ◌==◌, codes, itoa,
  if◌then◌else◌,
}
use gnmi_gateway.Proto.{
  Target, SubscribeRequest, Configuration, SubscriptionList, GnmiPath, Mode, stream, empty_path,
  Credentials,
}

-- `PrimaryIP`, its `Address`, and `Name`.
pub record Device : Type 0 where
  pub primary_ip : Option (Option Text)
  pub name : Option Text

pub record NetboxConfig : Type 0 where
  pub subscribe_paths : List Text
  pub gnmi_port : ℤ
  pub credentials : Credentials

-- What `GetConfiguration` ends with.
pub data Loaded : Type 0 where
  loads : Configuration → Loaded
  errs panics : Loaded

-- The loop over `NetBoxSubscribePaths`; `none` is an error.
unfoldable pub subscriptions :
    (Text → Option GnmiPath) → List Text → Option (List (Option GnmiPath))
subscriptions to_path [] = some []
subscriptions to_path (x ∷ xs) = elim (to_path x) [
  | none ↦ none
  | some path ↦ elim (subscriptions to_path xs) [
    | none ↦ none
    | some paths ↦ some (some path ∷ paths)
  ]
]

unfoldable pub device_target : NetboxConfig → Text → Target
device_target config ip = record {
  addresses = (ip ++ codes ":" ++ itoa config.gnmi_port) ∷ [];
  credentials = some config.credentials;
  request = codes "default";
  meta = [];
}

-- One device: `none` is a panic, `some none` a device that is passed over, and otherwise its name and
-- its IP address.
unfoldable pub read_device : (Text → Option Text) → Device → Option (Option (Text × Text))
read_device parse_cidr d = elim d.primary_ip [
  | none ↦ none
  | some none ↦ some none
  | some (some address) ↦ if address == [] then some none else elim (parse_cidr address) [
    | none ↦ some none
    | some ip ↦ elim d.name [ none ↦ none | some name ↦ some (some (name, ip)) ]
  ]
]

-- The loop over `payload.Results`; `none` is a panic.
unfoldable pub add_devices :
    NetboxConfig → (Text → Option Text) → Map Target → List Device → Option (Map Target)
add_devices config parse_cidr targets [] = some targets
add_devices config parse_cidr targets (d ∷ devices) = elim (read_device parse_cidr d) [
  | none ↦ none
  | some none ↦ add_devices config parse_cidr targets devices
  | some (some (name, ip)) ↦
      add_devices config parse_cidr (insert targets name (device_target config ip)) devices
]

unfoldable pub default_request : List (Option GnmiPath) → SubscribeRequest
default_request subs = record {
  subscribe = some (record {
    prefix = some empty_path;
    subscription = subs;
    mode = stream;
    updates_only = false;
  });
}

-- `GetConfiguration`. Of the answer, `none` is an error, and `some none` one without a payload.
unfoldable pub get_configuration :
    NetboxConfig
    → (Text → Option GnmiPath)
    → (Text → Option Text)
    → (Configuration → Bool)
    → Option (Option (List Device))
    → Loaded
get_configuration config to_path parse_cidr validate none = errs
get_configuration config to_path parse_cidr validate (some payload) =
    elim (subscriptions to_path config.subscribe_paths) [
      | none ↦ errs
      | some subs ↦
          let devices : List Device = elim payload [ none ↦ [] | some ds ↦ ds ] in
          elim (add_devices config parse_cidr [] devices) [
            | none ↦ panics
            | some targets ↦
                let configs : Configuration = record {
                  request = (codes "default", default_request subs) ∷ [];
                  target = targets;
                } in
                if validate configs then loads configs else errs
          ]
    ]
