-- ===== src/Loaders/Netbox/Devices.antt =====
-- Which devices of a NetBox become targets.
use gnmi_gateway.Prelude.{
  ◌&&◌, ◌||◌, not, ◌++◌, codes, itoa, Bool, false, Option, none, some, List, [], ◌∷◌, Text, Map,
  lookup, insert, lookup-insert, all, if◌then◌else◌, arith, ◌≡◌, refl, ◌==◌, is_some, inl, inr,
  Option-cases,
}
use gnmi_gateway.Proto.{Target}
use gnmi_gateway.Loaders.Netbox.{NetboxConfig, Device, read_device, add_devices, device_target}

-- The IP address of a device, if its address is there and parses.
abbrev pub ip_of : (Text → Option Text) → Device → Option Text
ip_of parse_cidr d = elim d.primary_ip [
  | none ↦ none
  | some none ↦ none
  | some (some address) ↦ if address == [] then none else parse_cidr address
]

abbrev pub has_name : Text → Device → Bool
has_name x d = elim d.name [ none ↦ false | some name ↦ name == x ]

-- The IP address of the last device that has one and the name.
abbrev pub last_ip : (Text → Option Text) → Text → List Device → Option Text
last_ip parse_cidr x [] = none
last_ip parse_cidr x (d ∷ devices) = elim (last_ip parse_cidr x devices) [
  | some ip ↦ some ip
  | none ↦ if has_name x d then ip_of parse_cidr d else none
]

-- The device has a primary IP; and it has a name if its address parses.
abbrev pub is_safe : (Text → Option Text) → Device → Bool
is_safe parse_cidr d =
    is_some d.primary_ip && (not (is_some (ip_of parse_cidr d)) || is_some d.name)

-- The target of a device with this IP address.
abbrev pub target_at : NetboxConfig → Text → Target
target_at config ip = record {
  addresses = (ip ++ codes ":" ++ itoa config.gnmi_port) ∷ [];
  credentials = some config.credentials;
  request = codes "default";
  meta = [];
}

-- What a device is read as.
read_device-read :
    (parse_cidr : Text → Option Text) (d : Device)
    → (is_some (read_device parse_cidr d) ≡ is_safe parse_cidr d)
      × ((name ip : Text)
          → read_device parse_cidr d ≡ some (some (name, ip))
          → (d.name ≡ some name) × (ip_of parse_cidr d ≡ some ip))
      × (read_device parse_cidr d ≡ some none → ip_of parse_cidr d ≡ none)
unfolding read_device
read_device-read parse_cidr d =
    (ground arith, (λ name ip e. (ground arith, ground arith)), (λ e. ground arith))

-- The loop over the devices ends exactly if no device makes it panic.
add_devices-is_some :
    (config : NetboxConfig) (parse_cidr : Text → Option Text) (targets : Map Target)
    (devices : List Device)
    → is_some (add_devices config parse_cidr targets devices) ≡ all (is_safe parse_cidr) devices
unfolding add_devices all
add_devices-is_some config parse_cidr targets [] = refl
add_devices-is_some config parse_cidr targets (d ∷ devices) =
    elim (Option-cases (read_device parse_cidr d)) [
      | inl e ↦ ground (arith, e, (read_device-read parse_cidr d).0)
      | inr (none, e) ↦ ground (
        arith,
        e,
        (read_device-read parse_cidr d).0,
        add_devices-is_some config parse_cidr targets devices,
      )
      | inr (some (name, ip), e) ↦ ground (
        arith,
        e,
        (read_device-read parse_cidr d).0,
        add_devices-is_some config parse_cidr (insert targets name (device_target config ip))
            devices,
      )
    ]

add_devices-lookup :
    (config : NetboxConfig) (parse_cidr : Text → Option Text) (targets out : Map Target)
    (devices : List Device) (x : Text)
    → add_devices config parse_cidr targets devices ≡ some out
    → lookup out x ≡ elim (last_ip parse_cidr x devices) [
      | none ↦ lookup targets x
      | some ip ↦ some (device_target config ip)
    ]
unfolding add_devices
add_devices-lookup config parse_cidr targets out [] x e = ground arith
add_devices-lookup config parse_cidr targets out (d ∷ devices) x e =
    elim (Option-cases (read_device parse_cidr d)) [
      | inl r ↦ ground (arith, r)
      | inr (none, r) ↦ ground (
        arith,
        r,
        (read_device-read parse_cidr d).2 r,
        add_devices-lookup config parse_cidr targets out devices x,
      )
      | inr (some (name, ip), r) ↦ ground (
        arith,
        r,
        (read_device-read parse_cidr d).1 name ip r,
        lookup-insert targets name (device_target config ip) x,
        add_devices-lookup config parse_cidr (insert targets name (device_target config ip)) out
            devices x,
      )
    ]

-- The loop over the devices panics exactly if a device has no primary IP, or has an address that
-- parses but no name. Otherwise a name is a target exactly if some device with an address that parses
-- carries it, and the last such device gives the address of the target.
pub add_devices_lem :
    (config : NetboxConfig) (parse_cidr : Text → Option Text) (devices : List Device) (x : Text)
    → (is_some (add_devices config parse_cidr [] devices) ≡ all (is_safe parse_cidr) devices)
      × ((out : Map Target)
          → add_devices config parse_cidr [] devices ≡ some out
          → lookup out x ≡ elim (last_ip parse_cidr x devices) [
            | none ↦ none
            | some ip ↦ some (target_at config ip)
          ])
unfolding lookup device_target
add_devices_lem config parse_cidr devices x = (
  add_devices-is_some config parse_cidr [] devices,
  (λ out e. add_devices-lookup config parse_cidr [] out devices x e),
)
