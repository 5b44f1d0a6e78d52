-- ===== src/Loaders/Simple.antt =====
-- gateway/loaders/simple/simple.go: targets from a YAML file. The YAML parser and
-- `xpath.ToGNMIPath` are arguments.
pub mod Parse
use gnmi_gateway.Prelude.{
  Bool, false, Option, none, some, List, [], ◌∷◌, Text, Map, insert, ◌==◌, split, if◌then◌else◌,
}
use gnmi_gateway.Proto.{
  Target, SubscribeRequest, Configuration, SubscriptionList, GnmiPath, Mode, stream, empty_path,
  Credentials,
}

pub record ConnectionConfig : Type 0 where
  pub addresses : List Text
  pub request : Text
  pub meta : Map Text
  pub credentials : Credentials

pub record RequestConfig : Type 0 where
  pub target : Text
  pub paths : List Text

pub record TargetConfig : Type 0 where
  pub connection : Map ConnectionConfig
  pub request : Map RequestConfig

-- `split[0]` and `split[1]` of a path with a colon; a path without one has no origin.
unfoldable pub origin_and_path : Text → Text × Text
origin_and_path x = elim (split x b':') [
  | [] ↦ ([], x)
  | origin ∷ rest ↦ elim rest [ [] ↦ ([], x) | path ∷ _ ↦ (origin, path) ]
]

unfoldable pub parse_path : (Text → Option GnmiPath) → Text → Option GnmiPath
parse_path to_path x =
    let (origin, rest) = origin_and_path x in
    elim (to_path rest) [
      | none ↦ none
      | some path ↦ some (if origin == [] then path else record path { origin = origin })
    ]

-- The loop over `request.Paths`; `none` is an error.
unfoldable pub parse_paths : (Text → Option GnmiPath) → List Text → Option (List (Option GnmiPath))
parse_paths to_path [] = some []
parse_paths to_path (x ∷ xs) = elim (parse_path to_path x) [
  | none ↦ none
  | some path ↦ elim (parse_paths to_path xs) [
    | none ↦ none
    | some paths ↦ some (some path ∷ paths)
  ]
]

unfoldable pub make_request : Text → List (Option GnmiPath) → SubscribeRequest
make_request target subs = record {
  subscribe = some (record {
    prefix = some (record empty_path { target = target });
    subscription = subs;
    mode = stream;
    updates_only = false;
  });
}

-- The loop over `simpleConfig.Request`.
unfoldable pub add_requests :
    (Text → Option GnmiPath)
    → Map SubscribeRequest
    → Map RequestConfig
    → Option (Map SubscribeRequest)
add_requests to_path requests [] = some requests
add_requests to_path requests ((name, r) ∷ rs) = elim (parse_paths to_path r.paths) [
  | none ↦ none
  | some subs ↦ add_requests to_path (insert requests name (make_request r.target subs)) rs
]

unfoldable pub make_target : ConnectionConfig → Target
make_target c = record {
  addresses = c.addresses;
  credentials = some c.credentials;
  request = c.request;
  meta = c.meta;
}

-- The loop over `simpleConfig.Connection`.
unfoldable pub add_targets : Map Target → Map ConnectionConfig → Map Target
add_targets targets [] = targets
add_targets targets ((name, c) ∷ cs) = add_targets (insert targets name (make_target c)) cs

-- `yamlToTargets`
unfoldable pub yaml_to_targets :
    (Text → Option TargetConfig) → (Text → Option GnmiPath) → Text → Option Configuration
yaml_to_targets unmarshal to_path yaml = elim (unmarshal yaml) [
  | none ↦ none
  | some config ↦ elim (add_requests to_path [] config.request) [
    | none ↦ none
    | some requests ↦
        some (record { request = requests; target = add_targets [] config.connection })
  ]
]

-- `GetConfiguration`, from the content of the file and `target.Validate`.
unfoldable pub get_configuration :
    (Text → Option TargetConfig)
    → (Text → Option GnmiPath)
    → (Configuration → Bool)
    → Option Text
    → Option Configuration
get_configuration unmarshal to_path validate none = none
get_configuration unmarshal to_path validate (some yaml) =
    elim (yaml_to_targets unmarshal to_path yaml) [
      | none ↦ none
      | some configs ↦ if validate configs then some configs else none
    ]
