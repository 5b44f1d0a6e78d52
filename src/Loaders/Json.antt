-- ===== src/Loaders/Json.antt =====
-- gateway/loaders/json/json.go: targets from a JSON file, `GetConfiguration`. Opening the file,
-- `jsonpb.Unmarshal` and `target.Validate` are arguments.
use gnmi_gateway.Prelude.{Bool, true, Option, none, some, Text, if◌then◌else◌, arith, ◌≡◌}
use gnmi_gateway.Proto.{Configuration}

unfoldable get_configuration :
    (Text → Option Configuration) → (Configuration → Bool) → Option Text → Option Configuration
get_configuration unmarshal validate none = none
get_configuration unmarshal validate (some json) = elim (unmarshal json) [
  | none ↦ none
  | some configs ↦ if validate configs then some configs else none
]

-- What is returned has passed `target.Validate`.
get_configuration-valid :
    (unmarshal : Text → Option Configuration) (validate : Configuration → Bool) (file : Option Text)
    (configs : Configuration)
    → get_configuration unmarshal validate file ≡ some configs
    → validate configs ≡ true
unfolding get_configuration
get_configuration-valid unmarshal validate none configs e = ground arith
get_configuration-valid unmarshal validate (some json) configs e = ground arith
