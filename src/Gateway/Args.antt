-- ===== src/Gateway/Args.antt =====
-- gateway/main.go: `ParseArgs`. The command line is what package flag reads from it, by the names of the
-- flags; the JSON decoder and envconfig are arguments, and the file is its content.
pub mod Joined
use gnmi_gateway.Prelude.{
  ℕ, ◌*◌, ℤ, pos, Bool, true, false, Option, none, some, List, [], ◌∷◌, Text, Map, lookup, map,
  codes, ◌==◌, if◌then◌else◌,
}
use gnmi_gateway.Configuration.{
  GatewayConfig, second, Populated, unreadable, unparsable, panics, populated, populate,
}
use gnmi_gateway.Gateway.{clean_split}

-- A flag's value; a duration counts nanoseconds.
pub data FlagValue : Type 0 where
  text_value : Text → FlagValue
  bool_value : Bool → FlagValue
  int_value duration_value : ℤ → FlagValue

pub record Flag : Type 0 where
  pub name : Text
  pub default : FlagValue

-- The flags that `ParseArgs` declares.
unfoldable pub flags : List Flag
flags =
    record { name = codes "CPUProfile"; default = text_value [] }
    ∷ record { name = codes "PProf"; default = bool_value false }
    ∷ record { name = codes "version"; default = bool_value false }
    ∷ record { name = codes "ConfigFile"; default = text_value [] }
    ∷ record { name = codes "EnableGNMIServer"; default = bool_value false }
    ∷ record { name = codes "Exporters"; default = text_value [] }
    ∷ record { name = codes "ExporterKafkaBatchBytes"; default = int_value (pos 1048576) }
    ∷ record { name = codes "ExporterKafkaBatchSize"; default = int_value (pos 10000) }
    ∷ record {
      name = codes "ExporterKafkaBatchTimeout";
      default = duration_value (pos (1 * second));
    }
    ∷ record { name = codes "ExporterKafkaBrokers"; default = text_value [] }
    ∷ record { name = codes "ExporterKafkaLogging"; default = bool_value false }
    ∷ record { name = codes "ExporterKafkaTopic"; default = text_value [] }
    ∷ record {
      name = codes "ExportersInfluxDBTarget";
      default = text_value (codes "http://localhost:8086");
    }
    ∷ record { name = codes "ExportersInfluxDBToken"; default = text_value [] }
    ∷ record { name = codes "ExportersInfluxDBOrg"; default = text_value [] }
    ∷ record { name = codes "ExportersInfluxDBBucket"; default = text_value [] }
    ∷ record { name = codes "ExportersInfluxDBBatchSize"; default = int_value (pos 20) }
    ∷ record { name = codes "GatewayTransitionBufferSize"; default = int_value (pos 100000) }
    ∷ record { name = codes "LogCaller"; default = bool_value false }
    ∷ record { name = codes "OpenConfigDirectory"; default = text_value [] }
    ∷ record { name = codes "ServerAddress"; default = text_value [] }
    ∷ record { name = codes "ServerPort"; default = int_value (pos 0) }
    ∷ record { name = codes "ServerListenAddress"; default = text_value (codes "0.0.0.0") }
    ∷ record { name = codes "ServerListenPort"; default = int_value (pos 9339) }
    ∷ record { name = codes "ServerTLSCert"; default = text_value [] }
    ∷ record { name = codes "ServerTLSKey"; default = text_value [] }
    ∷ record { name = codes "SimpleFile"; default = text_value [] }
    ∷ record {
      name = codes "SimpleFileReloadInterval";
      default = duration_value (pos (30 * second));
    }
    ∷ record { name = codes "StatsSpectatorURI"; default = text_value [] }
    ∷ record { name = codes "TargetLoaders"; default = text_value [] }
    ∷ record { name = codes "TargetJSONFile"; default = text_value [] }
    ∷ record {
      name = codes "TargetJSONFileReloadInterval";
      default = duration_value (pos (30 * second));
    }
    ∷ record { name = codes "TargetDialTimeout"; default = duration_value (pos (10 * second)) }
    ∷ record { name = codes "TargetLimit"; default = int_value (pos 100) }
    ∷ record { name = codes "TargetNetBoxAPIKey"; default = text_value [] }
    ∷ record { name = codes "TargetNetBoxDeviceGNMIPort"; default = int_value (pos 0) }
    ∷ record { name = codes "TargetNetBoxDeviceUsername"; default = text_value [] }
    ∷ record { name = codes "TargetNetBoxDevicePassword"; default = text_value [] }
    ∷ record { name = codes "TargetNetBoxHost"; default = text_value [] }
    ∷ record { name = codes "TargetNetBoxIncludeTag"; default = text_value [] }
    ∷ record {
      name = codes "TargetNetBoxReloadInterval";
      default = duration_value (pos (180 * second));
    }
    ∷ record { name = codes "TargetNetBoxSubscribePaths"; default = text_value [] }
    ∷ record { name = codes "ZookeeperHosts"; default = text_value [] }
    ∷ record { name = codes "ZookeeperPrefix"; default = text_value (codes "/gnmi/gateway/") }
    ∷ record { name = codes "ZookeeperTimeout"; default = duration_value (pos (1 * second)) }
    ∷ []

-- `flag.Parse`: every variable has the value that the command line gives, or else the default one.
unfoldable pub parse_flags : Map FlagValue → List Flag → Map FlagValue
parse_flags args [] = []
parse_flags args (f ∷ fs) =
    (f.name, elim (lookup args f.name) [ none ↦ f.default | some v ↦ v ]) ∷ parse_flags args fs

-- The variables of the string flags and of the durations.
abbrev pub text_of : Option FlagValue → Text
text_of (some (text_value t)) = t
text_of (some (bool_value b)) = []
text_of (some (int_value n)) = []
text_of (some (duration_value d)) = []
text_of none = []

abbrev pub duration_of : Option FlagValue → ℤ
duration_of (some (duration_value d)) = d
duration_of (some (text_value t)) = pos 0
duration_of (some (bool_value b)) = pos 0
duration_of (some (int_value n)) = pos 0
duration_of none = pos 0

-- The lists that are split at commas.
pub record Lists : Type 0 where
  pub exporters : List Text
  pub kafka_brokers : List Text
  pub target_loaders : List Text
  pub netbox_subscribe_paths : List Text
  pub zookeeper_hosts : List Text

-- The configuration: its lists, its durations, and all that flags set.
pub record ArgsConfig : Type 0 where
  pub settings : Map FlagValue
  pub lists : Lists
  pub durations : GatewayConfig

pub data Parsed : Type 0 where
  bad_file bad_environment file_panics : Parsed
  parsed : ArgsConfig → Parsed

unfoldable pub split_lists : Map FlagValue → Lists
split_lists settings = record {
  exporters = clean_split (text_of (lookup settings (codes "Exporters")));
  kafka_brokers = clean_split (text_of (lookup settings (codes "ExporterKafkaBrokers")));
  target_loaders = clean_split (text_of (lookup settings (codes "TargetLoaders")));
  netbox_subscribe_paths =
      clean_split (text_of (lookup settings (codes "TargetNetBoxSubscribePaths")));
  zookeeper_hosts = clean_split (text_of (lookup settings (codes "ZookeeperHosts")));
}

-- The configuration of `NewDefaultGatewayConfig` with what the flags set.
unfoldable pub flag_config : Map FlagValue → ArgsConfig
flag_config settings = record {
  settings = settings;
  lists = split_lists settings;
  durations = record {
    target_dial_timeout = duration_of (lookup settings (codes "TargetDialTimeout"));
    zookeeper_timeout = duration_of (lookup settings (codes "ZookeeperTimeout"));
    kafka_batch_timeout = some (duration_of (lookup settings (codes "ExporterKafkaBatchTimeout")));
    target_loaders = some (record {
      json_file_reload_interval =
          duration_of (lookup settings (codes "TargetJSONFileReloadInterval"));
      netbox_reload_interval = duration_of (lookup settings (codes "TargetNetBoxReloadInterval"));
      simple_file_reload_interval =
          duration_of (lookup settings (codes "SimpleFileReloadInterval"));
    });
  };
}

-- `PopulateGatewayConfigFromFile`, of the whole configuration.
unfoldable pub populate_args :
    (ArgsConfig → Text → Option ArgsConfig) → ArgsConfig → Option Text → Parsed
populate_args decode c none = bad_file
populate_args decode c (some text) = elim (decode c text) [
  | none ↦ bad_file
  | some d ↦ elim (populate (λ _ _. some d.durations) c.durations (some text)) [
    | unreadable ↦ bad_file
    | unparsable ↦ bad_file
    | panics ↦ file_panics
    | populated durations ↦ parsed (record d { durations = durations })
  ]
]

unfoldable pub process_environment : (ArgsConfig → Option ArgsConfig) → Parsed → Parsed
process_environment process bad_file = bad_file
process_environment process bad_environment = bad_environment
process_environment process file_panics = file_panics
process_environment process (parsed c) = elim (process c) [
  | none ↦ bad_environment
  | some d ↦ parsed d
]

-- `ParseArgs`: the file is read if it is named, and then the environment.
unfoldable pub parse_args :
    (ArgsConfig → Text → Option ArgsConfig)
    → (ArgsConfig → Option ArgsConfig)
    → (Text → Option Text)
    → Map FlagValue
    → Parsed
parse_args decode process read_file args =
    let c = flag_config (parse_flags args flags) in
    let config_file = text_of (lookup c.settings (codes "ConfigFile")) in
    process_environment process
      (if config_file == [] then parsed c else populate_args decode c (read_file config_file))
