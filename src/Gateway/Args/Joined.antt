-- ===== src/Gateway/Args/Joined.antt =====
-- gateway/main.go: the lists that `ParseArgs` reads from the command line.
use gnmi_gateway.Prelude.{
  arith, none, some, Option, List, [], ◌∷◌, Text, Map, lookup, codes, All, join, split, trim, ◌==◌,
  ◌≡◌, refl, ◌∙◌, ap,
}
use gnmi_gateway.Gateway.{clean_split, clean_parts}
use gnmi_gateway.Gateway.Flags.{IsClean, clean_split-join}
use gnmi_gateway.Gateway.Args.{
  FlagValue, text_value, Lists, ArgsConfig, Parsed, bad_file, bad_environment, file_panics, parsed,
  flags, parse_flags, text_of, split_lists, flag_config, process_environment, parse_args,
}

-- The lists of the configuration that was read.
abbrev pub lists_of : Parsed → Option Lists
lists_of bad_file = none
lists_of bad_environment = none
lists_of file_panics = none
lists_of (parsed c) = some c.lists

-- A flag with the names, joined by commas; the flag may be left out if there is no name.
pub record IsGiven (args : Map FlagValue) (flag : Text) (names : List Text) : Type 0 where
  pub clean : All IsClean names
  pub joined :
      elim (lookup args flag) [ none ↦ [] | some v ↦ text_of (some v) ] ≡ join names (codes ",")

-- The five flags of lists on the command line.
pub record AreGiven (args : Map FlagValue) (xs : Lists) : Type 0 where
  pub exporters : IsGiven args (codes "Exporters") xs.exporters
  pub kafka_brokers : IsGiven args (codes "ExporterKafkaBrokers") xs.kafka_brokers
  pub target_loaders : IsGiven args (codes "TargetLoaders") xs.target_loaders
  pub netbox_subscribe_paths :
      IsGiven args (codes "TargetNetBoxSubscribePaths") xs.netbox_subscribe_paths
  pub zookeeper_hosts : IsGiven args (codes "ZookeeperHosts") xs.zookeeper_hosts

clean_split-names :
    (names : List Text) → All IsClean names → clean_split (join names (codes ",")) ≡ names
unfolding clean_split clean_parts join split ◌==◌ trim
clean_split-names [] h = refl
clean_split-names (p ∷ parts) h = clean_split-join p parts h

-- The value of a string flag with an empty default.
text_of-flag :
    (args : Map FlagValue) (flag : Text) (v : Option FlagValue)
    → text_of (some (elim v [ none ↦ text_value [] | some w ↦ w ]))
      ≡ elim v [ none ↦ [] | some w ↦ text_of (some w) ]
text_of-flag args flag none = refl
text_of-flag args flag (some w) = refl

clean_split-flag :
    (args : Map FlagValue) (flag : Text) (names : List Text)
    → IsGiven args flag names
    → clean_split (text_of (some (elim (lookup args flag) [ none ↦ text_value [] | some w ↦ w ])))
      ≡ names
clean_split-flag args flag names g =
    ap clean_split (text_of-flag args flag (lookup args flag) ∙ g.joined)
    ∙ clean_split-names names g.clean

split_lists-flags :
    (args : Map FlagValue) (xs : Lists)
    → AreGiven args xs
    → split_lists (parse_flags args flags) ≡ xs
unfolding split_lists parse_flags flags lookup ◌==◌
split_lists-flags args xs g = λ i. record {
  exporters = clean_split-flag args (codes "Exporters") xs.exporters g.exporters i;
  kafka_brokers =
      clean_split-flag args (codes "ExporterKafkaBrokers") xs.kafka_brokers g.kafka_brokers i;
  target_loaders =
      clean_split-flag args (codes "TargetLoaders") xs.target_loaders g.target_loaders i;
  netbox_subscribe_paths =
      clean_split-flag args (codes "TargetNetBoxSubscribePaths") xs.netbox_subscribe_paths
        g.netbox_subscribe_paths i;
  zookeeper_hosts =
      clean_split-flag args (codes "ZookeeperHosts") xs.zookeeper_hosts g.zookeeper_hosts i;
}

config_file-none :
    (args : Map FlagValue)
    → lookup args (codes "ConfigFile") ≡ none
    → text_of (lookup (parse_flags args flags) (codes "ConfigFile")) ≡ []
unfolding parse_flags flags lookup ◌==◌
config_file-none args no_file = rw no_file refl

-- What `ParseArgs` returns of what envconfig made of the configuration.
abbrev of_environment : Option ArgsConfig → Parsed
of_environment none = bad_environment
of_environment (some c) = parsed c

process_environment-parsed :
    (process : ArgsConfig → Option ArgsConfig) (c : ArgsConfig)
    → process_environment process (parsed c) ≡ of_environment (process c)
unfolding process_environment
process_environment-parsed process c = ground arith

parse_args-no_file :
    (decode : ArgsConfig → Text → Option ArgsConfig) (process : ArgsConfig → Option ArgsConfig)
    (read_file : Text → Option Text) (args : Map FlagValue)
    → text_of (lookup (parse_flags args flags) (codes "ConfigFile")) ≡ []
    → parse_args decode process read_file args
      ≡ of_environment (process (flag_config (parse_flags args flags)))
unfolding parse_args flag_config ◌==◌
parse_args-no_file decode process read_file args e =
    rw e (process_environment-parsed process (flag_config (parse_flags args flags)))

-- Without a configuration file, and with an environment that changes nothing, the five lists that are
-- given on the command line, joined by commas, are those of the configuration: if their names are not
-- empty and have no comma and no white space at their ends. A flag may be left out for the empty list.
pub parse_args-lists :
    (decode : ArgsConfig → Text → Option ArgsConfig) (process : ArgsConfig → Option ArgsConfig)
    (read_file : Text → Option Text) (args : Map FlagValue) (xs : Lists)
    → AreGiven args xs
    → lookup args (codes "ConfigFile") ≡ none
    → ((c : ArgsConfig) → process c ≡ some c)
    → lists_of (parse_args decode process read_file args) ≡ some xs
unfolding flag_config split_lists
parse_args-lists decode process read_file args xs g no_file unset =
    ap lists_of (
      parse_args-no_file decode process read_file args (config_file-none args no_file)
      ∙ ap of_environment (unset (flag_config (parse_flags args flags))))
    ∙ ap some (split_lists-flags args xs g)
