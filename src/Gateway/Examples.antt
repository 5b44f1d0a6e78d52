-- ===== src/Gateway/Examples.antt =====
-- The theorems about the gateway at concrete inputs.
use gnmi_gateway.Prelude.{
  pos, ℕ, Bool, true, false, none, some, List, [], ◌∷◌, ◌++◌, Text, ◌==◌, codes, keep, arith, Map,
  lookup, join, ◌≡◌, refl,
}
use gnmi_gateway.Gateway.{disconnected, has_session, zookeeper_event_handler}
use gnmi_gateway.Gateway.Clients.{zookeeper_event_handler_lem}
use gnmi_gateway.Gateway.Flags.{IsClean}
use gnmi_gateway.Gateway.Args.{FlagValue, text_value, Lists, parse_args}
use gnmi_gateway.Gateway.Args.Joined.{AreGiven, lists_of, parse_args-lists}

zookeeper_event_handler_lem_example :
    (zookeeper_event_handler 49 (disconnected ∷ has_session ∷ disconnected ∷ [])).1 ≡ false
zookeeper_event_handler_lem_example =
    (zookeeper_event_handler_lem 49 (disconnected ∷ has_session ∷ disconnected ∷ [])
      (omega arith)).0

kafka-IsClean : IsClean (codes "kafka")
unfolding ◌==◌ gnmi_gateway.Prelude.all gnmi_gateway.Prelude.trim
kafka-IsClean = record { named = refl; one_part = refl; trimmed = refl }

abbrev kafka_args : Map FlagValue
kafka_args =
    (codes "Exporters", text_value (codes "kafka,kafka"))
    ∷ (codes "TargetLoaders", text_value (codes "kafka"))
    ∷ []

abbrev kafka_lists : Lists
kafka_lists = record {
  exporters = codes "kafka" ∷ codes "kafka" ∷ [];
  kafka_brokers = [];
  target_loaders = codes "kafka" ∷ [];
  netbox_subscribe_paths = [];
  zookeeper_hosts = [];
}

kafka_args-AreGiven : AreGiven kafka_args kafka_lists
unfolding lookup join ◌==◌
kafka_args-AreGiven = record {
  exporters = record { clean = (kafka-IsClean, (kafka-IsClean, tt)); joined = refl };
  kafka_brokers = record { clean = tt; joined = refl };
  target_loaders = record { clean = (kafka-IsClean, tt); joined = refl };
  netbox_subscribe_paths = record { clean = tt; joined = refl };
  zookeeper_hosts = record { clean = tt; joined = refl };
}

parse_args-lists_example :
    lists_of (parse_args (λ c _. some c) some (λ _. none) kafka_args) ≡ some kafka_lists
unfolding lookup ◌==◌
parse_args-lists_example =
    parse_args-lists (λ c _. some c) some (λ _. none) kafka_args kafka_lists kafka_args-AreGiven
      refl (λ c. refl)
