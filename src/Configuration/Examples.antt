-- ===== src/Configuration/Examples.antt =====
-- A file that sets a dial timeout of ten seconds and a Zookeeper timeout in nanoseconds.
use gnmi_gateway.Prelude.{pos, some, none, [], arith, ◌≡◌, refl}
use gnmi_gateway.Configuration.{GatewayConfig, LoaderDurations, populated, panics, populate}
use gnmi_gateway.Configuration.Durations.{populate_lem}

-- The interval of the simple loader is not rescaled.
abbrev intervals : LoaderDurations
intervals = record {
  json_file_reload_interval = pos 0;
  netbox_reload_interval = pos 180000000000;
  simple_file_reload_interval = pos 30;
}

abbrev from_file : GatewayConfig
from_file = record {
  target_dial_timeout = pos 10;
  zookeeper_timeout = pos 2000000000;
  kafka_batch_timeout = none;
  target_loaders = some intervals;
}

abbrev loaded : GatewayConfig
loaded = record {
  target_dial_timeout = pos 10000000000;
  zookeeper_timeout = pos 2000000000;
  kafka_batch_timeout = none;
  target_loaders = some intervals;
}

populate_lem_example : populate (λ _ _. some from_file) loaded (some []) ≡ populated loaded
populate_lem_example =
    (populate_lem (λ _ _. some from_file) loaded from_file intervals [] refl refl (omega arith)
      (omega arith) (omega arith)).0

abbrev without_loaders : GatewayConfig
without_loaders = record {
  target_dial_timeout = pos 0;
  zookeeper_timeout = pos 0;
  kafka_batch_timeout = none;
  target_loaders = none;
}

-- A configuration without loaders makes the function panic.
without_loaders-panics : populate (λ old _. some old) without_loaders (some []) ≡ panics
unfolding populate
without_loaders-panics = refl
