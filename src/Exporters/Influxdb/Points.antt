-- ===== src/Exporters/Influxdb/Points.antt =====
-- The point that is written for a notification: when there is one, its measurement and its fields.
use gnmi_gateway.Prelude.{Option, none, some, List, [], Text, lookup, ◌==◌, if◌then◌else◌, ◌≡◌}
use gnmi_gateway.Proto.{GnmiPath, Update}
use gnmi_gateway.Utils.{Float}
use gnmi_gateway.Exporters.Influxdb.{Point, path_to_metric_name}
use gnmi_gateway.Exporters.Influxdb.Updates.{first_path, last_field}

module _ {F : Type 0} (f : Float F) where
  -- A point after further updates.
  abbrev Extends : Option GnmiPath → List Update → Point F → Point F → Type 0
  Extends prefix us p p' =
      (p'.measurement ≡ (
        if p.measurement == []
        then path_to_metric_name (first_path f prefix us)
        else p.measurement))
      × (p'.timestamp ≡ p.timestamp)
      × ((k : Text)
          → lookup p'.fields k
            ≡ elim (last_field f prefix k us) [ some v ↦ some v | none ↦ lookup p.fields k ])
