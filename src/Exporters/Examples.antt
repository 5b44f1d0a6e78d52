-- ===== src/Exporters/Examples.antt =====
-- The theorems about the exporters at concrete inputs, with natural numbers as values.
use gnmi_gateway.Prelude.{
  eq_iff, arith, ℕ, ◌+◌, ◌-◌, Bool, true, false, negsuc, length, List, Option, some, none, [], ◌∷◌,
  pos, eqb, codes, IsMap, lookup, insert, ◌==◌, split, map, replace_all, if◌then◌else◌, ◌≡◌, refl,
}
use gnmi_gateway.Proto.{GnmiPath, Notification, uint_val, empty_path}
use gnmi_gateway.Utils.{Float, get_number_values}
use gnmi_gateway.Utils.Order.{SameMap, SamePath}
use gnmi_gateway.Exporters.Labels.{
  metric_name_and_labels, new_string_map_hash, new_string_map_hash_lem,
}
use gnmi_gateway.Exporters.Prometheus.{Metric, counter, gauge, Setting, Exporter, export}
use gnmi_gateway.Exporters.Prometheus.Values.{exports, exports-shows}
use gnmi_gateway.Exporters.Influxdb

-- Natural numbers, where a difference counts as not negative unless it is nought.
abbrev natural : Float ℕ
natural = record {
  of_int = λ n. elim n [ pos k ↦ k | negsuc k ↦ 0 ];
  of_float = λ b. b;
  minus = ◌-◌;
  plus = ◌+◌;
  is_nonnegative = λ d. if eqb d 0 then false else true;
}

-- The path of a counter of octets, with a name or two.
abbrev octets : GnmiPath
octets = record {
  origin = [];
  target = [];
  elem =
      record { name = codes "eth0"; key = none }
      ∷ record { name = codes "octets"; key = none }
      ∷ [];
}

abbrev octets_are : ℕ → Notification
octets_are n = record {
  timestamp = pos 1;
  prefix = some empty_path;
  alias = [];
  update = record { path = some octets; val = some (uint_val n); duplicates = 0 } ∷ [];
  delete = [];
  atomic = false;
}

abbrev setting : Setting ℕ
setting = record {
  float = natural;
  sum = length;
  type_of = λ _. some (codes "counter64");
  accepts = λ _ _. true;
  gauge_is_counter = true;
}

-- The exporter holds a counter at 5 under the hash of the octets, whose last value was 10.
abbrev holding : Exporter ℕ
holding = record {
  metrics = λ h. if eqb h 11 then some (counter 5) else none;
  history = λ h. if eqb h 11 then some 10 else none;
}

abbrev readings : List Notification
readings = octets_are 12 ∷ octets_are 3 ∷ octets_are 4 ∷ []

abbrev exported : Exporter ℕ
exported = elim (exports setting holding readings) [ none ↦ holding | some e ↦ e ]

runs : exports setting holding readings ≡ some exported
unfolding export gnmi_gateway.Exporters.Prometheus.export_updates
    gnmi_gateway.Exporters.Prometheus.export_update get_number_values
    gnmi_gateway.Exporters.Prometheus.find_metric new_string_map_hash metric_name_and_labels
    gnmi_gateway.Exporters.Labels.add_elems ◌==◌ replace_all
    gnmi_gateway.Exporters.Labels.labels_text gnmi_gateway.Prelude.sort_texts
    gnmi_gateway.Exporters.Labels.add_labels
runs = refl

exports-shows_example : exported.metrics 11 ≡ some (counter 8)
unfolding get_number_values new_string_map_hash metric_name_and_labels
    gnmi_gateway.Exporters.Labels.add_elems ◌==◌ replace_all
    gnmi_gateway.Exporters.Labels.labels_text gnmi_gateway.Prelude.sort_texts
    gnmi_gateway.Exporters.Labels.add_labels
exports-shows_example = exports-shows setting holding exported readings 11 (counter 5) refl runs

-- Two orders of the keys of one element.
abbrev by_name : GnmiPath
by_name = record {
  origin = [];
  target = codes "r1";
  elem =
      record {
        name = codes "if";
        key = some ((codes "a", codes "1") ∷ (codes "b", codes "2") ∷ []);
      }
      ∷ [];
}

abbrev by_other_name : GnmiPath
by_other_name = record {
  origin = [];
  target = codes "r1";
  elem =
      record {
        name = codes "if";
        key = some ((codes "b", codes "2") ∷ (codes "a", codes "1") ∷ []);
      }
      ∷ [];
}

a_before_b : IsMap ((codes "a", codes "1") ∷ (codes "b", codes "2") ∷ [])
unfolding lookup ◌==◌
a_before_b = (refl, (refl, tt))

b_before_a : IsMap ((codes "b", codes "2") ∷ (codes "a", codes "1") ∷ [])
unfolding lookup ◌==◌
b_before_a = (refl, (refl, tt))

same_maps :
    SameMap
      ((codes "a", codes "1") ∷ (codes "b", codes "2") ∷ [])
      ((codes "b", codes "2") ∷ (codes "a", codes "1") ∷ [])
unfolding lookup
same_maps = record {
  left_map = a_before_b;
  right_map = b_before_a;
  same = λ k. ground (arith, eq_iff (codes "a") k, eq_iff (codes "b") k);
}

same_paths : SamePath by_name by_other_name
same_paths = record { same_origin = refl; same_target = refl; same_elems = (refl, same_maps, tt) }

abbrev about : GnmiPath → Notification
about p = record {
  timestamp = pos 1;
  prefix = some p;
  alias = [];
  update = [];
  delete = [];
  atomic = false;
}
