-- ===== src/Exporters/Prometheus.antt =====
-- gateway/exporters/prometheus/prometheus.go: `Export`. The types of the model, the hash, float64 and
-- whether Prometheus accepts a new metric are parameters, and so is whether the gauge of Prometheus
-- has the methods of its counter: the type switch tries the counter first.
pub mod Shows
pub mod Values
mod Serving
use gnmi_gateway.Prelude.{
  ℕ, pos, Bool, true, false, not, ◌&&◌, ◌||◌, Option, none, some, List, [], ◌∷◌, Text, Map, map,
  eqb, ◌==◌, codes, if◌then◌else◌,
}
use gnmi_gateway.Proto.{PathElem, GnmiPath, Update, Notification}
use gnmi_gateway.Utils.{Float, get_number_values}
use gnmi_gateway.Exporters.Delta.{History, calc}
use gnmi_gateway.Exporters.Labels.{metric_name_and_labels, new_string_map_hash}

-- A metric with its value; `nil_metric` is a nil interface.
pub data Metric (F : Type 0) : Type 0 where
  counter gauge : F → Metric F
  nil_metric : Metric F

-- What `Export` takes from its surroundings. `type_of` is `GetTypeByPath`, where `none` is a panic.
pub record Setting (F : Type 0) : Type 0 where
  pub float : Float F
  pub sum : Text → ℕ
  pub type_of : List Text → Option Text
  pub accepts : Text → Map Text → Bool
  pub gauge_is_counter : Bool

-- `e.metrics` and the history of `e.deltaCalc`.
pub record Exporter (F : Type 0) : Type 0 where
  pub metrics : ℕ → Option (Metric F)
  pub history : ℕ → Option F

module _ {F : Type 0} (s : Setting F) where
  abbrev pub nought : F
  nought = s.float.of_int (pos 0)

  -- The switch over the type's name; `none` is the panic of a metric that Prometheus does not accept.
  unfoldable pub new_metric : Text → Text → Map Text → Option (Metric F)
  new_metric type_name metric_name labels =
      if type_name == codes "counter64"
      then (if s.accepts metric_name labels then some (counter nought) else none)
      else if type_name == codes "gauge32"
      then some nil_metric
      else if s.accepts metric_name labels
      then some (gauge nought)
      else none

  -- `m.Add(delta)`, if there was a value before and it did not fall.
  unfoldable pub add_delta : F → F × Bool × History s.float.minus nought → F
  add_delta total (delta, exists, _) =
      if exists && s.float.is_nonnegative delta then s.float.plus total delta else total

  -- The type switch: the metric and the history after a value.
  unfoldable pub observe : Metric F → ℕ → (ℕ → Option F) → F → Metric F × (ℕ → Option F)
  observe nil_metric hash history value = (nil_metric, history)
  observe (counter total) hash history value =
      let r = calc s.float.minus nought history hash value in (counter (add_delta total r), r.2)
  observe (gauge total) hash history value =
      let r = calc s.float.minus nought history hash value in
      if s.gauge_is_counter then (gauge (add_delta total r), r.2) else (gauge value, history)

  abbrev pub store : (ℕ → Option (Metric F)) → ℕ → Metric F → ℕ → Option (Metric F)
  store metrics hash m other = if eqb hash other then some m else metrics other

  abbrev pub record_value : Exporter F → ℕ → Metric F → F → Exporter F
  record_value e hash m value =
      let (m', history) = observe m hash e.history value in
      record { metrics = store e.metrics hash m'; history = history }

  -- The metric of the hash, which is made if it is not there; `none` is a panic.
  unfoldable pub find_metric : Exporter F → ℕ → Text → Map Text → List PathElem → Option (Metric F)
  find_metric e hash metric_name labels elems = elim (e.metrics hash) [
    | some m ↦ some m
    | none ↦ elim (s.type_of (map (λ p. p.name) elems)) [
      | none ↦ none
      | some type_name ↦ new_metric type_name metric_name labels
    ]
  ]

  -- The loop body of `Export`; `none` is a panic.
  unfoldable pub export_update : Exporter F → Option GnmiPath → Update → Option (Exporter F)
  export_update e prefix u =
      let (value, is_number) = get_number_values s.float u.val in
      if not is_number then some e else elim u.path [
        | none ↦ none
        | some path ↦
            let (metric_name, labels) = metric_name_and_labels prefix path in
            let hash = new_string_map_hash s.sum metric_name labels in
            elim (find_metric e hash metric_name labels path.elem) [
              | none ↦ none
              | some m ↦ some (record_value e hash m value)
            ]
      ]

  unfoldable pub export_updates : Exporter F → Option GnmiPath → List Update → Option (Exporter F)
  export_updates e prefix [] = some e
  export_updates e prefix (u ∷ us) = elim (export_update e prefix u) [
    | none ↦ none
    | some e' ↦ export_updates e' prefix us
  ]

  -- `Export`, of a leaf that holds a notification.
  unfoldable pub export : Exporter F → Notification → Option (Exporter F)
  export e n = export_updates e n.prefix n.update
