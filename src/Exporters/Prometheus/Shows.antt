-- ===== src/Exporters/Prometheus/Shows.antt =====
-- What a metric shows after values, and which values of a notification are its own.
use gnmi_gateway.Prelude.{
  ℕ, false, ◌&&◌, Option, none, some, List, [], ◌∷◌, eqb, if◌then◌else◌, arith, ◌≡◌, refl, ◌++◌,
}
use gnmi_gateway.Proto.{GnmiPath, Update}
use gnmi_gateway.Utils.{get_number_values}
use gnmi_gateway.Exporters.Delta.{calc}
use gnmi_gateway.Exporters.Labels.{metric_name_and_labels, new_string_map_hash}
use gnmi_gateway.Exporters.Prometheus.{
  Metric, counter, gauge, nil_metric, Setting, observe, add_delta,
}

module _ {F : Type 0} (s : Setting F) where
  -- The total with the steps between consecutive values that do not go down, where there may be no
  -- value before the first one.
  abbrev pub rises : F → Option F → List F → F
  rises total last [] = total
  rises total none (v ∷ vs) = rises total (some v) vs
  rises total (some last) (v ∷ vs) =
      let step = s.float.minus v last in
      rises (if s.float.is_nonnegative step then s.float.plus total step else total) (some v) vs

  abbrev pub last_of : F → List F → F
  last_of v [] = v
  last_of v (w ∷ vs) = last_of w vs

  -- What a metric shows after values, given the last value before them.
  abbrev pub shows : Metric F → Option F → List F → Metric F
  shows (counter total) last vs = counter (rises total last vs)
  shows (gauge total) last vs =
      gauge (if s.gauge_is_counter then rises total last vs else last_of total vs)
  shows nil_metric last vs = nil_metric

  -- The value of an update whose metric has the hash.
  abbrev pub value_at : ℕ → Option GnmiPath → Update → List F
  value_at hash prefix u =
      let (value, is_number) = get_number_values s.float u.val in
      elim u.path [
        | none ↦ []
        | some path ↦
            let (metric_name, labels) = metric_name_and_labels prefix path in
            if is_number && eqb (new_string_map_hash s.sum metric_name labels) hash
            then value ∷ []
            else []
      ]

  abbrev pub values_at : ℕ → Option GnmiPath → List Update → List F
  values_at hash prefix [] = []
  values_at hash prefix (u ∷ us) = value_at hash prefix u ++ values_at hash prefix us

  pub observe-shows :
      (m : Metric F) (hash : ℕ) (history : ℕ → Option F) (v : F) (vs : List F)
      → let r = observe s m hash history v in
        shows r.0 (r.1 hash) vs ≡ shows m (history hash) (v ∷ vs)
  unfolding observe add_delta calc
  observe-shows (counter total) hash history v vs = ground arith
  observe-shows (gauge total) hash history v vs = ground arith
  observe-shows nil_metric hash history v vs = refl

  pub observe-other :
      (m : Metric F) (k hash : ℕ) (history : ℕ → Option F) (v : F)
      → eqb k hash ≡ false
      → (observe s m k history v).1 hash ≡ history hash
  unfolding observe add_delta calc
  observe-other (counter total) k hash history v e = rw e refl
  observe-other (gauge total) k hash history v e = ground arith
  observe-other nil_metric k hash history v e = refl
