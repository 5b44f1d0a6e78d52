-- ===== src/Stats.antt =====
-- gateway/stats/spectator.go: `StartSpectator`, which replaces the registry and keeps what was counted.
-- The registry of spectator-go is a list of meters, of which each has its kind, its id and the values that
-- it measures; the sum of its numbers and whether the registry starts are arguments.
pub mod Kept
mod Example
use gnmi_gateway.Prelude.{
  ℕ, Bool, true, false, not, ◌&&◌, Option, none, some, List, [], ◌∷◌, Text, ◌==◌, Map,
  if◌then◌else◌, insert, lookup,
}

-- The kinds of meters that are copied, and the others.
pub data Kind : Type 0 where
  counter gauge other : Kind

pub record Meter (F : Type 0) : Type 0 where
  pub kind : Kind
  pub id : Text
  pub measures : List F

-- The counters and the gauges of the new registry, by their ids.
pub record MeterRegistry (F : Type 0) : Type 0 where
  pub counters : Map F
  pub gauges : Map F

-- `DefaultSpectatorConfig`, of which the loop needs the URI.
pub record SpectatorConfig : Type 0 where
  pub uri : Text

-- The configuration with which it starts: the one that is given, or the default one with the URI.
unfoldable pub spectator_config : Option SpectatorConfig → Text → Option SpectatorConfig
spectator_config (some config) uri = some config
spectator_config none uri = if uri == [] then none else some (record { uri = uri })

module _ {F : Type 0} (plus : F → F → F) (nought : F) where
  -- `Registry.CounterWithId(id).AddFloat(value)`: a new counter stands at nought.
  unfoldable pub add_float : MeterRegistry F → Text → F → MeterRegistry F
  add_float r id value =
      let before : F = elim (lookup r.counters id) [ none ↦ nought | some v ↦ v ] in
      record r { counters = insert r.counters id (plus before value) }

  unfoldable pub add_all : MeterRegistry F → Text → List F → MeterRegistry F
  add_all r id [] = r
  add_all r id (v ∷ vs) = add_all (add_float r id v) id vs

  -- `Registry.GaugeWithId(id).Set(value)`
  unfoldable pub set_all : MeterRegistry F → Text → List F → MeterRegistry F
  set_all r id [] = r
  set_all r id (v ∷ vs) = set_all (record r { gauges = insert r.gauges id v }) id vs

  unfoldable pub copy_meter : MeterRegistry F → Kind → Text → List F → MeterRegistry F
  copy_meter r counter id vs = add_all r id vs
  copy_meter r gauge id vs = set_all r id vs
  copy_meter r other id vs = r

  -- The loop over the meters of the old registry.
  unfoldable pub copy_meters : MeterRegistry F → List (Meter F) → MeterRegistry F
  copy_meters r [] = r
  copy_meters r (m ∷ ms) = copy_meters (copy_meter r m.kind m.id m.measures) ms

  -- `StartSpectator`: the registry that replaces the old one, unless there is no configuration, and
  -- whether it starts. A registry that does not start has replaced the old one all the same.
  unfoldable pub start_spectator :
      (SpectatorConfig → Bool)
      → Option SpectatorConfig
      → Text
      → List (Meter F)
      → Option (MeterRegistry F × Bool)
  start_spectator starts config uri meters = elim (spectator_config config uri) [
    | none ↦ none
    | some c ↦ some (copy_meters (record { counters = []; gauges = [] }) meters, starts c)
  ]
