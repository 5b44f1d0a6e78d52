-- ===== src/Stats/Example.antt =====
-- Two counters of one id, and a gauge.
use gnmi_gateway.Prelude.{ℕ, ◌+◌, true, none, some, List, [], ◌∷◌, codes, lookup, ◌≡◌, refl}
use gnmi_gateway.Stats.{
  counter, gauge, other, Meter, SpectatorConfig, start_spectator, add_all, add_float, set_all,
  copy_meter, copy_meters, spectator_config,
}
use gnmi_gateway.Stats.Kept.{counted, last_of, measured, start_spectator-keeps}

abbrev meters : List (Meter ℕ)
meters =
    record { kind = counter; id = codes "started"; measures = 3 ∷ [] }
    ∷ record { kind = gauge; id = codes "buffer"; measures = 7 ∷ 5 ∷ [] }
    ∷ record { kind = other; id = codes "latency"; measures = 9 ∷ [] }
    ∷ record { kind = counter; id = codes "started"; measures = 4 ∷ [] }
    ∷ []

abbrev config : SpectatorConfig
config = record { uri = codes "http://atlas" }

start_spectator-keeps_example :
    let r = copy_meters ◌+◌ 0 (record { counters = []; gauges = [] }) meters in
    (lookup r.counters (codes "started")
      ≡ counted ◌+◌ 0 none (measured counter (codes "started") meters))
    × (lookup r.gauges (codes "started") ≡ last_of none (measured gauge (codes "started") meters))
unfolding start_spectator spectator_config
start_spectator-keeps_example =
    start_spectator-keeps ◌+◌ 0 (λ _. true) (some config) [] meters
      (copy_meters ◌+◌ 0 (record { counters = []; gauges = [] }) meters) true (codes "started") refl

starts_at_seven :
    lookup
      (copy_meters ◌+◌ 0 (record { counters = []; gauges = [] }) meters).counters
      (codes "started")
    ≡ some 7
unfolding copy_meters lookup copy_meter add_all add_float gnmi_gateway.Prelude.insert set_all
    gnmi_gateway.Prelude.◌==◌
starts_at_seven = refl
