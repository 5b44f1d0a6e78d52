-- ===== src/Stats/Kept.antt =====
-- What was counted before the statistics start is kept.
use gnmi_gateway.Prelude.{
  Bool, true, false, ◌&&◌, Option, none, some, List, [], ◌∷◌, ◌++◌, Text, ◌==◌, eq_iff, eq_refl,
  Map, if◌then◌else◌, insert, lookup, lookup-insert, Bool-cases, Option-cases, inl, inr, arith, ◌≡◌,
  refl, sym, ◌∙◌, ap, subst,
}
use gnmi_gateway.Stats.{
  Kind, counter, gauge, other, Meter, MeterRegistry, SpectatorConfig, spectator_config, add_float,
  add_all, set_all, copy_meter, copy_meters, start_spectator,
}

abbrev same_kind : Kind → Kind → Bool
same_kind counter counter = true
same_kind counter gauge = false
same_kind counter other = false
same_kind gauge counter = false
same_kind gauge gauge = true
same_kind gauge other = false
same_kind other k = false

-- The values of the meters of a kind and an id, in their order.
abbrev pub measured : {F : Type 0} → Kind → Text → List (Meter F) → List F
measured k id [] = []
measured k id (m ∷ ms) =
    let rest = measured k id ms in
    if same_kind k m.kind && m.id == id then m.measures ++ rest else rest

abbrev pub last_of : {F : Type 0} → Option F → List F → Option F
last_of before [] = before
last_of before (v ∷ vs) = last_of (some v) vs

module _ {F : Type 0} (plus : F → F → F) (nought : F) where
  -- The values added up one after the other.
  abbrev pub counted : Option F → List F → Option F
  counted before [] = before
  counted before (v ∷ vs) = counted (some (plus (elim before [ none ↦ nought | some b ↦ b ]) v)) vs

  counted-append :
      (vs ws : List F) (before : Option F)
      → counted before (vs ++ ws) ≡ counted (counted before vs) ws
  counted-append [] ws before = refl
  counted-append (v ∷ vs) ws before = counted-append vs ws _

  last_of-append :
      (vs ws : List F) (before : Option F)
      → last_of before (vs ++ ws) ≡ last_of (last_of before vs) ws
  last_of-append [] ws before = refl
  last_of-append (v ∷ vs) ws before = last_of-append vs ws (some v)

  insert-own : (m : Map F) (id : Text) (v : F) → lookup (insert m id v) id ≡ some v
  insert-own m id v = rw (lookup-insert m id v id, eq_refl id) refl

  insert-apart :
      (m : Map F) (id : Text) (v : F) (j : Text)
      → id == j ≡ false
      → lookup (insert m id v) j ≡ lookup m j
  insert-apart m id v j apart = rw (lookup-insert m id v j, apart) refl

  add_all-own :
      (vs : List F) (r : MeterRegistry F) (id : Text)
      → lookup (add_all plus nought r id vs).counters id ≡ counted (lookup r.counters id) vs
  unfolding add_all add_float
  add_all-own [] r id = refl
  add_all-own (v ∷ vs) r id =
      add_all-own vs (add_float plus nought r id v) id
      ∙ ap (λ o. counted o vs) (insert-own r.counters id _)

  add_all-apart :
      (vs : List F) (r : MeterRegistry F) (id j : Text)
      → id == j ≡ false
      → lookup (add_all plus nought r id vs).counters j ≡ lookup r.counters j
  unfolding add_all add_float
  add_all-apart [] r id j apart = refl
  add_all-apart (v ∷ vs) r id j apart =
      add_all-apart vs (add_float plus nought r id v) id j apart
      ∙ insert-apart r.counters id _ j apart

  add_all-gauges :
      (vs : List F) (r : MeterRegistry F) (id : Text)
      → (add_all plus nought r id vs).gauges ≡ r.gauges
  unfolding add_all add_float
  add_all-gauges [] r id = refl
  add_all-gauges (v ∷ vs) r id = add_all-gauges vs (add_float plus nought r id v) id

  set_all-own :
      (vs : List F) (r : MeterRegistry F) (id : Text)
      → lookup (set_all plus nought r id vs).gauges id ≡ last_of (lookup r.gauges id) vs
  unfolding set_all
  set_all-own [] r id = refl
  set_all-own (v ∷ vs) r id =
      set_all-own vs (record r { gauges = insert r.gauges id v }) id
      ∙ ap (λ o. last_of o vs) (insert-own r.gauges id v)

  set_all-apart :
      (vs : List F) (r : MeterRegistry F) (id j : Text)
      → id == j ≡ false
      → lookup (set_all plus nought r id vs).gauges j ≡ lookup r.gauges j
  unfolding set_all
  set_all-apart [] r id j apart = refl
  set_all-apart (v ∷ vs) r id j apart =
      set_all-apart vs (record r { gauges = insert r.gauges id v }) id j apart
      ∙ insert-apart r.gauges id v j apart

  set_all-counters :
      (vs : List F) (r : MeterRegistry F) (id : Text)
      → (set_all plus nought r id vs).counters ≡ r.counters
  unfolding set_all
  set_all-counters [] r id = refl
  set_all-counters (v ∷ vs) r id =
      set_all-counters vs (record r { gauges = insert r.gauges id v }) id

  copy_meter-counters :
      (r : MeterRegistry F) (kind : Kind) (id : Text) (vs : List F) (j : Text)
      → lookup (copy_meter plus nought r kind id vs).counters j
        ≡ counted (lookup r.counters j) (if same_kind counter kind && id == j then vs else [])
  unfolding copy_meter
  copy_meter-counters r counter id vs j = elim (Bool-cases (id == j)) [
    | inl own ↦ rw (own, ← ((eq_iff id j).0 own)) (add_all-own vs r id)
    | inr apart ↦ rw apart (add_all-apart vs r id j apart)
  ]
  copy_meter-counters r gauge id vs j = ap (λ m. lookup m j) (set_all-counters vs r id)
  copy_meter-counters r other id vs j = refl

  copy_meter-gauges :
      (r : MeterRegistry F) (kind : Kind) (id : Text) (vs : List F) (j : Text)
      → lookup (copy_meter plus nought r kind id vs).gauges j
        ≡ last_of (lookup r.gauges j) (if same_kind gauge kind && id == j then vs else [])
  unfolding copy_meter
  copy_meter-gauges r gauge id vs j = elim (Bool-cases (id == j)) [
    | inl own ↦ rw (own, ← ((eq_iff id j).0 own)) (set_all-own vs r id)
    | inr apart ↦ rw apart (set_all-apart vs r id j apart)
  ]
  copy_meter-gauges r counter id vs j = ap (λ m. lookup m j) (add_all-gauges vs r id)
  copy_meter-gauges r other id vs j = refl

  counted-if :
      (b : Bool) (vs ws : List F) (before : Option F)
      → counted before (if b then vs ++ ws else ws)
        ≡ counted (counted before (if b then vs else [])) ws
  counted-if true vs ws before = counted-append vs ws before
  counted-if false vs ws before = refl

  last_of-if :
      (b : Bool) (vs ws : List F) (before : Option F)
      → last_of before (if b then vs ++ ws else ws)
        ≡ last_of (last_of before (if b then vs else [])) ws
  last_of-if true vs ws before = last_of-append vs ws before
  last_of-if false vs ws before = refl

  copied :
      (ms : List (Meter F)) (r : MeterRegistry F) (j : Text)
      → (lookup (copy_meters plus nought r ms).counters j
          ≡ counted (lookup r.counters j) (measured counter j ms))
        × (lookup (copy_meters plus nought r ms).gauges j
            ≡ last_of (lookup r.gauges j) (measured gauge j ms))
  unfolding copy_meters
  copied [] r j = (refl, refl)
  copied (m ∷ ms) r j =
      let (counts, sets) = copied ms (copy_meter plus nought r m.kind m.id m.measures) j in
      let own = m.id == j in
      (
        counts
            ∙ (ap (λ o. counted o (measured counter j ms))
                  (copy_meter-counters r m.kind m.id m.measures j)
                ∙ sym (
                    counted-if (same_kind counter m.kind && own) m.measures (measured counter j ms)
                      _)),
        sets
            ∙ (ap (λ o. last_of o (measured gauge j ms))
                  (copy_meter-gauges r m.kind m.id m.measures j)
                ∙ sym (
                    last_of-if (same_kind gauge m.kind && own) m.measures (measured gauge j ms) _)),
      )

  -- When `StartSpectator` replaces the registry, whether it then starts or not, every counter of the new
  -- one stands at the sum of what the counters of its id measured before, and every gauge at the last
  -- value that a gauge of its id measured; an id that measured nothing is not there.
  pub start_spectator-keeps :
      (starts : SpectatorConfig → Bool) (config : Option SpectatorConfig) (uri : Text)
      (meters : List (Meter F)) (r : MeterRegistry F) (ok : Bool) (id : Text)
      → start_spectator plus nought starts config uri meters ≡ some (r, ok)
      → (lookup r.counters id ≡ counted none (measured counter id meters))
        × (lookup r.gauges id ≡ last_of none (measured gauge id meters))
  unfolding start_spectator lookup
  start_spectator-keeps starts config uri meters r ok id e =
      elim (Option-cases (spectator_config config uri)) [
        | inl without ↦ ground (arith, without)
        | inr (c, given) ↦
            let new : MeterRegistry F =
              copy_meters plus nought (record { counters = []; gauges = [] }) meters in
            let same : new ≡ r = ground (arith, given, e) in
            subst
              (λ (k : MeterRegistry F).
                (lookup k.counters id ≡ counted none (measured counter id meters))
                × (lookup k.gauges id ≡ last_of none (measured gauge id meters)))
              same (copied meters (record { counters = []; gauges = [] }) id)
      ]
