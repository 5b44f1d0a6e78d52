-- ===== src/Exporters/Prometheus/Values.antt =====
-- The value that a metric shows after the values of its path.
use mathlib.Core.List.{append_assoc}
use gnmi_gateway.Prelude.{
  some_inj, ℕ, Text, Map, Bool, true, false, Option, none, some, List, [], ◌∷◌, eqb, if◌then◌else◌,
  arith, ◌≡◌, refl, Option-cases, Bool-cases, inl, inr, ◌++◌, sym, ◌∙◌, ap,
}
use gnmi_gateway.Proto.{PathElem, GnmiPath, Update, Notification}
use gnmi_gateway.Utils.{get_number_values}
use gnmi_gateway.Exporters.Labels.{metric_name_and_labels, new_string_map_hash}
use gnmi_gateway.Exporters.Prometheus.{
  Metric, counter, gauge, nil_metric, Setting, Exporter, observe, export_update, export_updates,
  export, find_metric, record_value,
}
use gnmi_gateway.Exporters.Prometheus.Shows.{
  shows, value_at, values_at, observe-shows, observe-other,
}

append_if {ℓ} :
    {A : Type ℓ} (b : Bool) (v : A) (vs : List A)
    → (if b then v ∷ [] else []) ++ vs ≡ (if b then v ∷ vs else vs)
append_if true v vs = refl
append_if false v vs = refl

module _ {F : Type 0} (s : Setting F) where
  -- What a metric shows s after further values, if `e` holds it.
  abbrev Shown : Exporter F → ℕ → List F → Metric F → Type 0
  Shown e hash vs shown =
      (m : Metric F) × (e.metrics hash ≡ some m) × (shows s m (e.history hash) vs ≡ shown)

  record_value-shows :
      (e : Exporter F) (k hash : ℕ) (v : F) (vs : List F) (m other : Metric F)
      → e.metrics hash ≡ some m
      → (eqb k hash ≡ true → other ≡ m)
      → Shown
          (record_value s e k other v)
          hash
          vs
          (shows s m (e.history hash) (if eqb k hash then v ∷ vs else vs))
  record_value-shows e k hash v vs m other here same = elim (Bool-cases (eqb k hash)) [
    | inl at ↦
        let k_is : k ≡ hash = ground arith in
        (
          (observe s other k e.history v).0,
          rw at refl,
          rw (at, sym k_is, ap (λ n. n) (same at)) (observe-shows s m k e.history v vs),
        )
    | inr off ↦ (m, rw off here, rw (off, observe-other s other k hash e.history v off) refl)
  ]

  find_metric-here :
      (e : Exporter F) (k hash : ℕ) (m other : Metric F) (metric_name : Text) (labels : Map Text)
      (elems : List PathElem)
      → e.metrics hash ≡ some m
      → eqb k hash ≡ true
      → find_metric s e k metric_name labels elems ≡ some other
      → other ≡ m
  unfolding find_metric
  find_metric-here e k hash m other metric_name labels elems here at found =
      let k_is : k ≡ hash = ground arith in
      let first : e.metrics k ≡ some m = rw k_is here in
      some_inj (sym found ∙ rw (find_metric, first) refl)

  export_update-shows :
      (e e' : Exporter F) (prefix : Option GnmiPath) (u : Update) (vs : List F) (hash : ℕ)
      (m : Metric F)
      → e.metrics hash ≡ some m
      → export_update s e prefix u ≡ some e'
      → Shown e' hash vs (shows s m (e.history hash) (value_at s hash prefix u ++ vs))
  unfolding export_update
  export_update-shows e e' prefix u vs hash m here h =
      elim (Bool-cases (get_number_values s.float u.val).1) [
        | inr no_number ↦
            let stays : e ≡ e' = ground arith in
            let skipped : value_at s hash prefix u ++ vs ≡ vs = ground arith in
            (m, rw (sym stays) here, rw (sym stays, skipped) refl)
        | inl number ↦ elim (Option-cases u.path) [
          | inl no_path ↦ ground arith
          | inr (path, at_path) ↦
              let (metric_name, labels) = metric_name_and_labels prefix path in
              let k = new_string_map_hash s.sum metric_name labels in
              let v = (get_number_values s.float u.val).0 in
              let taken : value_at s hash prefix u ++ vs ≡ (if eqb k hash then v ∷ vs else vs) =
                rw (at_path, number) (append_if (eqb k hash) v vs) in
              elim (Option-cases (find_metric s e k metric_name labels path.elem)) [
                | inl none_found ↦ ground arith
                | inr (other, found) ↦
                    let the_result : export_update s e prefix u
                        ≡ some (record_value s e k other v) =
                      rw (number, at_path, found) refl in
                    let made : record_value s e k other v ≡ e' = some_inj (sym (the_result) ∙ h) in
                    let r = record_value-shows e k hash v vs m other here (λ same.
                      find_metric-here e k hash m other metric_name labels path.elem here same
                        found) in
                    rw (sym made, taken) r
              ]
        ]
      ]

  export_updates-shows :
      (e e' : Exporter F) (prefix : Option GnmiPath) (us : List Update) (vs : List F) (hash : ℕ)
      (m : Metric F)
      → e.metrics hash ≡ some m
      → export_updates s e prefix us ≡ some e'
      → Shown e' hash vs (shows s m (e.history hash) (values_at s hash prefix us ++ vs))
  unfolding export_updates
  export_updates-shows e e' prefix [] vs hash m here h =
      let same : e ≡ e' = some_inj h in (m, rw (sym same) here, rw (sym same) refl)
  export_updates-shows e e' prefix (u ∷ us) vs hash m here h =
      elim (Option-cases (export_update s e prefix u)) [
        | inl none_e ↦ ground arith
        | inr (e1, some_e) ↦
            let rest = values_at s hash prefix us ++ vs in
            let (m1, here1, same1) = export_update-shows e e1 prefix u rest hash m here some_e in
            let later : export_updates s e1 prefix us ≡ some e' = ground arith in
            let (m', here', same') = export_updates-shows e1 e' prefix us vs hash m1 here1 later in
            (
              m',
              here',
              same'
                  ∙ same1
                  ∙ ap (shows s m (e.history hash)) (
                      sym
                        (append_assoc (value_at s hash prefix u) (values_at s hash prefix us) vs)),
            )
      ]

  -- `Export` on one notification after another.
  abbrev pub exports : Exporter F → List Notification → Option (Exporter F)
  exports e [] = some e
  exports e (n ∷ ns) = elim (export s e n) [ none ↦ none | some e' ↦ exports e' ns ]

  abbrev pub all_values_at : ℕ → List Notification → List F
  all_values_at hash [] = []
  all_values_at hash (n ∷ ns) = values_at s hash n.prefix n.update ++ all_values_at hash ns

  exports-Shown :
      (e e' : Exporter F) (ns : List Notification) (hash : ℕ) (m : Metric F)
      → e.metrics hash ≡ some m
      → exports e ns ≡ some e'
      → Shown e' hash [] (shows s m (e.history hash) (all_values_at hash ns))
  unfolding export
  exports-Shown e e' [] hash m here h =
      let same : e ≡ e' = some_inj h in (m, rw (sym same) here, rw (sym same) refl)
  exports-Shown e e' (n ∷ ns) hash m here h = elim (Option-cases (export s e n)) [
    | inl none_e ↦ ground arith
    | inr (e1, some_e) ↦
        let (m1, here1, same1) =
          export_updates-shows e e1 n.prefix n.update (all_values_at hash ns) hash m here some_e in
        let later : exports e1 ns ≡ some e' = ground arith in
        let (m', here', same') = exports-Shown e1 e' ns hash m1 here1 later in
        (m', here', same' ∙ same1)
  ]

  shows-nothing : (m : Metric F) (last : Option F) → shows s m last [] ≡ m
  shows-nothing (counter total) last = refl
  shows-nothing (gauge total) last = ground arith
  shows-nothing nil_metric last = refl

  -- After any notifications that are exported without a panic, a metric that was there is still there
  -- under its hash and has its kind. It shows s what the values of the updates with this hash make of it,
  -- in their order, whatever the other updates are: a counter adds every step from one value to the
  -- next that does not go down, a gauge takes the last value, unless it has the methods of a counter,
  -- and a metric that was stored as nil stays nil.
  pub exports-shows :
      (e e' : Exporter F) (ns : List Notification) (hash : ℕ) (m : Metric F)
      → e.metrics hash ≡ some m
      → exports e ns ≡ some e'
      → e'.metrics hash ≡ some (shows s m (e.history hash) (all_values_at hash ns))
  exports-shows e e' ns hash m here h =
      let (m', here', same) = exports-Shown e e' ns hash m here h in
      here' ∙ ap some (sym (shows-nothing m' (e'.history hash)) ∙ same)
