-- ===== src/Connections/Manager/Surviving.antt =====
-- What the manager does where no call panics, and where one does.
use gnmi_gateway.Prelude.{
  Bool, true, false, not, ◌&&◌, Option, none, some, List, [], ◌∷◌, ◌++◌, Text, Map, IsMap, lookup,
  insert, erase, lookup-insert, lookup-erase, ◌==◌, eq_iff, eq_refl, any, arith, ◌≡◌, refl, sym, ap,
  ◌∙◌, inl, inr, Bool-cases, Option-cases, if◌then◌else◌,
}
use gnmi_gateway.Proto.{Target, SubscribeRequest, Configuration}
use gnmi_gateway.Connections.State.{ConnectionState, equal}
use gnmi_gateway.Connections.Manager.{
  Settings, TargetConnectionControl, Effect, closes, reconnects, adds_cache, Handled, before_all,
  remove_targets, new_connection, start_effect, update_connection, insert_target, insert_targets,
}

-- The steps of the manager, if every client that they close is there.
unfoldable pub removing : Map ConnectionState → List Text → Map ConnectionState × List Effect
removing conns [] = (conns, [])
removing conns (to_remove ∷ names) = elim (lookup conns to_remove) [
  | none ↦ removing conns names
  | some _ ↦
      let (conns', effects) = removing (erase conns to_remove) names in
      (conns', closes to_remove ∷ effects)
]

unfoldable pub inserting :
    Settings
    → Map SubscribeRequest
    → Map ConnectionState
    → Text
    → Target
    → Map ConnectionState × List Effect
inserting s requests conns name config = elim (lookup conns name) [
  | some existing ↦
      if equal existing.target config
      then (conns, [])
      else (insert conns name (update_connection requests config existing), reconnects name ∷ [])
  | none ↦
      let c = new_connection s requests name config in
      (insert conns name c, adds_cache name ∷ start_effect s c ∷ [])
]

unfoldable pub inserting_targets :
    Settings
    → Map SubscribeRequest
    → Map ConnectionState
    → Map Target
    → Map ConnectionState × List Effect
inserting_targets s requests conns [] = (conns, [])
inserting_targets s requests conns ((name, config) ∷ targets) =
    let (conns', effects) = inserting s requests conns name config in
    let (conns'', later) = inserting_targets s requests conns' targets in
    (conns'', effects ++ later)

unfoldable pub inserting_all :
    Settings → Map ConnectionState → Option Configuration → Map ConnectionState × List Effect
inserting_all s conns none = (conns, [])
inserting_all s conns (some config) = inserting_targets s config.request conns config.target

unfoldable pub handling :
    Settings → Map ConnectionState → TargetConnectionControl → Map ConnectionState × List Effect
handling s conns msg =
    let (kept, closed) = removing conns msg.remove in
    let (conns', started) = inserting_all s kept msg.insert in (conns', closed ++ started)

-- A step that closes the clients of the connections that it touches: it panics only if one of these has no client,
-- and otherwise they all have one, and the step does what is expected.
abbrev pub Ends :
    Map ConnectionState
    → (Text → ConnectionState → Bool)
    → Map ConnectionState × List Effect
    → Handled
    → Type 0
Ends conns touches expected none =
    (x : Text) × (c : ConnectionState) × (lookup conns x ≡ some c)
    × (touches x c ≡ true)
    × (c.client ≡ false)
Ends conns touches expected (some r) =
    (r ≡ expected)
    × ((x : Text) (c : ConnectionState)
        → lookup conns x ≡ some c
        → touches x c ≡ true
        → c.client ≡ true)

abbrev pub is_named : List Text → Text → ConnectionState → Bool
is_named names x c = any (λ n. n == x) names

-- The target is configured anew, and differs.
abbrev pub is_changed : Map Target → Text → ConnectionState → Bool
is_changed targets x c = elim (lookup targets x) [ none ↦ false | some t ↦ not (equal c.target t) ]

Ends-missing :
    (conns : Map ConnectionState) (n : Text) (names : List Text)
    (e : Map ConnectionState × List Effect) (o : Handled)
    → lookup conns n ≡ none
    → Ends conns (is_named names) e o
    → Ends conns (is_named (n ∷ names)) e o
unfolding any
Ends-missing conns n names e none missing (x, c, there, named, bare) =
    (x, c, there, ground (arith, named), bare)
Ends-missing conns n names e (some r) missing (same, all_there) =
    (same, λ x c there named. ground (arith, eq_iff n x, all_there x c there))

Ends-closed :
    (conns : Map ConnectionState) (n : Text) (names : List Text) (d : ConnectionState)
    (e : Map ConnectionState × List Effect) (o : Handled)
    → lookup conns n ≡ some d
    → d.client ≡ true
    → Ends (erase conns n) (is_named names) e o
    → Ends conns (is_named (n ∷ names)) (e.0, closes n ∷ e.1) (before_all (closes n ∷ []) o)
unfolding any
Ends-closed conns n names d e none present client (x, c, there, named, bare) =
    (x, c, ground (arith, lookup-erase conns n x), ground (arith, named), bare)
Ends-closed conns n names d e (some r) present client (same, all_there) = (
  ap (λ q. (q.0, closes n ∷ q.1)) same,
  λ x c there named. ground (arith, eq_iff n x, lookup-erase conns n x, all_there x c),
)

pub remove-Ends :
    (conns : Map ConnectionState) (names : List Text)
    → Ends conns (is_named names) (removing conns names) (remove_targets conns names)
unfolding remove_targets removing any
remove-Ends conns [] = (refl, λ x c there named. cc)
remove-Ends conns (n ∷ names) = elim (Option-cases (lookup conns n)) [
  | inl missing ↦
      rw (missing, remove_targets, removing)
        (Ends-missing conns n names (removing conns names) (remove_targets conns names) missing
          (remove-Ends conns names))
  | inr (d, present) ↦ elim (Bool-cases d.client) [
    | inl client ↦
        rw (present, client, remove_targets, removing)
          (Ends-closed conns n names d (removing (erase conns n) names)
            (remove_targets (erase conns n) names) present client
            (remove-Ends (erase conns n) names))
    | inr bare ↦
        rw (present, bare, remove_targets, removing)
          (n, d, present, ground (arith, eq_refl n), bare)
  ]
]

inserting-other :
    (s : Settings) (requests : Map SubscribeRequest) (conns : Map ConnectionState) (name : Text)
    (config : Target) (x : Text)
    → (name == x) ≡ false
    → lookup (inserting s requests conns name config).0 x ≡ lookup conns x
unfolding inserting
inserting-other s requests conns name config x other = elim (Option-cases (lookup conns name)) [
  | inl missing ↦
      rw (missing, inserting)
        (ground (arith, lookup-insert conns name (new_connection s requests name config) x))
  | inr (c, present) ↦ elim (Bool-cases (equal c.target config)) [
    | inl same ↦ rw (present, inserting, same) refl
    | inr differs ↦
        rw (present, inserting, differs)
          (ground (arith, lookup-insert conns name (update_connection requests config c) x))
  ]
]

insert_target-Ends :
    (s : Settings) (requests : Map SubscribeRequest) (conns : Map ConnectionState) (name : Text)
    (config : Target)
    → Ends conns
        (λ x c. name == x && not (equal c.target config))
        (inserting s requests conns name config)
        (insert_target s requests conns name config)
unfolding insert_target inserting
insert_target-Ends s requests conns name config = elim (Option-cases (lookup conns name)) [
  | inl missing ↦
      rw (missing, insert_target, inserting)
        (refl, λ x c there touched. ground (arith, eq_iff name x))
  | inr (d, present) ↦ elim (Bool-cases (equal d.target config)) [
    | inl same ↦
        rw (present, insert_target, inserting, same)
          (refl, λ x c there touched. ground (arith, eq_iff name x))
    | inr differs ↦ elim (Bool-cases d.client) [
      | inl client ↦
          rw (present, insert_target, inserting, differs, client)
            (refl, λ x c there touched. ground (arith, eq_iff name x))
      | inr bare ↦
          rw (present, insert_target, inserting, differs, bare)
            (name, d, present, ground (arith, eq_refl name, differs), bare)
    ]
  ]
]

module _ (s : Settings) (requests : Map SubscribeRequest) where
  -- The rounds behind the first one.
  abbrev Then : Map Target → Map ConnectionState × List Effect → Map ConnectionState × List Effect
  Then targets (conns, effects) =
      let (conns', later) = inserting_targets s requests conns targets in (conns', effects ++ later)

  abbrev then_insert : Map Target → Handled → Handled
  then_insert targets none = none
  then_insert targets (some (conns, effects)) =
      before_all effects (insert_targets s requests conns targets)

  Ends-behind :
      (conns : Map ConnectionState) (name : Text) (config : Target) (targets : Map Target)
      (r : Map ConnectionState × List Effect) (o : Handled)
      → lookup targets name ≡ none
      → r ≡ inserting s requests conns name config
      → ((x : Text) (c : ConnectionState)
          → lookup conns x ≡ some c
          → (name == x && not (equal c.target config)) ≡ true
          → c.client ≡ true)
      → Ends r.0 (is_changed targets) (inserting_targets s requests r.0 targets) o
      → Ends conns
          (is_changed ((name, config) ∷ targets))
          (Then targets (inserting s requests conns name config))
          (before_all r.1 o)
  unfolding lookup
  Ends-behind conns name config targets r none once same now (x, c, there, touched, bare) =
      elim (Bool-cases (name == x)) [
        | inl e ↦ ground (arith, eq_iff name x)
        | inr other ↦ (
          x,
          c,
          sym (inserting-other s requests conns name config x other)
              ∙ ap (λ q. lookup q.0 x) (sym same)
              ∙ there,
          ground (arith, other, touched),
          bare,
        )
      ]
  Ends-behind conns name config targets r (some q) once same now (rest, all_there) = (
    ap (λ q. (q.0, r.1 ++ q.1)) rest ∙ ap (Then targets) same,
    (λ x c there touched. elim (Bool-cases (name == x)) [
      | inl e ↦ now x c there (ground (arith, e, touched))
      | inr other ↦
          all_there x c
            (ap (λ q. lookup q.0 x) same
              ∙ inserting-other s requests conns name config x other
              ∙ there)
            (ground (arith, other, touched))
    ]),
  )

  insert_first :
      (conns : Map ConnectionState) (name : Text) (config : Target) (targets : Map Target)
      (o : Handled)
      → lookup targets name ≡ none
      → ((conns' : Map ConnectionState)
          → Ends conns'
              (is_changed targets)
              (inserting_targets s requests conns' targets)
              (insert_targets s requests conns' targets))
      → Ends conns
          (λ x c. name == x && not (equal c.target config))
          (inserting s requests conns name config)
          o
      → Ends conns
          (is_changed ((name, config) ∷ targets))
          (Then targets (inserting s requests conns name config))
          (then_insert targets o)
  unfolding lookup
  insert_first conns name config targets none once later (x, c, there, touched, bare) =
      (x, c, there, ground (arith, touched), bare)
  insert_first conns name config targets (some r) once later (same, now) =
      Ends-behind conns name config targets r (insert_targets s requests r.0 targets) once same now
        (later r.0)

  pub insert_targets-Ends :
      (conns : Map ConnectionState) (targets : Map Target)
      → IsMap targets
      → Ends conns
          (is_changed targets)
          (inserting_targets s requests conns targets)
          (insert_targets s requests conns targets)
  unfolding insert_targets inserting_targets lookup
  insert_targets-Ends conns [] maps = (refl, λ x c there touched. cc)
  insert_targets-Ends conns ((name, config) ∷ targets) maps =
      insert_first conns name config targets (insert_target s requests conns name config) maps.0
        (λ conns'. insert_targets-Ends conns' targets maps.1)
        (insert_target-Ends s requests conns name config)
