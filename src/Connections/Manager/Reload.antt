-- ===== src/Connections/Manager/Reload.antt =====
-- A control message treats each target by itself: the manager refines a small machine for one target.
use mathlib.Core.List.{append-nil}
use mathlib.Core.Path.{ap₂}
use gnmi_gateway.Prelude.{
  Bool, true, false, not, ◌&&◌, ◌||◌, Option, none, some, List, [], ◌∷◌, ◌++◌, Text, Map, IsMap,
  is_some, lookup, All, insert, erase, has, lookup-insert, lookup-erase, ◌==◌, eq_iff, any, keep,
  keep-append, if◌then◌else◌, arith, ◌≡◌, refl, ◌∙◌, ap, inl, inr, Bool-cases, Option-cases,
}
use gnmi_gateway.Proto.{Target, SubscribeRequest, Configuration}
use gnmi_gateway.Connections.State.{ConnectionState, equal}
use gnmi_gateway.Connections.Manager.{
  Settings, TargetConnectionControl, Effect, closes, reconnects, adds_cache, connects,
  connects_with_lock, new_connection, start_effect, update_connection,
}
use gnmi_gateway.Connections.Manager.Surviving.{
  removing, inserting, inserting_targets, inserting_all, handling,
}

abbrev pub effect_name : Effect → Text
effect_name (closes n) = n
effect_name (reconnects n) = n
effect_name (adds_cache n) = n
effect_name (connects n) = n
effect_name (connects_with_lock n _ _) = n

abbrev pub about : Text → List Effect → List Effect
about x = keep (λ e. effect_name e == x)

-- What happens to one target: its connection, and the effects that name it.
abbrev pub Fate : Type 0
Fate = Option ConnectionState × List Effect

-- A target that is named for removal is closed, if it is there.
abbrev pub removal : Text → Bool → Option ConnectionState → Fate
removal x false c = (c, [])
removal x true none = (none, [])
removal x true (some c) = (none, closes x ∷ [])

-- A configured target is started if it is new, and reconnected if its configuration differs.
abbrev pub insertion :
    Settings → Map SubscribeRequest → Text → Option Target → Option ConnectionState → Fate
insertion s requests x none c = (c, [])
insertion s requests x (some config) none =
    let c = new_connection s requests x config in (some c, adds_cache x ∷ start_effect s c ∷ [])
insertion s requests x (some config) (some c) =
    if equal c.target config
    then (some c, [])
    else (some (update_connection requests config c), reconnects x ∷ [])

abbrev pub inserted : Settings → Option Configuration → Text → Option ConnectionState → Fate
inserted s none x c = (c, [])
inserted s (some config) x c = insertion s config.request x (lookup config.target x) c

abbrev pub fate : Settings → TargetConnectionControl → Text → Option ConnectionState → Fate
fate s msg x c =
    let (kept, closed) = removal x (any (λ n. n == x) msg.remove) c in
    let (started, effects) = inserted s msg.insert x kept in (started, closed ++ effects)

abbrev pub Targets : Option Configuration → Map Target
Targets none = []
Targets (some config) = config.target

pub remove-lookup :
    (conns : Map ConnectionState) (names : List Text) (x : Text)
    → (lookup (removing conns names).0 x ≡ (removal x (any (λ n. n == x) names) (lookup conns x)).0)
      × (about x (removing conns names).1
          ≡ (removal x (any (λ n. n == x) names) (lookup conns x)).1)
unfolding removing any keep
remove-lookup conns [] x = (refl, refl)
remove-lookup conns (n ∷ names) x = elim (Option-cases (lookup conns n)) [
  | inl missing ↦ (
    ground (arith, missing, eq_iff n x, remove-lookup conns names x),
    ground (arith, missing, eq_iff n x, remove-lookup conns names x),
  )
  | inr (c, present) ↦ (
    ground (arith, eq_iff n x, remove-lookup (erase conns n) names x, lookup-erase conns n x),
    ground (arith, eq_iff n x, remove-lookup (erase conns n) names x, lookup-erase conns n x),
  )
]

about-name :
    (name x : Text) (effects : List Effect)
    → All (λ e. effect_name e ≡ name) effects
    → about x effects ≡ (if name == x then effects else [])
unfolding keep
about-name name x [] h = ground arith
about-name name x (e ∷ es) h = rw h.0 (ground (arith, about-name name x es h.1))

start_effect-name : (s : Settings) (c : ConnectionState) → effect_name (start_effect s c) ≡ c.name
unfolding start_effect
start_effect-name s c = ground arith

-- The round for `name`, seen from the target `x`.
abbrev Round : Text → Text → Fate → Map ConnectionState → Map ConnectionState × List Effect → Type 0
Round name x mine conns r =
    let f : Fate = if name == x then mine else (lookup conns x, []) in
    (lookup r.0 x ≡ f.0) × (about x r.1 ≡ f.1)

Round-keeps :
    (name x : Text) (conns : Map ConnectionState)
    → Round name x (lookup conns name, []) conns (conns, [])
unfolding keep
Round-keeps name x conns = (ground (arith, eq_iff name x), ground arith)

Round-writes :
    (name x : Text) (conns : Map ConnectionState) (c : ConnectionState) (effects : List Effect)
    → All (λ e. effect_name e ≡ name) effects
    → Round name x (some c, effects) conns (insert conns name c, effects)
Round-writes name x conns c effects named =
    (ground (arith, lookup-insert conns name c x), ground (arith, about-name name x effects named))

new-name :
    (s : Settings) (requests : Map SubscribeRequest) (name : Text) (config : Target)
    → (new_connection s requests name config).name ≡ name
unfolding new_connection
new-name s requests name config = refl

inserting-lookup :
    (s : Settings) (requests : Map SubscribeRequest) (conns : Map ConnectionState) (name : Text)
    (config : Target) (x : Text)
    → Round name x
        (insertion s requests name (some config) (lookup conns name))
        conns
        (inserting s requests conns name config)
unfolding inserting
inserting-lookup s requests conns name config x = elim (Option-cases (lookup conns name)) [
  | inl missing ↦
      let c = new_connection s requests name config in
      rw (missing, inserting)
        (Round-writes name x conns c (adds_cache name ∷ start_effect s c ∷ [])
          (refl, (start_effect-name s c ∙ new-name s requests name config, tt)))
  | inr (c, present) ↦ elim (Bool-cases (equal c.target config)) [
    | inl same ↦ rw (present, inserting, same) (rw present at (Round-keeps name x conns))
    | inr differs ↦
        rw (present, inserting, differs)
          (Round-writes name x conns (update_connection requests config c) (reconnects name ∷ [])
            (refl, tt))
  ]
]

insert-lookup :
    (s : Settings) (requests : Map SubscribeRequest) (conns : Map ConnectionState)
    (targets : Map Target) (x : Text)
    → IsMap targets
    → let r = inserting_targets s requests conns targets in
      let f = insertion s requests x (lookup targets x) (lookup conns x) in
      (lookup r.0 x ≡ f.0) × (about x r.1 ≡ f.1)
unfolding inserting_targets lookup keep
insert-lookup s requests conns [] x h = (refl, refl)
insert-lookup s requests conns ((name, config) ∷ targets) x h =
    let (conns', effects) = inserting s requests conns name config in
    let (here, here_effects) = inserting-lookup s requests conns name config x in
    let (rest, rest_effects) = insert-lookup s requests conns' targets x h.1 in
    rw
      (keep-append (λ e. effect_name e == x) effects
        (inserting_targets s requests conns' targets).1)
      (elim (Bool-cases (name == x)) [
        | inl same ↦
            let e = (eq_iff name x).0 same in
            let once : lookup targets x ≡ none = rw e at h.0 in
            let mine = rw same at here in
            let mine_effects = rw same at here_effects in
            let later = rw once at rest in
            let later_effects = rw once at rest_effects in
            rw same (cc (later, mine, e), rw (later_effects, append-nil) (cc (mine_effects, e)))
        | inr other ↦
            let kept = rw other at here in
            let quiet = rw other at here_effects in
            rw (other, quiet)
              (
                rest ∙ ap (λ o. (insertion s requests x (lookup targets x) o).0) kept,
                rest_effects ∙ ap (λ o. (insertion s requests x (lookup targets x) o).1) kept,
              )
      ])

inserted-lookup :
    (s : Settings) (conns : Map ConnectionState) (config : Option Configuration) (x : Text)
    → IsMap (Targets config)
    → let r = inserting_all s conns config in
      let f = inserted s config x (lookup conns x) in (lookup r.0 x ≡ f.0) × (about x r.1 ≡ f.1)
unfolding inserting_all keep
inserted-lookup s conns none x h = (refl, refl)
inserted-lookup s conns (some config) x h = insert-lookup s config.request conns config.target x h

-- Where no client is missing, a control message acts on each target by itself.
pub handling-fate :
    (s : Settings) (conns : Map ConnectionState) (msg : TargetConnectionControl) (x : Text)
    → IsMap (Targets msg.insert)
    → let r = handling s conns msg in
      let f = fate s msg x (lookup conns x) in (lookup r.0 x ≡ f.0) × (about x r.1 ≡ f.1)
unfolding handling
handling-fate s conns msg x h =
    let kept = removing conns msg.remove in
    let (gone, closed) = remove-lookup conns msg.remove x in
    let (there, started) = inserted-lookup s kept.0 msg.insert x h in
    (
      there ∙ ap (λ o. (inserted s msg.insert x o).0) gone,
      keep-append (λ e. effect_name e == x) kept.1 _
          ∙ ap₂ ◌++◌ closed (started ∙ ap (λ o. (inserted s msg.insert x o).1) gone),
    )

-- The targets that the manager knows after such a message are those it knew that the message does not
-- remove, and those that it inserts.
pub handling-has :
    (s : Settings) (conns : Map ConnectionState) (msg : TargetConnectionControl) (x : Text)
    → IsMap (Targets msg.insert)
    → has (handling s conns msg).0 x
      ≡ (has (Targets msg.insert) x || (has conns x && not (any (λ n. n == x) msg.remove)))
handling-has s conns msg x h = ap is_some (handling-fate s conns msg x h).0 ∙ fate-known msg.insert
  where
    removed : Bool
    removed = any (λ n. n == x) msg.remove

    fate-known :
        (config : Option Configuration)
        → is_some (inserted s config x (removal x removed (lookup conns x)).0).0
          ≡ (has (Targets config) x || (has conns x && not removed))
    fate-known none = unfold lookup in ground arith
    fate-known (some config) = ground arith
