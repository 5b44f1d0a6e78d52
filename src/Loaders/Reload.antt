-- ===== src/Loaders/Reload.antt =====
-- A loader that watches a configuration, together with the connection manager that it tells.
use gnmi_gateway.Prelude.{
  ap, inl, inr, Option-cases, true_not_false, true, not, ◌&&◌, Option, none, some, List, [], ◌∷◌,
  Text, Map, IsMap, All, lookup, has, keys, any, any-keep, any-keys, arith, ◌≡◌, refl, ◌∙◌, sym,
  ◌==◌,
}
use gnmi_gateway.Proto.{Target, SubscribeRequest, Configuration}
use gnmi_gateway.Connections.State.{ConnectionState, equal}
use gnmi_gateway.Connections.State.Equality.{equal_iff}
use gnmi_gateway.Connections.Manager.{
  Settings, TargetConnectionControl, handle_target_control_msg, new_connection, update_connection,
  make_clients, Effect, Handled,
}
use gnmi_gateway.Connections.Manager.Reload.{handling-has, handling-fate, Targets, fate}
use gnmi_gateway.Connections.Manager.Surviving.{Ends, handling}
use gnmi_gateway.Connections.Manager.Fate.{is_touched, handle-Ends}
use gnmi_gateway.Connections.Manager.Clients.{make_clients-lookup}
use gnmi_gateway.Loaders.{watch_round, removed_names}

-- The manager's connections after a message; `none` where it has panicked.
abbrev pub deliver :
    Settings → Map ConnectionState → Option TargetConnectionControl → Option (Map ConnectionState)
deliver s conns none = some conns
deliver s conns (some msg) = elim (handle_target_control_msg s conns msg) [
  | none ↦ none
  | some r ↦ some r.0
]

-- The loader reads configurations, and the manager handles the messages it sends. By the time of each of them
-- `doConnect` has set the clients of the connections that are named with it.
abbrev pub reloads :
    Settings
    → Map ConnectionState
    → Option Configuration
    → List (List Text × Option Configuration)
    → Option (Map ConnectionState)
reloads s conns last [] = some conns
reloads s conns last ((names, config) ∷ rounds) =
    let (last', msg) = watch_round last config in
    elim (deliver s (make_clients names conns) msg) [
      | none ↦ none
      | some conns' ↦ reloads s conns' last' rounds
    ]

-- The last configuration that was read.
abbrev pub newest :
    Option Configuration → List (List Text × Option Configuration) → Option Configuration
newest last [] = last
newest last ((names, none) ∷ rounds) = newest last rounds
newest last ((names, some config) ∷ rounds) = newest (some config) rounds

-- Whenever a configuration is read, `doConnect` has set the client of every target of the one before.
abbrev pub AreReady : Option Configuration → List (List Text × Option Configuration) → Type 0
AreReady last [] = Unit
AreReady last ((names, none) ∷ rounds) = AreReady last rounds
AreReady last ((names, some config) ∷ rounds) =
    ((x : Text) → has (Targets last) x ≡ true → any (λ n. n == x) names ≡ true)
    × AreReady (some config) rounds

-- The manager connects to the targets of a configuration, each under an equal configuration.
abbrev pub Follows : Map ConnectionState → Option Configuration → Text → Type 0
Follows conns config x =
    (has conns x ≡ has (Targets config) x)
    × ((c : ConnectionState) (t : Target)
        → lookup conns x ≡ some c
        → lookup (Targets config) x ≡ some t
        → equal c.target t ≡ true)

abbrev message : Option Configuration → Configuration → TargetConnectionControl
message last config = record { insert = some config; remove = removed_names last config }

removed_names-any :
    (last : Option Configuration) (config : Configuration) (x : Text)
    → any (λ n. n == x) (removed_names last config)
      ≡ (has (Targets last) x && not (has config.target x))
unfolding removed_names any lookup
removed_names-any none config x = refl
removed_names-any (some last) config x =
    any-keep (λ name. not (has config.target name)) x (keys last.target)
    ∙ ground (arith, any-keys last.target x)

equal_refl : (t : Target) → equal t t ≡ true
equal_refl t = (equal_iff t t).1 (refl, refl)

new-target :
    (s : Settings) (requests : Map SubscribeRequest) (x : Text) (t : Target)
    → (new_connection s requests x t).target ≡ t
unfolding new_connection
new-target s requests x t = refl

-- The connection of a target after the message of a round that configures it.
fate-equal :
    (s : Settings) (msg : TargetConnectionControl) (config : Configuration) (x : Text)
    (o : Option ConnectionState) (c : ConnectionState) (t : Target)
    → msg.insert ≡ some config
    → lookup config.target x ≡ some t
    → (fate s msg x o).0 ≡ some c
    → equal c.target t ≡ true
unfolding new_connection update_connection
fate-equal s msg config x o c t i l e = ground (arith, equal_refl t)

made-Follows :
    (names : List Text) (conns : Map ConnectionState) (last : Option Configuration) (x : Text)
    → Follows conns last x
    → Follows (make_clients names conns) last x
made-Follows names conns last x f = (
  ground (arith, make_clients-lookup names conns x, f.0),
  (λ c t l m. elim (Option-cases (lookup conns x)) [
    | inl missing ↦ ground (arith, missing, make_clients-lookup names conns x)
    | inr (d, there) ↦ ground (arith, there, f.1 d t there m, make_clients-lookup names conns x)
  ]),
)

-- A round in which the manager does not panic.
deliver-Follows :
    (s : Settings) (conns : Map ConnectionState) (last : Option Configuration)
    (config : Configuration) (x : Text) (r : Map ConnectionState × List Effect)
    → IsMap config.target
    → r ≡ handling s conns (message last config)
    → Follows conns last x
    → Follows r.0 (some config) x
deliver-Follows s conns last config x r map_config same f = (
  ap (λ q. has q.0 x) same
      ∙ handling-has s conns (message last config) x map_config
      ∙ ground (arith, f.0, removed_names-any last config x),
  (λ c t l m. fate-equal s (message last config) config x (lookup conns x) c t refl m (
      sym (handling-fate s conns (message last config) x map_config).0
      ∙ ap (λ q. lookup q.0 x) (sym same)
      ∙ l)),
)

-- The end of a run: the manager has panicked although not all clients were there, or it follows.
abbrev pub HasFollowed :
    Option Configuration
    → List (List Text × Option Configuration)
    → Option (Map ConnectionState)
    → Type 0
HasFollowed last rounds none = AreReady last rounds → ⊥
HasFollowed last rounds (some conns) = (x : Text) → Follows conns (newest last rounds) x

-- A client that the message needs is there.
ready-client :
    (names : List Text) (conns : Map ConnectionState) (last : Option Configuration) (x : Text)
    (c : ConnectionState)
    → Follows conns last x
    → (has (Targets last) x ≡ true → any (λ n. n == x) names ≡ true)
    → lookup (make_clients names conns) x ≡ some c
    → c.client ≡ true
ready-client names conns last x c f ready there =
    ground (arith, make_clients-lookup names conns x, f.0, ready)

-- The rounds behind one in which a configuration is read.
after_message :
    (s : Settings) (names : List Text) (conns : Map ConnectionState) (last : Option Configuration)
    (config : Configuration) (rounds : List (List Text × Option Configuration)) (o : Handled)
    → IsMap config.target
    → ((x : Text) → Follows conns last x)
    → Ends
        (make_clients names conns)
        (is_touched (message last config))
        (handling s (make_clients names conns) (message last config))
        o
    → ((conns' : Map ConnectionState)
        → ((x : Text) → Follows conns' (some config) x)
        → HasFollowed (some config) rounds (reloads s conns' (some config) rounds))
    → HasFollowed last
        ((names, some config) ∷ rounds)
        (elim (elim o as (λ _. Option (Map ConnectionState)) [ none ↦ none | some r ↦ some r.0 ]) [
          | none ↦ none
          | some conns' ↦ reloads s conns' (some config) rounds
        ])
after_message s names conns last config rounds none map_config f (x, c, there, touched, bare)
      later =
    λ ready.
      absurd
        (true_not_false (sym (ready-client names conns last x c (f x) (ready.0 x) there) ∙ bare))
after_message s names conns last config rounds (some r) map_config f (same, all_there) later =
    behind (reloads s r.0 (some config) rounds) (
      later r.0 (λ x.
        deliver-Follows s (make_clients names conns) last config x r map_config same
          (made-Follows names conns last x (f x))))
  where
    behind :
        (o : Option (Map ConnectionState))
        → HasFollowed (some config) rounds o
        → HasFollowed last ((names, some config) ∷ rounds) o
    behind none h = λ ready. h ready.1
    behind (some conns') h = h

reloads-Follows_from :
    (s : Settings) (conns : Map ConnectionState) (last : Option Configuration)
    (rounds : List (List Text × Option Configuration))
    → All (λ round. IsMap (Targets round.1)) rounds
    → ((x : Text) → Follows conns last x)
    → HasFollowed last rounds (reloads s conns last rounds)
unfolding watch_round
reloads-Follows_from s conns last [] maps f = f
reloads-Follows_from s conns last ((names, none) ∷ rounds) maps f =
    failed (reloads s (make_clients names conns) last rounds) (
      reloads-Follows_from s (make_clients names conns) last rounds maps.1
        (λ x. made-Follows names conns last x (f x)))
  where
    failed :
        (o : Option (Map ConnectionState))
        → HasFollowed last rounds o
        → HasFollowed last ((names, none) ∷ rounds) o
    failed none h = h
    failed (some conns') h = h
reloads-Follows_from s conns last ((names, some config) ∷ rounds) maps f =
    after_message s names conns last config rounds
      (handle_target_control_msg s (make_clients names conns) (message last config)) maps.0 f
      (handle-Ends s (make_clients names conns) (message last config) maps.0)
      (λ conns' f'. reloads-Follows_from s conns' (some config) rounds maps.1 f')

-- Whatever configurations a loader reads, one after the other and with failed reads between them: the
-- manager that starts with no connections does not panic if, whenever a configuration is read,
-- `doConnect` has set the client of every target of the one before; and if it does not panic, it ends up
-- with a connection for exactly the targets of the last configuration that was read, each under a
-- configuration that `Equal` takes for the one read.
pub reloads-Follows :
    (s : Settings) (rounds : List (List Text × Option Configuration))
    → All (λ round. IsMap (Targets round.1)) rounds
    → HasFollowed none rounds (reloads s [] none rounds)
unfolding lookup
reloads-Follows s rounds maps =
    reloads-Follows_from s [] none rounds maps (λ x. (refl, λ c t l m. cc))
