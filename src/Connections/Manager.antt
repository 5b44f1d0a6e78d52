-- ===== src/Connections/Manager.antt =====
-- gateway/connections/zookeeper.go: `ZookeeperConnectionManager`. What the manager sets going (closing
-- a client, starting the goroutine of a connection) is a list of effects, in the order of the calls.
-- The mutex is held for a whole call, so a call is one step. `targetlib.Validate` only logs here.
pub mod Surviving
pub mod Reload
pub mod Fate
pub mod Clients
pub mod Forward
pub mod Paths
pub mod Outage
use gnmi_gateway.Prelude.{
  ℕ, ℤ, Bool, true, false, not, ◌&&◌, ◌||◌, Option, none, some, List, [], ◌∷◌, ◌++◌, Text, Map,
  lookup, insert, erase, has, ◌==◌, codes, any, is_slash, trim_right, itoa, if◌then◌else◌,
}
use gnmi_gateway.Proto.{Target, SubscribeRequest, Configuration}
use gnmi_gateway.Connections.State.{ConnectionState, equal, seen_target, no_counts, star}

-- The fields of the configuration that the manager reads, and whether it has a Zookeeper connection.
pub record Settings : Type 0 where
  pub zookeeper_prefix : Text
  pub server_address : Text
  pub server_port : ℤ
  pub zk_conn : Bool

-- `TargetConnectionControl`
pub record TargetConnectionControl : Type 0 where
  pub insert : Option Configuration
  pub remove : List Text

pub data Effect : Type 0 where
  closes reconnects adds_cache connects : Text → Effect
  connects_with_lock : Text → Text → Text → Effect

-- `MakeTargetLockPath`
unfoldable pub make_target_lock_path : Text → Text → Text
make_target_lock_path prefix target = trim_right is_slash prefix ++ (codes "/target/" ++ target)

-- `clusterMemberAddress`
unfoldable pub member_address : Settings → Text
member_address s = s.server_address ++ (codes ":" ++ itoa s.server_port)

-- What the manager knows after a step and what it set going, in the order of the calls; `none` is the
-- panic of a call of `Close` on a client that is nil, with which the process ends.
abbrev pub Handled : Type 0
Handled = Option (Map ConnectionState × List Effect)

-- Effects in front of those of a step.
abbrev pub before_all : List Effect → Handled → Handled
before_all effects none = none
before_all effects (some (conns, later)) = some (conns, effects ++ later)

-- The loop over `msg.Remove`; `disconnect` closes the client.
unfoldable pub remove_targets : Map ConnectionState → List Text → Handled
remove_targets conns [] = some (conns, [])
remove_targets conns (to_remove ∷ names) = elim (lookup conns to_remove) [
  | none ↦ remove_targets conns names
  | some conn ↦
      let rest =
        before_all (closes to_remove ∷ []) (remove_targets (erase conns to_remove) names) in
      if conn.client then rest else none
]

unfoldable pub new_connection : Settings → Map SubscribeRequest → Text → Target → ConnectionState
new_connection s requests name config = record {
  connection_lock_acquired = false;
  client = false;
  client_cancel = false;
  cluster_member = has config.meta (codes "ClusterMember");
  connected = false;
  connecting = false;
  name = name;
  no_tls_warning = false;
  query_target = [];
  request = lookup requests config.request;
  seen = [];
  stopped = false;
  synced = false;
  target = config;
  use_lock = s.zk_conn && not (has config.meta (codes "NoLock"));
  counters = no_counts;
}

-- `go connectWithLock(...)` with a lock for the target, or `go connect(...)`.
unfoldable pub start_effect : Settings → ConnectionState → Effect
start_effect s c =
    if c.use_lock
    then connects_with_lock c.name (make_target_lock_path s.zookeeper_prefix c.name)
        (member_address s)
    else connects c.name

unfoldable pub update_connection : Map SubscribeRequest → Target → ConnectionState → ConnectionState
update_connection requests config c = record c {
  target = config;
  request = lookup requests config.request;
}

-- One round of the loop over `msg.Insert.Target`; `reconnect` closes the client.
unfoldable pub insert_target :
    Settings → Map SubscribeRequest → Map ConnectionState → Text → Target → Handled
insert_target s requests conns name config = elim (lookup conns name) [
  | some existing ↦
      if equal existing.target config
      then some (conns, [])
      else if existing.client
      then some
          (insert conns name (update_connection requests config existing), reconnects name ∷ [])
      else none
  | none ↦
      let c = new_connection s requests name config in
      some (insert conns name c, adds_cache name ∷ start_effect s c ∷ [])
]

unfoldable pub insert_targets :
    Settings → Map SubscribeRequest → Map ConnectionState → Map Target → Handled
insert_targets s requests conns [] = some (conns, [])
insert_targets s requests conns ((name, config) ∷ targets) =
    elim (insert_target s requests conns name config) [
      | none ↦ none
      | some (conns', effects) ↦ before_all effects (insert_targets s requests conns' targets)
    ]

insert_all : Settings → Map ConnectionState → Option Configuration → Handled
insert_all s conns none = some (conns, [])
insert_all s conns (some config) = insert_targets s config.request conns config.target

-- `handleTargetControlMsg`
unfoldable pub handle_target_control_msg :
    Settings → Map ConnectionState → TargetConnectionControl → Handled
unfolding insert_all
handle_target_control_msg s conns msg = elim (remove_targets conns msg.remove) [
  | none ↦ none
  | some (kept, closed) ↦ before_all closed (insert_all s kept msg.insert)
]

-- `doConnect` of the connections of these names, as far as it sets the client.
unfoldable pub make_clients : List Text → Map ConnectionState → Map ConnectionState
make_clients names [] = []
make_clients names ((name, c) ∷ conns) =
    let made = record c {
      client = c.client || any (λ n. n == name) names;
      client_cancel = c.client_cancel || any (λ n. n == name) names;
    } in
    (name, made) ∷ make_clients names conns

-- The loop body of `Forwardable`.
unfoldable pub forwards : Text → Text × ConnectionState → Bool
forwards target (name, conn) =
    if conn.cluster_member
    then false
    else if conn.use_lock && not conn.connection_lock_acquired
    then false
    else conn.query_target == target || seen_target conn target

-- `Forwardable`
unfoldable pub forwardable : Map ConnectionState → Text → Bool
forwardable conns target =
    if target == star || target == [] then true else any (forwards target) conns

-- `unlock` calls `clientCancel`, which panics while it is nil.
pub data Unlocked : Type 0 where
  cancels : List Text → Unlocked
  panics : Unlocked

also : Text → Unlocked → Unlocked
also name (cancels names) = cancels (name ∷ names)
also name panics = panics

-- The loop of `eventListener` for a lost Zookeeper connection: the names whose clients are cancelled.
unfoldable pub unlock_all : Map ConnectionState → Unlocked
unfolding also
unlock_all [] = cancels []
unlock_all ((name, conn) ∷ conns) =
    let rest = unlock_all conns in
    if conn.use_lock then (if conn.client_cancel then also name rest else panics) else rest
