-- ===== src/Gateway.antt =====
-- gateway/gateway.go and gateway/main.go: what the gateway itself does with an update of the cache,
-- with the events of Zookeeper and with the lists of the command line.
pub mod Clients
pub mod Flags
pub mod Start
pub mod Args
pub mod Serving
pub mod Tasks
pub mod Main
mod Examples
use gnmi_gateway.Prelude.{
  ℕ, suc, Bool, true, false, not, Option, none, some, List, [], ◌∷◌, ◌++◌, Text, ◌==◌, ltb, split,
  trim, is_space, if◌then◌else◌,
}
use gnmi_gateway.Proto.{Notification, get_target}

-- `CacheClient`: its name, and whether it is an exporter outside the cluster.
pub record CacheClient : Type 0 where
  pub name : Text
  pub external : Bool

-- `sendUpdateToClients`: the names of the clients that are sent the leaf, and whether the loop panics,
-- as it does for an external client if the leaf holds no notification.
unfoldable pub send_update_to_clients :
    (Text → Bool) → List CacheClient → Option Notification → List Text × Bool
send_update_to_clients forwardable [] leaf = ([], false)
send_update_to_clients forwardable (c ∷ clients) leaf =
    let (sent, panicked) = send_update_to_clients forwardable clients leaf in
    if not c.external then (c.name ∷ sent, panicked) else elim leaf [
      | none ↦ ([], true)
      | some n ↦
          if forwardable (get_target n.prefix) then (c.name ∷ sent, panicked) else (sent, panicked)
    ]

-- The states of Zookeeper that the event handler tells apart.
pub data ZkEvent : Type 0 where
  disconnected has_session other_state : ZkEvent

-- `zookeeperEventHandler`, from `disconnectedCount`: the events that are passed on to the listeners,
-- and whether it panics.
unfoldable pub zookeeper_event_handler : ℕ → List ZkEvent → List ZkEvent × Bool
zookeeper_event_handler count [] = ([], false)
zookeeper_event_handler count (disconnected ∷ events) =
    let (passed, panicked) = zookeeper_event_handler (suc count) events in
    if ltb 50 (suc count) then ([], true) else (disconnected ∷ passed, panicked)
zookeeper_event_handler count (has_session ∷ events) =
    let (passed, panicked) = zookeeper_event_handler 0 events in (has_session ∷ passed, panicked)
zookeeper_event_handler count (other_state ∷ events) =
    let (passed, panicked) = zookeeper_event_handler count events in
    (other_state ∷ passed, panicked)

-- The loop of `cleanSplit`.
unfoldable pub clean_parts : List Text → List Text
clean_parts [] = []
clean_parts (s ∷ parts) =
    let rest = clean_parts parts in if trim is_space s == [] then rest else trim is_space s ∷ rest

-- `cleanSplit`, with the ASCII white space.
unfoldable pub clean_split : Text → List Text
clean_split text = clean_parts (split text b',')
