-- ===== src/Gateway/Clients.antt =====
-- Who is sent an update of the cache, and when the event handler gives up.
use gnmi_gateway.Prelude.{
  ℕ, suc, ◌≤◌, Bool, false, not, ◌||◌, some, List, [], ◌∷◌, Text, map, keep, ltb, if◌then◌else◌,
  arith, ◌≡◌, refl, Bool-cases, inl, inr,
}
use gnmi_gateway.Proto.{Notification, get_target}
use gnmi_gateway.Gateway.{
  CacheClient, send_update_to_clients, ZkEvent, disconnected, has_session, other_state,
  zookeeper_event_handler,
}

-- The client is sent what comes from the target.
abbrev pub takes : (Text → Bool) → Text → CacheClient → Bool
takes forwardable target c = not c.external || forwardable target

-- A notification is sent to every internal client, and to the external ones exactly if the gateway
-- forwards its target, in the order of the clients and without a panic.
pub send_update_to_clients_lem :
    (forwardable : Text → Bool) (clients : List CacheClient) (n : Notification)
    → send_update_to_clients forwardable clients (some n)
      ≡ (map (λ c. c.name) (keep (takes forwardable (get_target n.prefix)) clients), false)
unfolding send_update_to_clients keep
send_update_to_clients_lem forwardable [] n = refl
send_update_to_clients_lem forwardable (c ∷ clients) n =
    ground (arith, send_update_to_clients_lem forwardable clients n)

-- The largest count of disconnections without a session between them.
abbrev pub worst : ℕ → List ZkEvent → ℕ
worst count [] = count
worst count (disconnected ∷ events) = worst (suc count) events
worst count (has_session ∷ events) =
    let later = worst 0 events in if ltb later count then count else later
worst count (other_state ∷ events) = worst count events

worst-start : (count : ℕ) (events : List ZkEvent) → count ≤ worst count events
worst-start count [] = omega arith
worst-start count (disconnected ∷ events) = omega (arith, worst-start (suc count) events)
worst-start count (has_session ∷ events) = ground arith
worst-start count (other_state ∷ events) = worst-start count events

-- The event handler panics exactly if more than fifty disconnections come without a session between
-- them, and otherwise passes every event on, in order.
pub zookeeper_event_handler_lem :
    (count : ℕ) (events : List ZkEvent)
    → count ≤ 50
    → ((zookeeper_event_handler count events).1 ≡ ltb 50 (worst count events))
      × ((zookeeper_event_handler count events).1 ≡ false
          → (zookeeper_event_handler count events).0 ≡ events)
unfolding zookeeper_event_handler
zookeeper_event_handler_lem count [] low = (ground arith, λ _. refl)
zookeeper_event_handler_lem count (disconnected ∷ events) low =
    elim (Bool-cases (ltb 50 (suc count))) [
      | inl many ↦ (ground (arith, many, worst-start (suc count) events), λ e. ground (arith, many))
      | inr few ↦
          let rest = zookeeper_event_handler_lem (suc count) events (ground (arith, few)) in
          (ground (arith, few, rest.0), λ e. ground (arith, few, rest.1))
    ]
zookeeper_event_handler_lem count (has_session ∷ events) low =
    let rest = zookeeper_event_handler_lem 0 events (omega arith) in
    (ground (arith, rest.0), λ e. ground (arith, rest.1))
zookeeper_event_handler_lem count (other_state ∷ events) low =
    let rest = zookeeper_event_handler_lem count events low in
    (ground (arith, rest.0), λ e. ground (arith, rest.1))
