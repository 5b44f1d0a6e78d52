-- ===== src/Connections/Loop.antt =====
-- gateway/connections/state.go: `doConnect` up to the subscription, and the loops `connect` and
-- `connectWithLock` of several connections that share the slots of the manager. What `lock.Try`
-- answers is an argument; a step runs from one call that may block to the next.
pub mod Slots
pub mod Stopping
pub mod Locked
mod Examples
use gnmi_gateway.Prelude.{
  ℕ, zero, suc, ◌+◌, ◌-◌, Bool, true, false, not, ◌&&◌, ◌||◌, Option, none, some, List, [], ◌∷◌,
  Text, ◌==◌, codes, has, ltb, if◌then◌else◌,
}
use gnmi_gateway.Proto.{Target, Credentials, SubscribeRequest, get_target}
use gnmi_gateway.Connections.State.{ConnectionState}

-- The query that `doConnect` subscribes with; `verifies` says that the client's TLS configuration is
-- used, and not one that skips the verification.
pub record Query : Type 0 where
  pub addrs : List Text
  pub credentials : Option Credentials
  pub verifies : Bool
  pub target : Text

unfoldable pub prefix_target : Option SubscribeRequest → Text
prefix_target none = []
prefix_target (some r) = elim r.subscribe [ none ↦ [] | some list ↦ get_target list.prefix ]

-- The query of `doConnect`; `client_tls` says whether `ClientTLSConfig` is set.
unfoldable pub make_query : Bool → ConnectionState → Query
make_query client_tls t = record {
  addrs = t.target.addresses;
  credentials = t.target.credentials;
  verifies =
      client_tls
      && (not (has t.target.meta (codes "NoTLS")) && not (has t.target.meta (codes "NoTLSVerify")));
  target = if prefix_target t.request == [] then t.name else prefix_target t.request;
}

-- Where a loop is: at its head, before `lock.Try`, in `doConnect`, or at its end.
pub data Place : Type 0 where
  head locking connecting finished : Place

-- A loop with its variables. `uses_lock` tells `connectWithLock` from `connect`.
pub record Loop : Type 0 where
  pub uses_lock : Bool
  pub place : Place
  pub slot_acquired : Bool
  pub lock_acquired : Bool
  pub stopped : Bool

-- What happens to a loop: it runs on, with the answer of `lock.Try`, or it is told to stop.
pub data Input : Type 0 where
  runs : Bool → Input
  stops : Input

-- Where a loop that asked for a slot goes.
unfoldable pub after_slot : Loop → Bool → Place
after_slot c slot =
    if not slot then head else if c.uses_lock && not c.lock_acquired then locking else connecting

-- The head of a loop. `used` counts the slots that are taken; `TryAcquire` succeeds below the limit.
unfoldable pub run_head : ℕ → ℕ → Loop → ℕ × Loop
run_head limit used c =
    if c.stopped
    then (
      if c.slot_acquired then used - 1 else used,
      record c { place = finished; slot_acquired = false },
    )
    else if c.slot_acquired
    then (used, record c { place = after_slot c true })
    else if ltb used limit
    then (suc used, record c { place = after_slot c true; slot_acquired = true })
    else (used, c)

unfoldable pub loop_step : ℕ → ℕ → Loop → Input → ℕ × Loop
loop_step limit used c stops = (used, record c { stopped = true })
loop_step limit used c (runs held) = elim c.place [
  | head ↦ run_head limit used c
  | locking ↦ (used, record c { lock_acquired = held; place = if held then connecting else head })
  | connecting ↦ (used, record c { lock_acquired = false; place = head })
  | finished ↦ (used, c)
]

-- A step of the loop at a position.
unfoldable pub step_at : ℕ → ℕ → List Loop → ℕ → Input → ℕ × List Loop
step_at limit used [] i input = (used, [])
step_at limit used (c ∷ cs) zero input =
    let (used', c') = loop_step limit used c input in (used', c' ∷ cs)
step_at limit used (c ∷ cs) (suc i) input =
    let (used', cs') = step_at limit used cs i input in (used', c ∷ cs')

unfoldable pub run_loops : ℕ → ℕ → List Loop → List (ℕ × Input) → ℕ × List Loop
run_loops limit used cs [] = (used, cs)
run_loops limit used cs ((i, input) ∷ steps) =
    let (used', cs') = step_at limit used cs i input in run_loops limit used' cs' steps
