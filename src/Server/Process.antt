-- ===== src/Server/Process.antt =====
-- gateway/server/server.go: how a subscription reads the cache. `path.CompletePath` and the cache's
-- `Query` are arguments: a query answers with the leaves it visits, of which some have no value, and
-- says whether it ends without an error. The queue of the subscription stays open throughout.
pub mod Sync
use gnmi_gateway.Prelude.{
  ℕ, Bool, true, false, Option, none, some, List, [], ◌∷◌, ◌++◌, Text, if◌then◌else◌,
}
use gnmi_gateway.Proto.{GnmiPath, SubscriptionList}

-- What the queue holds.
pub data Entry (L : Type 0) : Type 0 where
  entry : L → Entry L
  sync : Entry L

pub record Source (L : Type 0) : Type 0 where
  pub complete_path : Option GnmiPath → Option GnmiPath → Option (List Text)
  pub query : Text → List Text → List (Option L) × Bool

-- The visits of a query: a leaf without a value is passed over.
unfoldable pub visit : {L : Type 0} → List (Option L) → List (Entry L)
visit [] = []
visit (none ∷ leaves) = visit leaves
visit (some l ∷ leaves) = entry l ∷ visit leaves

-- The loop over the subscriptions; the Boolean says whether no error was met.
unfoldable pub process_paths :
    {L : Type 0}
    → Source L
    → Text
    → Option GnmiPath
    → List (Option GnmiPath)
    → List (Entry L)
    → List (Entry L) × Bool
process_paths s target prefix [] queue = (queue, true)
process_paths s target prefix (path ∷ paths) queue = elim (s.complete_path prefix path) [
  | none ↦ (queue, false)
  | some full ↦
      let (leaves, ok) = s.query target full in
      let rest = process_paths s target prefix paths (queue ++ visit leaves) in
      if ok then rest else (queue ++ visit leaves, false)
]

-- `processSubscription`: the queue, and whether it ends without an error.
unfoldable pub process_subscription :
    {L : Type 0} → Source L → Text → SubscriptionList → List (Entry L) → List (Entry L) × Bool
process_subscription s target list queue =
    let (queue', ok) = process_paths s target list.prefix list.subscription queue in
    if list.updates_only
    then (queue ++ sync ∷ [], true)
    else if ok
    then (queue' ++ sync ∷ [], true)
    else (queue', false)

-- What `stream.Recv` answers to a polling subscription.
pub data Poll : Type 0 where
  trigger eof errs : Poll

-- How a polling subscription ends: its queue is closed after an error, the client is done, or the
-- client's error is passed on. `waits` means that it waits for the client.
pub data PollEnd : Type 0 where
  closed done passes waits : PollEnd

-- The loop of `processPollingSubscription`, after a subscription was processed.
unfoldable pub poll_loop :
    {L : Type 0}
    → Source L
    → Text
    → SubscriptionList
    → List (Entry L) × Bool
    → List Poll
    → List (Entry L) × PollEnd
poll_loop s target list (queue, ok) [] = (queue, if ok then waits else closed)
poll_loop s target list (queue, ok) (poll ∷ polls) =
    let again = poll_loop s target list (process_subscription s target list queue) polls in
    if ok
    then elim poll [ trigger ↦ again | eof ↦ (queue, done) | errs ↦ (queue, passes) ]
    else (queue, closed)

-- `processPollingSubscription`
unfoldable pub process_polling :
    {L : Type 0} → Source L → Text → SubscriptionList → List Poll → List (Entry L) × PollEnd
process_polling s target list polls =
    poll_loop s target list (process_subscription s target list []) polls
