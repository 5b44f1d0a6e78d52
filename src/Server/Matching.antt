-- ===== src/Server/Matching.antt =====
-- gateway/server/server.go: `addSubscription`, `Update` and the `Update` of a `matchClient`. The structure
-- of openconfig/gnmi that matches updates against queries is a record of its calls, `path.ToStrings` an
-- argument; clients have numbers.
pub mod Routing
mod Example
use gnmi_gateway.Prelude.{
  ℕ, Bool, true, false, Option, none, some, List, [], ◌∷◌, ◌++◌, Text, length, map, leb,
  if◌then◌else◌,
}
use gnmi_gateway.Proto.{GnmiPath, Update, Notification, SubscriptionList}

-- `AddQuery`, the function that it returns, and the clients that `Update` calls for a path.
pub record Match (M : Type 0) : Type 0 where
  pub add_query : M → List Text → ℕ → M
  pub remove_query : M → List Text → ℕ → M
  pub clients : M → List Text → List ℕ

-- The paths of `addSubscription` as names: a subscription without a path is skipped.
unfoldable pub subscribed_names :
    (Option GnmiPath → Bool → List Text) → List (Option GnmiPath) → List (List Text)
subscribed_names to_strings [] = []
subscribed_names to_strings (none ∷ paths) = subscribed_names to_strings paths
subscribed_names to_strings (some p ∷ paths) =
    to_strings (some p) false ∷ subscribed_names to_strings paths

-- Behind the prefix its slice has cells that `append` uses if the names fit in them. The next names
-- that fit are written over the same cells.
unfoldable pub overwrite : List Text → List Text → List Text
overwrite [] cells = cells
overwrite (name ∷ names) [] = name ∷ overwrite names []
overwrite (name ∷ names) (_ ∷ cells) = name ∷ overwrite names cells

-- The cells when all names are appended.
unfoldable pub appended_cells : ℕ → List Text → List (List Text) → List Text
appended_cells spare cells [] = cells
appended_cells spare cells (names ∷ later) =
    appended_cells spare (if leb (length names) spare then overwrite names cells else cells) later

-- As many cells as there are names.
unfoldable pub cells_of : List Text → List Text → List Text
cells_of [] cells = []
cells_of (name ∷ names) [] = []
cells_of (name ∷ names) (cell ∷ cells) = cell ∷ cells_of names cells

-- What the slice of a query holds when the cells are these.
unfoldable pub held_query : ℕ → List Text → List Text → List Text → List Text
held_query spare cells prefix names =
    prefix ++ (if leb (length names) spare then cells_of names cells else names)

-- The calls of `AddQuery`.
unfoldable pub add_queries : {M : Type 0} → Match M → M → ℕ → List (List Text) → M
add_queries k m c [] = m
add_queries k m c (q ∷ qs) = add_queries k (k.add_query m q c) c qs

unfoldable pub remove_queries : {M : Type 0} → Match M → M → ℕ → List (List Text) → M
remove_queries k m c [] = m
remove_queries k m c (q ∷ qs) = remove_queries k (k.remove_query m q c) c qs

-- `addSubscription`: every query is added with the names that it has then.
abbrev pub add_subscription :
    {M : Type 0} → (Option GnmiPath → Bool → List Text) → Match M → M → SubscriptionList → ℕ → M
add_subscription to_strings k m list c = add_queries k m c (
    map (λ names. to_strings list.prefix true ++ names)
      (subscribed_names to_strings list.subscription))

-- The function that it returns: every query is removed with what its slice holds in the end.
abbrev pub remove_subscription :
    {M : Type 0} → (Option GnmiPath → Bool → List Text) → ℕ → Match M → M → SubscriptionList → ℕ → M
remove_subscription to_strings spare k m list c =
    let names = subscribed_names to_strings list.subscription in
    let cells = appended_cells spare [] names in
    remove_queries k m c (map (held_query spare cells (to_strings list.prefix true)) names)

-- The path by which `Update` looks for clients: that of the first update, or of the first deletion, or
-- the prefix alone.
unfoldable pub update_path : (Option GnmiPath → Bool → List Text) → Notification → List Text
update_path to_strings n = elim n.update [
  | u ∷ _ ↦ to_strings n.prefix true ++ to_strings u.path false
  | [] ↦ elim n.delete [
    | d ∷ _ ↦ to_strings n.prefix true ++ to_strings (some d) false
    | [] ↦ to_strings n.prefix true
  ]
]

-- `Update`: the clients whose queues are offered the leaf.
unfoldable pub update_clients :
    {M : Type 0} → (Option GnmiPath → Bool → List Text) → Match M → M → Notification → List ℕ
update_clients to_strings k m n = k.clients m (update_path to_strings n)

-- A `matchClient` with its queue.
pub record MatchClient (Q : Type 0) : Type 0 where
  pub failed : Bool
  pub queue : Q

-- `Update` of a client. The receiver is a value, so the error of `Insert` is stored in a copy: the
-- client itself keeps the error that it has.
unfoldable pub client_update :
    {Q L : Type 0} → (Q → L → Q × Bool) → MatchClient Q → L → MatchClient Q
client_update insert c leaf =
    if c.failed then c else record { failed = c.failed; queue = (insert c.queue leaf).0 }
