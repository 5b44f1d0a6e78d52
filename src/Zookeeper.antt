-- ===== src/Zookeeper.antt =====
-- The Zookeeper client that gateway/clustering and gateway/locking call, as a parameter: a record of
-- the calls they make, on a state of the service; and the loop of gateway/clustering/zookeeper.go and
-- of gateway/locking/zookeeper.go that creates the nodes of a path.
pub mod Nodes
use gnmi_gateway.Prelude.{
  Bool, true, false, Option, none, some, List, [], ◌∷◌, ◌++◌, Text, ◌==◌, split, if◌then◌else◌,
}

-- The answers of `Create` that the code tells apart, and the path of a node that was created.
pub data Created : Type 0 where
  created : Text → Created
  no_node node_exists fails : Created

-- `Exists`, `Create`, `CreateProtectedEphemeralSequential`, `Delete`, `Children` and `Get`, and
-- whether `State` is `StateConnected` or `StateHasSession`. Of the flags of `Create`, whether the node
-- is ephemeral; `none` and `false` are errors.
pub record Zk (S : Type 0) : Type 0 where
  pub exists : S → Text → Option Bool
  pub create : S → Text → Bool → S × Created
  pub create_sequential : S → Text → Text → S × Created
  pub delete : S → Text → S × Bool
  pub children : S → Text → Option (List Text)
  pub get : S → Text → Option Text
  pub is_connected : S → Bool

-- The loop body of `createPath` for one node. The result says whether no error was met.
unfoldable pub create_node : {S : Type 0} → Zk S → S → Text → S × Bool
create_node zk s node = elim (zk.exists s node) [
  | none ↦ (s, false)
  | some true ↦ (s, true)
  | some false ↦
      let (s', answer) = zk.create s node false in
      elim answer [
        | created _ ↦ (s', true)
        | node_exists ↦ (s', true)
        | no_node ↦ (s', false)
        | fails ↦ (s', false)
      ]
]

-- `createPath`, with `pth` so far.
unfoldable pub create_path : {S : Type 0} → Zk S → S → Text → List Text → S × Bool
create_path zk s pth [] = (s, true)
create_path zk s pth (p ∷ parts) =
    let node = pth ++ b'/' ∷ p in
    let (s', made) = create_node zk s node in
    let rest = create_path zk s' node parts in
    let skipped = create_path zk s pth parts in
    if p == [] then skipped else if made then rest else (s', false)

-- `parts[:len(parts)-1]`
unfoldable pub but_last : List Text → List Text
but_last [] = []
but_last (p ∷ []) = []
but_last (p ∷ q ∷ parts) = p ∷ but_last (q ∷ parts)

-- `CreateParentPath`
unfoldable pub create_parent_path : {S : Type 0} → Zk S → S → Text → S × Bool
create_parent_path zk s path = create_path zk s [] (but_last (split path b'/'))
