-- ===== src/Zookeeper/Nodes.antt =====
-- What `createPath` leaves in Zookeeper.
use gnmi_gateway.Prelude.{
  Bool, true, false, some, List, [], ◌∷◌, ◌++◌, Text, ◌==◌, if◌then◌else◌, All, arith, ◌≡◌, subst,
  sym, inl, inr, Bool-cases,
}
use gnmi_gateway.Zookeeper.{
  Zk, Created, created, no_node, node_exists, fails, create_path, create_node,
}

-- `Create` says that the node is there.
abbrev pub is_made : Created → Bool
is_made (created _) = true
is_made node_exists = true
is_made no_node = false
is_made fails = false

-- What Zookeeper documents of `Exists` and `Create`, about the nodes that are there.
pub record NodeLaws {S : Type 0} (zk : Zk S) : Type 0 where
  pub is_node : S → Text → Bool
  pub exists_says : (s : S) (n : Text) → zk.exists s n ≡ some true → is_node s n ≡ true
  pub made_is :
      (s : S) (n : Text) (e : Bool)
      → is_made (zk.create s n e).1 ≡ true
      → is_node (zk.create s n e).0 n ≡ true
  pub create_keeps :
      (s : S) (n m : Text) (e : Bool) → is_node s m ≡ true → is_node (zk.create s n e).0 m ≡ true

-- The nodes of a path, below `pth`.
abbrev pub nodes : Text → List Text → List Text
nodes pth [] = []
nodes pth (p ∷ parts) =
    if p == [] then nodes pth parts else (pth ++ b'/' ∷ p) ∷ nodes (pth ++ b'/' ∷ p) parts

create_node-keeps :
    {S : Type 0} (zk : Zk S) (laws : NodeLaws zk) (s : S) (node m : Text)
    → laws.is_node s m ≡ true
    → laws.is_node (create_node zk s node).0 m ≡ true
unfolding create_node
create_node-keeps zk laws s node m here = ground (arith, laws.create_keeps s node m false here)

create_node-exists :
    {S : Type 0} (zk : Zk S) (laws : NodeLaws zk) (s : S) (node : Text)
    → (create_node zk s node).1 ≡ true
    → laws.is_node (create_node zk s node).0 node ≡ true
unfolding create_node
create_node-exists zk laws s node ok =
    ground (arith, laws.exists_says s node, laws.made_is s node false)

-- Creating a path removes nothing.
pub create_path-keeps :
    {S : Type 0} (zk : Zk S) (laws : NodeLaws zk) (s : S) (pth : Text) (parts : List Text)
    (m : Text)
    → laws.is_node s m ≡ true
    → laws.is_node (create_path zk s pth parts).0 m ≡ true
unfolding create_path
create_path-keeps zk laws s pth [] m here = here
create_path-keeps zk laws s pth (p ∷ parts) m here =
    let node = pth ++ b'/' ∷ p in
    let made = create_node-keeps zk laws s node m here in
    ground (
      arith,
      made,
      create_path-keeps zk laws s pth parts m here,
      create_path-keeps zk laws (create_node zk s node).0 node parts m made,
    )

abbrev AllThere : {S : Type 0} (zk : Zk S) → NodeLaws zk → S × Bool → List Text → Type 0
AllThere zk laws r ns = All (λ n. laws.is_node r.0 n ≡ true) ns

-- If `createPath` meets no error, every node on the path is there afterwards.
pub create_path-exists :
    {S : Type 0} (zk : Zk S) (laws : NodeLaws zk) (s : S) (pth : Text) (parts : List Text)
    → (create_path zk s pth parts).1 ≡ true
    → All (λ n. laws.is_node (create_path zk s pth parts).0 n ≡ true) (nodes pth parts)
unfolding create_path
create_path-exists zk laws s pth [] ok = tt
create_path-exists {S = S} zk laws s pth (p ∷ parts) ok = elim (Bool-cases (p == [])) [
  | inl empty ↦
      let e : create_path zk s pth (p ∷ parts) ≡ create_path zk s pth parts = ground arith in
      let es : nodes pth (p ∷ parts) ≡ nodes pth parts = ground arith in
      rw (es) (
        subst (λ r. AllThere zk laws r (nodes pth parts)) (sym e)
          (create_path-exists zk laws s pth parts (rw empty at ok)))
  | inr named ↦
      let node = pth ++ b'/' ∷ p in
      let s1 : S = (create_node zk s node).0 in
      let made : (create_node zk s node).1 ≡ true = ground arith in
      let e : create_path zk s pth (p ∷ parts) ≡ create_path zk s1 node parts = ground arith in
      let es : nodes pth (p ∷ parts) ≡ node ∷ nodes node parts = ground arith in
      rw es (
        subst (λ r. AllThere zk laws r (node ∷ nodes node parts)) (sym e)
          (
            create_path-keeps zk laws s1 node parts node (create_node-exists zk laws s node made),
            create_path-exists zk laws s1 node parts (rw e at ok),
          ))
]
