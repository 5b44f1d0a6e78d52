-- ===== src/Clustering/Registration.antt =====
-- What `Register` leaves in Zookeeper.
use gnmi_gateway.Prelude.{true, [], Text, arith, ◌≡◌, split}
use gnmi_gateway.Zookeeper.{Zk, create_path, create_parent_path, but_last}
use gnmi_gateway.Zookeeper.Nodes.{NodeLaws, create_path-keeps}
use gnmi_gateway.Clustering.{register}

-- A registration that meets no error leaves the member's node in Zookeeper, and keeps every node that
-- was there; an attempt that fails keeps every node too.
pub register-exists :
    {S : Type 0} (zk : Zk S) (laws : NodeLaws zk) (s : S) (path m : Text)
    → ((register zk s path).1 ≡ true → laws.is_node (register zk s path).0 path ≡ true)
      × (laws.is_node s m ≡ true → laws.is_node (register zk s path).0 m ≡ true)
unfolding register create_parent_path
register-exists {S = S} zk laws s path m =
    let s1 : S = (zk.create s path true).0 in
    let parts = but_last (split path b'/') in
    let s2 : S = (create_path zk s1 [] parts).0 in
    (
      λ ok. ground (arith, laws.made_is s path true, laws.made_is s2 path true),
      λ here. ground (
        arith,
        laws.create_keeps s path m true here,
        create_path-keeps zk laws s1 [] parts m,
        laws.create_keeps s2 path m true,
      ),
    )
