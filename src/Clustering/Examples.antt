-- ===== src/Clustering/Examples.antt =====
-- The theorems about a cluster at concrete inputs, on a Zookeeper that is a list of nodes.
use gnmi_gateway.Prelude.{
  Bool, true, false, some, List, [], ◌∷◌, Text, if◌then◌else◌, arith, ◌≡◌, refl, split, join, any,
  ◌==◌, eq_refl, codes, keep, not,
}
use gnmi_gateway.Zookeeper.{Zk, Created, created, no_node, node_exists, but_last}
use gnmi_gateway.Zookeeper.Nodes.{NodeLaws}
use gnmi_gateway.Clustering.{
  Event, adds, removes, Answer, children, missing, errs, Watch, watch_run, register,
  registration_path,
}
use gnmi_gateway.Clustering.Members.{watch_run-follow, follow_all}

unfoldable tree_create : List Text → Text → Bool → List Text × Created
tree_create s n _ =
    if any (λ m. m == n) s
    then (s, node_exists)
    else if join (but_last (split n b'/')) (b'/' ∷ []) == []
    then (n ∷ s, created n)
    else if any (λ m. m == join (but_last (split n b'/')) (b'/' ∷ [])) s
    then (n ∷ s, created n)
    else (s, no_node)

abbrev tree : Zk (List Text)
tree = record {
  exists = λ s n. some (any (λ m. m == n) s);
  create = tree_create;
  create_sequential = λ s n _. (n ∷ s, created n);
  delete = λ s n. (keep (λ m. not (m == n)) s, true);
  children = λ s _. some s;
  get = λ _ _. some [];
  is_connected = λ _. true;
}

tree_laws : NodeLaws tree
unfolding tree_create any
tree_laws = record {
  is_node = λ s n. any (λ m. m == n) s;
  exists_says = λ s n h. ground arith;
  made_is = λ s n e h. ground (arith, eq_refl n);
  create_keeps = λ s n m e h. ground arith;
}

abbrev parts : List Text
parts = codes "gateway" ∷ codes "members" ∷ []

abbrev answers : List Answer
answers =
    children (codes "a" ∷ codes "b" ∷ [])
    ∷ errs
    ∷ children (codes "b" ∷ codes "c" ∷ [])
    ∷ missing false
    ∷ children (codes "c" ∷ codes "a" ∷ [])
    ∷ []

-- `b` came and went, `c` is still there, and `a` is the member itself.
abbrev told : List Event
told = adds (codes "b") ∷ adds (codes "c") ∷ removes (codes "b") ∷ []

watch_run-follow_example : follow_all false (codes "c") told ≡ true
unfolding watch_run any ◌==◌ gnmi_gateway.Clustering.watch_step gnmi_gateway.Clustering.watch_round
    keep gnmi_gateway.Clustering.member_id_in_slice
watch_run-follow_example =
    watch_run-follow (codes "a") (codes "c") answers
      (record { previous = codes "c" ∷ []; errors = 0 }) told refl refl
