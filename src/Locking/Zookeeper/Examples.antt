-- ===== src/Locking/Zookeeper/Examples.antt =====
-- The theorems about the Zookeeper lock at concrete inputs, on a service that knows the children of
-- one lock.
use gnmi_gateway.Prelude.{
  ℕ, pos, negsuc, Bool, true, false, Option, none, some, List, [], ◌∷◌, ◌++◌, Text, ◌==◌, codes,
  itoa, length, arith, ◌≡◌, refl, All,
}
use gnmi_gateway.Zookeeper.{Zk, created, node_exists}
use gnmi_gateway.Locking.Zookeeper.{
  ZookeeperLock, new_lock, try_lock, lowest_of, lowest_seq_child, parse_seq,
}
use gnmi_gateway.Locking.Zookeeper.Holding.{
  CreatesPaths, IsSound, tries, unlocks, calls, calls-IsSound,
}
use gnmi_gateway.Locking.Zookeeper.Winning.{IsLowest, try_lock-IsLowest}

abbrev number : List Text → Text
number s = itoa (pos (length s))

abbrev contenders : Zk (List Text)
contenders = record {
  exists = λ s n. some true;
  create = λ s n _. (s, node_exists);
  create_sequential =
      λ s prefix _. ((codes "lock:" ++ number s) ∷ s, created (b'/' ∷ prefix ++ number s));
  delete = λ s n. ([], true);
  children = λ s _. some s;
  get = λ _ _. some [];
  is_connected = λ _. true;
}

contenders-CreatesPaths : CreatesPaths contenders
unfolding ◌==◌
contenders-CreatesPaths s prefix member path e = ground arith

calls-IsSound_example : IsSound (
    calls contenders
      (new_lock (codes "/target/r1/") (codes "a"))
      (([], tries) ∷ ([], unlocks) ∷ ([], tries) ∷ []))
calls-IsSound_example =
    calls-IsSound contenders contenders-CreatesPaths (codes "/target/r1/") (codes "a")
      (([], tries) ∷ ([], unlocks) ∷ ([], tries) ∷ [])

abbrev lock : ZookeeperLock
lock = record {
  acquired = false;
  member = codes "a";
  id = codes "/target/r1";
  lock_path = [];
  seq = pos 0;
}

try_lock-IsLowest_example : IsLowest (try_lock contenders [] lock).lock ((codes "lock:0", 0) ∷ [])
unfolding try_lock gnmi_gateway.Locking.Zookeeper.try_inner ◌==◌
    gnmi_gateway.Locking.Zookeeper.try_answered gnmi_gateway.Locking.Zookeeper.try_node parse_seq
    gnmi_gateway.Prelude.atoi gnmi_gateway.Prelude.split itoa lowest_seq_child lowest_of
try_lock-IsLowest_example =
    try_lock-IsLowest contenders [] lock (codes "lock:0", 0) [] refl refl (refl, tt) refl
