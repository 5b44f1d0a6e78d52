-- ===== src/Locking/Zookeeper/Winning.antt =====
-- Who holds the lock.
use gnmi_gateway.Prelude.{
  ℕ, pos, ◌≤◌, true, none, some, List, ◌∷◌, Text, All, Any, ◌≡◌, sym, ap, ◌∙◌, some_inj,
}
use gnmi_gateway.Zookeeper.{Zk}
use gnmi_gateway.Locking.Zookeeper.{ZookeeperLock, try_lock, parse_seq, lowest_seq_child}
use gnmi_gateway.Locking.Zookeeper.Lowest.{Numbered, names, first_lowest, lowest_of_lem}
use gnmi_gateway.Locking.Zookeeper.Holding.{try_lock-IsFound}

-- The path of the lock carries its number, which is that of a node and no higher than that of any.
abbrev pub IsLowest : ZookeeperLock → List (Text × ℕ) → Type 0
IsLowest l nodes =
    (m : Text × ℕ) × (parse_seq l.lock_path ≡ some (pos m.1))
    × (l.seq ≡ pos m.1)
    × All (λ d. m.1 ≤ d.1) nodes
    × Any (λ d. m ≡ d) nodes

-- If `Try` returns true and no error, and the nodes of the lock are then these ones, each with the number in
-- its name, the lock keeps the path of a node whose number is that of one of them and the lowest of all.
pub try_lock-IsLowest :
    {S : Type 0} (zk : Zk S) (s : S) (l : ZookeeperLock) (d : Text × ℕ) (ds : List (Text × ℕ))
    → (try_lock zk s l).held ≡ true
    → (try_lock zk s l).error ≡ none
    → Numbered (d ∷ ds)
    → zk.children (try_lock zk s l).service l.id ≡ some (names (d ∷ ds))
    → IsLowest (try_lock zk s l).lock (d ∷ ds)
unfolding lowest_seq_child
try_lock-IsLowest zk s l d ds held fine numbered there =
    let (carries, q, found) = try_lock-IsFound zk s l held fine in
    let (e, least, among) = lowest_of_lem l.id d ds numbered in
    let of_nodes = rw (there, lowest_seq_child) at found in
    let same : (try_lock zk s l).lock.seq ≡ pos (first_lowest d ds).1 =
      ap (λ r. r.0) (some_inj (sym of_nodes ∙ e)) in
    (first_lowest d ds, carries ∙ ap some same, same, least, among)
