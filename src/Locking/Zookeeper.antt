-- ===== src/Locking/Zookeeper.antt =====
-- gateway/locking/zookeeper.go: `ZookeeperNonBlockingLock`. The Zookeeper client is a record of its
-- calls; a method takes the lock and the state of the service and returns both.
pub mod Lowest
pub mod Numbers
pub mod Holding
pub mod Exclusion
pub mod Winning
mod Examples
use gnmi_gateway.Prelude.{
  ℕ, ℤ, pos, negsuc, eqb_ℤ, ltb_ℤ, Bool, true, false, not, ◌&&◌, ◌||◌, Option, none, some, List, [],
  ◌∷◌, ◌++◌, Text, ◌==◌, codes, split, atoi, trim, is_slash, if◌then◌else◌,
}
use gnmi_gateway.Zookeeper.{
  Zk, Created, created, no_node, node_exists, fails, create_path, but_last,
}

pub record ZookeeperLock : Type 0 where
  pub acquired : Bool
  pub member : Text
  pub id : Text
  pub lock_path : Text
  pub seq : ℤ

pub data LockError : Type 0 where
  deadlock not_locked not_connected no_parent not_created bad_sequence no_children not_deleted :
      LockError

-- `"/" + strings.Trim(id, "/")`
unfoldable pub trimmed_id : Text → Text
trimmed_id id = b'/' ∷ trim is_slash id

-- `NewZookeeperNonBlockingLock`
unfoldable pub new_lock : Text → Text → ZookeeperLock
new_lock id member = record {
  acquired = false;
  member = member;
  id = trimmed_id id;
  lock_path = [];
  seq = pos 0;
}

last_part : List Text → Text
last_part [] = []
last_part (p ∷ []) = p
last_part (p ∷ q ∷ parts) = last_part (q ∷ parts)

-- `parseSeq`
unfoldable pub parse_seq : Text → Option ℤ
unfolding last_part
parse_seq path = atoi (last_part (split path b':'))

-- The loop of `lowestSeqChild`, from `lowestSeq` and `lowestSeqPath`.
unfoldable pub lowest_of : Text → ℤ → Text → List Text → Option (ℤ × Text)
lowest_of path lowest lowest_path [] = some (lowest, lowest_path)
lowest_of path lowest lowest_path (child ∷ children) = elim (parse_seq child) [
  | none ↦ none
  | some seq ↦
      let taken = lowest_of path seq (path ++ b'/' ∷ child) children in
      let kept = lowest_of path lowest lowest_path children in
      if eqb_ℤ lowest (negsuc 0) || ltb_ℤ seq lowest then taken else kept
]

-- `lowestSeqChild`
unfoldable pub lowest_seq_child : {S : Type 0} → Zk S → S → Text → Option (ℤ × Text)
lowest_seq_child zk s path = elim (zk.children s path) [
  | none ↦ none
  | some children ↦ lowest_of path (negsuc 0) [] children
]

-- `GetMember`; `none` is an error.
unfoldable pub get_member : {S : Type 0} → Zk S → S → Text → Option Text
get_member zk s id = elim (lowest_seq_child zk s (trimmed_id id)) [
  | none ↦ none
  | some (_, path) ↦ if path == [] then some [] else zk.get s path
]

-- What `try` returns, with the state of Zookeeper and the lock after it.
pub record Tried (S : Type 0) : Type 0 where
  pub service : S
  pub lock : ZookeeperLock
  pub held : Bool
  pub error : Option LockError

refused : {S : Type 0} → S → ZookeeperLock → LockError → Tried S
refused s l e = record { service = s; lock = l; held = false; error = some e }

-- A node of the lock that is not kept is deleted; an error of `Delete` comes before the given one.
abandon : {S : Type 0} → Zk S → S → ZookeeperLock → Text → Option LockError → Tried S
abandon zk s l path error =
    let (s', deleted) = zk.delete s path in
    record {
      service = s';
      lock = l;
      held = false;
      error = if deleted then error else some not_deleted;
    }

-- `try` from the created node on.
unfoldable pub try_node : {S : Type 0} → Zk S → S → ZookeeperLock → Text → Tried S
unfolding abandon
try_node zk s l path = elim (parse_seq path) [
  | none ↦ abandon zk s l path (some bad_sequence)
  | some seq ↦ elim (lowest_seq_child zk s l.id) [
    | none ↦ abandon zk s l path (some no_children)
    | some (lowest, _) ↦ if not (eqb_ℤ seq lowest) then abandon zk s l path none else record {
      service = s;
      lock = record l { seq = seq; lock_path = path };
      held = true;
      error = none;
    }
  ]
]

abbrev lock_prefix : ZookeeperLock → Text
lock_prefix l = l.id ++ codes "/lock:"

-- The answer to the second attempt to create the node.
unfoldable pub try_created : {S : Type 0} → Zk S → S → ZookeeperLock → Created → Tried S
unfolding refused
try_created zk s l (created path) = try_node zk s l path
try_created zk s l no_node = refused s l not_created
try_created zk s l node_exists = refused s l not_created
try_created zk s l fails = refused s l not_created

-- `createParentPath`
abbrev pub create_lock_parent : {S : Type 0} → Zk S → S → Text → S × Bool
create_lock_parent zk s path = create_path zk s [] (but_last (split path b'/'))

-- The second attempt to create the node, after its parents.
unfoldable pub try_again : {S : Type 0} → Zk S → S → ZookeeperLock → Tried S
unfolding refused
try_again zk s l =
    let (s1, made) = create_lock_parent zk s (lock_prefix l) in
    let (s2, answer) = zk.create_sequential s1 (lock_prefix l) l.member in
    if not made then refused s1 l no_parent else try_created zk s2 l answer

-- The answer to the first attempt.
unfoldable pub try_answered : {S : Type 0} → Zk S → S → ZookeeperLock → Created → Tried S
unfolding refused
try_answered zk s l (created path) = try_node zk s l path
try_answered zk s l no_node = try_again zk s l
try_answered zk s l node_exists = refused s l not_created
try_answered zk s l fails = refused s l not_created

-- `try`
unfoldable pub try_inner : {S : Type 0} → Zk S → S → ZookeeperLock → Tried S
try_inner zk s l =
    if not (l.lock_path == [])
    then record { service = s; lock = l; held = true; error = some deadlock }
    else (let (s1, answer) = zk.create_sequential s (lock_prefix l) l.member in
        try_answered zk s1 l answer)

-- `Try`, without the goroutine that watches the state.
unfoldable pub try_lock : {S : Type 0} → Zk S → S → ZookeeperLock → Tried S
unfolding refused
try_lock zk s l =
    let r = try_inner zk s l in
    if zk.is_connected s
    then record r { lock = record r.lock { acquired = r.held } }
    else refused s l not_connected

-- `Unlock`, and whether it returns an error.
unfoldable pub unlock :
    {S : Type 0} → Zk S → S → ZookeeperLock → S × ZookeeperLock × Option LockError
unlock zk s l =
    let (s', deleted) = zk.delete s l.lock_path in
    if l.lock_path == []
    then (s, l, some not_locked)
    else if not deleted
    then (s', l, some not_deleted)
    else (s', record l { lock_path = []; seq = pos 0; acquired = false }, none)

-- A round of `watchState`: the lock is released once the connection is lost.
unfoldable pub watch_state : {S : Type 0} → Zk S → S → ZookeeperLock → S × ZookeeperLock
watch_state zk s l =
    let (s', l', _) = unlock zk s l in
    if l.acquired && not (zk.is_connected s) then (s', l') else (s, l)
