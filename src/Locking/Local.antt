-- ===== src/Locking/Local.antt =====
-- gateway/locking/local.go: `NonBlockingLock`, a `DistributedLocker` for one process, over the
-- package's `registry` (a `sync.Map`). A pointer receiver is a lock taken and returned. Several
-- locks share the registry in `System`; a call of one of them is one step.
pub mod Invariant
pub mod Exclusion
pub mod Interface
pub mod Examples
use gnmi_gateway.Prelude.{
  ℕ, Bool, true, false, Option, none, some, List, [], ◌∷◌, Text, Map, lookup, insert, erase, eqb,
  if◌then◌else◌,
}

pub record NonBlockingLock : Type 0 where
  pub acquired : Bool
  pub id : Text
  pub member : Text

pub data LockError : Type 0 where
  deadlock not_acquired : LockError

-- What the process has stored: lock ids and the members that hold them.
abbrev pub Registry : Type 0
Registry = Map Text

unfoldable pub new_non_blocking_lock : Text → Text → NonBlockingLock
new_non_blocking_lock id member = record { acquired = false; id = id; member = member }

-- The Go method returns the empty string and no error for a missing entry.
unfoldable pub get_member : Registry → Text → Text
get_member r id = elim (lookup r id) [ some val ↦ val | none ↦ [] ]

pub record TryResult : Type 0 where
  pub registry : Registry
  pub lock : NonBlockingLock
  pub held : Bool
  pub error : Option LockError

-- `LoadOrStore` finds an entry, or stores the member.
load_or_store : Registry → NonBlockingLock → TryResult
load_or_store r l = elim (lookup r l.id) [
  | some _ ↦ record { registry = r; lock = l; held = false; error = none }
  | none ↦ record {
    registry = insert r l.id l.member;
    lock = record l { acquired = true };
    held = true;
    error = none;
  }
]

unfoldable pub try : Registry → NonBlockingLock → TryResult
unfolding load_or_store
try r l =
    if l.acquired
    then record { registry = r; lock = l; held = true; error = some deadlock }
    else load_or_store r l

pub record UnlockResult : Type 0 where
  pub registry : Registry
  pub lock : NonBlockingLock
  pub error : Option LockError

unfoldable pub unlock : Registry → NonBlockingLock → UnlockResult
unlock r l =
    if l.acquired
    then record { registry = erase r l.id; lock = record l { acquired = false }; error = none }
    else record { registry = r; lock = l; error = some not_acquired }

-- The locks of a process, by number, over its registry.
pub record System : Type 0 where
  pub registry : Registry
  pub locks : ℕ → NonBlockingLock

pub data Call : Type 0 where
  tries unlocks : ℕ → Call

abbrev pub update : (ℕ → NonBlockingLock) → ℕ → NonBlockingLock → ℕ → NonBlockingLock
update f i l j = if eqb i j then l else f j

unfoldable pub step : System → Call → System
step s (tries i) =
    let r = try s.registry (s.locks i) in
    record { registry = r.registry; locks = update s.locks i r.lock }
step s (unlocks i) =
    let r = unlock s.registry (s.locks i) in
    record { registry = r.registry; locks = update s.locks i r.lock }

unfoldable pub run : System → List Call → System
run s [] = s
run s (c ∷ cs) = run (step s c) cs

-- Lock `i` is built for `ids i` and `members i`.
unfoldable pub start : (ℕ → Text) → (ℕ → Text) → System
unfolding new_non_blocking_lock
start ids members = record { registry = []; locks = λ i. new_non_blocking_lock (ids i) (members i) }
