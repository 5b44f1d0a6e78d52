-- ===== src/Locking/Zookeeper/Exclusion/Example.antt =====
-- A Zookeeper with two nodes to give: the first member loses its session, the second one gets the lock.
use gnmi_gateway.Prelude.{
  some_inj, sym, ℕ, ℤ, suc, ◌≤◌, ◌<◌, ◌⊎◌, All, Bool-cases, Option, pos, Bool, true, false, none,
  some, List, [], ◌∷◌, Text, ◌==◌, codes, inl, inr, if◌then◌else◌, arith, ◌≡◌, ◌≢◌, refl,
}
use gnmi_gateway.Zookeeper.{Zk, Created, created, fails}
use gnmi_gateway.Locking.Zookeeper.{ZookeeperLock, try_node, parse_seq}
use gnmi_gateway.Locking.Zookeeper.Lowest.{Numbered, names}
use gnmi_gateway.Locking.Zookeeper.Exclusion.{
  Among, IsSequential, Later, now, after_create, after_loss, IsPresent, held-exclusive,
}

data Service : Type 0 where
  fresh first lost second both : Service

abbrev nodes_of : Service → List (Text × ℕ)
nodes_of fresh = []
nodes_of first = (codes "lock:0", 0) ∷ []
nodes_of lost = []
nodes_of second = (codes "lock:1", 1) ∷ []
nodes_of both = (codes "lock:1", 1) ∷ (codes "lock:0", 0) ∷ []

abbrev next_of : Service → ℕ
next_of fresh = 0
next_of first = 1
next_of lost = 1
next_of second = 2
next_of both = 2

abbrev create_in : Service → Service × Created
create_in fresh = (first, created (codes "/r1/lock:0"))
create_in first = (both, created (codes "/r1/lock:1"))
create_in lost = (second, created (codes "/r1/lock:1"))
create_in second = (second, fails)
create_in both = (both, fails)

abbrev delete_in : Service → Service
delete_in fresh = fresh
delete_in first = lost
delete_in lost = lost
delete_in second = second
delete_in both = second

abbrev service : Zk Service
service = record {
  exists = λ s n. some true;
  create = λ s n _. (s, fails);
  create_sequential = λ s _ _. create_in s;
  delete = λ s path. if path == codes "/r1/lock:0" then (delete_in s, true) else (s, false);
  children = λ s _. some (names (nodes_of s));
  get = λ _ _. some [];
  is_connected = λ _. true;
}

Numbered-nodes : (s : Service) → Numbered (nodes_of s)
unfolding parse_seq gnmi_gateway.Prelude.atoi gnmi_gateway.Prelude.split
Numbered-nodes fresh = tt
Numbered-nodes first = (refl, tt)
Numbered-nodes lost = tt
Numbered-nodes second = (refl, tt)
Numbered-nodes both = (refl, (refl, tt))

nodes_below : (s : Service) → All (λ d. d.1 < next_of s) (nodes_of s)
nodes_below fresh = tt
nodes_below first = (omega arith, tt)
nodes_below lost = tt
nodes_below second = (omega arith, tt)
nodes_below both = (omega arith, (omega arith, tt))

creates_next :
    (s : Service)
    → let t = (create_in s).0 in
      ((nodes_of t ≡ nodes_of s) × (next_of t ≡ next_of s))
      ⊎ ((name : Text) × (nodes_of t ≡ (name, next_of s) ∷ nodes_of s)
          × (next_of t ≡ suc (next_of s)))
creates_next fresh = inr (codes "lock:0", refl, refl)
creates_next first = inr (codes "lock:1", refl, refl)
creates_next lost = inr (codes "lock:1", refl, refl)
creates_next second = inl (refl, refl)
creates_next both = inl (refl, refl)

deletes_only :
    (s : Service)
    → Among (nodes_of (delete_in s)) (nodes_of s) × (next_of s ≤ next_of (delete_in s))
deletes_only fresh = (tt, omega arith)
deletes_only first = (tt, omega arith)
deletes_only lost = (tt, omega arith)
deletes_only second = ((inl refl, tt), omega arith)
deletes_only both = ((inl refl, tt), omega arith)

keeps_all : (s : Service) → Among (nodes_of s) (nodes_of s) × (next_of s ≤ next_of s)
keeps_all fresh = (tt, omega arith)
keeps_all first = ((inl refl, tt), omega arith)
keeps_all lost = (tt, omega arith)
keeps_all second = ((inl refl, tt), omega arith)
keeps_all both = ((inl refl, (inr (inl refl), tt)), omega arith)

deletes_none :
    (s : Service) (path : Text)
    → let t = (service.delete s path).0 in Among (nodes_of t) (nodes_of s) × (next_of s ≤ next_of t)
deletes_none s path = elim (Bool-cases (path == codes "/r1/lock:0")) [
  | inl same ↦ rw same (deletes_only s)
  | inr other ↦ rw other (keeps_all s)
]

service-IsSequential : IsSequential service (codes "/r1")
service-IsSequential = record {
  nodes = nodes_of;
  next = next_of;
  lists = λ s cs e. sym (some_inj e);
  numbered = Numbered-nodes;
  below = nodes_below;
  creates = λ s _ _. creates_next s;
  deletes = deletes_none;
}

abbrev lock_of : Text → ZookeeperLock
lock_of member = record {
  acquired = false;
  member = member;
  id = codes "/r1";
  lock_path = [];
  seq = pos 0;
}

holds_first : (try_node service first (lock_of (codes "a")) (codes "/r1/lock:0")).held ≡ true
unfolding try_node parse_seq gnmi_gateway.Prelude.atoi gnmi_gateway.Prelude.split
    gnmi_gateway.Locking.Zookeeper.lowest_seq_child gnmi_gateway.Locking.Zookeeper.lowest_of
holds_first = refl

holds_second : (try_node service second (lock_of (codes "b")) (codes "/r1/lock:1")).held ≡ true
unfolding try_node parse_seq gnmi_gateway.Prelude.atoi gnmi_gateway.Prelude.split
    gnmi_gateway.Locking.Zookeeper.lowest_seq_child gnmi_gateway.Locking.Zookeeper.lowest_of
holds_second = refl

zero_is_not_one : ◌≡◌ {A = Option ℤ} (some (pos 0)) (some (pos 1)) → ⊥
zero_is_not_one e = cc

differ : parse_seq (codes "/r1/lock:0") ≢ parse_seq (codes "/r1/lock:1")
unfolding parse_seq gnmi_gateway.Prelude.atoi gnmi_gateway.Prelude.split
differ e = absurd (zero_is_not_one e)

first_to_second : Later service (codes "/r1") service-IsSequential first second
unfolding service-IsSequential
first_to_second = after_create (after_loss now lost tt (omega arith)) [] []

held-exclusive_example : ¬ (
    IsPresent service (codes "/r1") service-IsSequential second (codes "/r1/lock:0")
    × IsPresent service (codes "/r1") service-IsSequential second (codes "/r1/lock:1"))
held-exclusive_example =
    held-exclusive service (codes "/r1") service-IsSequential first second second
      (lock_of (codes "a")) (lock_of (codes "b")) (codes "/r1/lock:0") (codes "/r1/lock:1") refl
      refl holds_first holds_second first_to_second now differ
