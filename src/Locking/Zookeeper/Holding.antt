-- ===== src/Locking/Zookeeper/Holding.antt =====
-- When the lock is held.
use gnmi_gateway.Prelude.{
  eqb_ℤ_iff, true, false, not, none, some, List, [], ◌∷◌, Text, ◌==◌, split, arith, ◌≡◌, refl, ◌∙◌,
  ap, subst, sym, inl, inr, Bool-cases, Option-cases,
}
use gnmi_gateway.Zookeeper.{
  Zk, Created, created, no_node, node_exists, fails, create_path, but_last,
}
use gnmi_gateway.Locking.Zookeeper.{
  ZookeeperLock, new_lock, Tried, try_node, try_created, try_answered, try_again, try_inner,
  try_lock, unlock, watch_state, parse_seq, lowest_seq_child, abandon, refused, lock_prefix,
}

-- What Zookeeper documents of a node that it creates: it has a path.
abbrev pub CreatesPaths : {S : Type 0} → Zk S → Type 0
CreatesPaths {S} zk =
    (s : S) (prefix member path : Text)
    → (zk.create_sequential s prefix member).1 ≡ created path
    → (path == []) ≡ false

-- The lock counts as acquired exactly while it has a node.
abbrev pub IsSound : ZookeeperLock → Type 0
IsSound l = l.acquired ≡ not (l.lock_path == [])

pub data Call : Type 0 where
  tries unlocks watches : Call

-- Calls of one lock, each in the state in which Zookeeper is then.
abbrev pub calls : {S : Type 0} → Zk S → ZookeeperLock → List (S × Call) → ZookeeperLock
calls zk l [] = l
calls zk l ((s, tries) ∷ rest) = calls zk (try_lock zk s l).lock rest
calls zk l ((s, unlocks) ∷ rest) = calls zk (unlock zk s l).1 rest
calls zk l ((s, watches) ∷ rest) = calls zk (watch_state zk s l).1 rest

-- What `try` returns says whether the lock has a node then.
abbrev Tells : {S : Type 0} → Tried S → Type 0
Tells r = r.held ≡ not (r.lock.lock_path == [])

module _ {S : Type 0} (zk : Zk S) (names : CreatesPaths zk) where
  try_node-Tells :
      (s : S) (l : ZookeeperLock) (path : Text)
      → (path == []) ≡ false
      → (l.lock_path == []) ≡ true
      → Tells (try_node zk s l path)
  unfolding try_node abandon
  try_node-Tells s l path named free = ground (arith)

  try_created-Tells :
      (s : S) (l : ZookeeperLock) (answer : Created)
      → ((path : Text) → answer ≡ created path → (path == []) ≡ false)
      → (l.lock_path == []) ≡ true
      → Tells (try_created zk s l answer)
  unfolding try_created refused
  try_created-Tells s l (created path) named free = try_node-Tells s l path (named path refl) free
  try_created-Tells s l no_node named free = ground arith
  try_created-Tells s l node_exists named free = ground arith
  try_created-Tells s l fails named free = ground arith

  try_again-Tells :
      (s : S) (l : ZookeeperLock) → (l.lock_path == []) ≡ true → Tells (try_again zk s l)
  unfolding try_again refused
  try_again-Tells s l free =
      let s1 : S = (create_path zk s [] (but_last (split (lock_prefix l) b'/'))).0 in
      let answered =
        try_created-Tells (zk.create_sequential s1 (lock_prefix l) l.member).0 l
          (zk.create_sequential s1 (lock_prefix l) l.member).1 (names s1 (lock_prefix l) l.member)
          free in
      ground (arith, answered)

  try_answered-Tells :
      (s : S) (l : ZookeeperLock) (answer : Created)
      → ((path : Text) → answer ≡ created path → (path == []) ≡ false)
      → (l.lock_path == []) ≡ true
      → Tells (try_answered zk s l answer)
  unfolding try_answered refused
  try_answered-Tells s l (created path) named free = try_node-Tells s l path (named path refl) free
  try_answered-Tells s l no_node named free = try_again-Tells s l free
  try_answered-Tells s l node_exists named free = ground arith
  try_answered-Tells s l fails named free = ground arith

  try_inner-Tells : (s : S) (l : ZookeeperLock) → Tells (try_inner zk s l)
  unfolding try_inner
  try_inner-Tells s l = elim (Bool-cases (l.lock_path == [])) [
    | inl free ↦ rw free (
        try_answered-Tells (zk.create_sequential s (lock_prefix l) l.member).0 l
          (zk.create_sequential s (lock_prefix l) l.member).1 (names s (lock_prefix l) l.member)
          free)
    | inr taken ↦ rw taken (ground (arith, taken))
  ]

  try_lock-IsSound : (s : S) (l : ZookeeperLock) → IsSound l → IsSound (try_lock zk s l).lock
  unfolding try_lock refused
  try_lock-IsSound s l sound = ground (arith, sound, try_inner-Tells s l)

  unlock-IsSound : (s : S) (l : ZookeeperLock) → IsSound l → IsSound (unlock zk s l).1
  unfolding unlock ◌==◌
  unlock-IsSound s l sound = ground (arith, sound)

  watch_state-IsSound : (s : S) (l : ZookeeperLock) → IsSound l → IsSound (watch_state zk s l).1
  unfolding watch_state
  watch_state-IsSound s l sound = ground (arith, sound, unlock-IsSound s l sound)

  -- Whatever is called on a new lock, and in whichever states Zookeeper answers the calls, the lock
  -- counts as acquired exactly while it keeps the path of a node.
  pub calls-IsSound :
      (id member : Text) (history : List (S × Call))
      → IsSound (calls zk (new_lock id member) history)
  unfolding new_lock ◌==◌
  calls-IsSound id member history = calls_from (new_lock id member) history refl
    where
      calls_from :
          (l : ZookeeperLock) (history : List (S × Call)) → IsSound l → IsSound (calls zk l history)
      calls_from l [] sound = sound
      calls_from l ((s, tries) ∷ rest) sound =
          calls_from (try_lock zk s l).lock rest (try_lock-IsSound s l sound)
      calls_from l ((s, unlocks) ∷ rest) sound =
          calls_from (unlock zk s l).1 rest (unlock-IsSound s l sound)
      calls_from l ((s, watches) ∷ rest) sound =
          calls_from (watch_state zk s l).1 rest (watch_state-IsSound s l sound)

-- The path of the lock carries its number, which is the one that `lowestSeqChild` finds.
abbrev pub IsFound : {S : Type 0} → Zk S → Text → Tried S → Type 0
IsFound zk id r =
    (parse_seq r.lock.lock_path ≡ some r.lock.seq)
    × (q : Text) × (lowest_seq_child zk r.service id ≡ some (r.lock.seq, q))

module _ {S : Type 0} (zk : Zk S) where
  try_node-IsFound :
      (s : S) (l : ZookeeperLock) (path : Text)
      → (try_node zk s l path).held ≡ true
      → IsFound zk l.id (try_node zk s l path)
  unfolding try_node abandon
  try_node-IsFound s l path held = elim (Option-cases (parse_seq path)) [
    | inl bad ↦ ground (arith, bad)
    | inr (seq, p) ↦ elim (Option-cases (lowest_seq_child zk s l.id)) [
      | inl none_found ↦ ground (arith, p, none_found)
      | inr ((lowest, q), f) ↦
          let e = (eqb_ℤ_iff seq lowest).0 (ground (arith, p, f)) in
          let won : Tried S = record {
            service = s;
            lock = record l { seq = seq; lock_path = path };
            held = true;
            error = none;
          } in
          let made : try_node zk s l path ≡ won = ground (arith, p, f) in
          subst (IsFound zk l.id) (sym made) (p, q, f ∙ ap (λ n. some (n, q)) (sym e))
    ]
  ]

  try_created-IsFound :
      (s : S) (l : ZookeeperLock) (answer : Created)
      → (try_created zk s l answer).held ≡ true
      → IsFound zk l.id (try_created zk s l answer)
  unfolding try_created refused
  try_created-IsFound s l (created path) held = try_node-IsFound s l path held
  try_created-IsFound s l no_node held = ground arith
  try_created-IsFound s l node_exists held = ground arith
  try_created-IsFound s l fails held = ground arith

  try_again-IsFound :
      (s : S) (l : ZookeeperLock)
      → (try_again zk s l).held ≡ true
      → IsFound zk l.id (try_again zk s l)
  unfolding try_again refused
  try_again-IsFound s l held =
      let tried = create_path zk s [] (but_last (split (lock_prefix l) b'/')) in
      elim (Bool-cases tried.1) [
        | inl made ↦ rw made (
            try_created-IsFound (zk.create_sequential tried.0 (lock_prefix l) l.member).0 l
              (zk.create_sequential tried.0 (lock_prefix l) l.member).1 (rw made at held))
        | inr failed ↦ ground (arith, failed)
      ]

  try_answered-IsFound :
      (s : S) (l : ZookeeperLock) (answer : Created)
      → (try_answered zk s l answer).held ≡ true
      → IsFound zk l.id (try_answered zk s l answer)
  unfolding try_answered refused
  try_answered-IsFound s l (created path) held = try_node-IsFound s l path held
  try_answered-IsFound s l no_node held = try_again-IsFound s l held
  try_answered-IsFound s l node_exists held = ground arith
  try_answered-IsFound s l fails held = ground arith

  try_inner-IsFound :
      (s : S) (l : ZookeeperLock)
      → (try_inner zk s l).held ≡ true
      → (try_inner zk s l).error ≡ none
      → IsFound zk l.id (try_inner zk s l)
  unfolding try_inner
  try_inner-IsFound s l held fine = elim (Bool-cases (l.lock_path == [])) [
    | inl free ↦ rw free (
        try_answered-IsFound (zk.create_sequential s (lock_prefix l) l.member).0 l
          (zk.create_sequential s (lock_prefix l) l.member).1 (rw free at held))
    | inr taken ↦ ground (arith, taken)
  ]

  -- If `Try` returns true and no error, the lock keeps a node with the number that `lowestSeqChild` finds when
  -- `Try` is done.
  pub try_lock-IsFound :
      (s : S) (l : ZookeeperLock)
      → (try_lock zk s l).held ≡ true
      → (try_lock zk s l).error ≡ none
      → IsFound zk l.id (try_lock zk s l)
  unfolding try_lock refused
  try_lock-IsFound s l held fine = elim (Bool-cases (zk.is_connected s)) [
    | inl connected ↦
        rw connected (try_inner-IsFound s l (rw connected at held) (rw connected at fine))
    | inr lost ↦ ground (arith, lost)
  ]
