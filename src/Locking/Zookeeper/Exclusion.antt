-- ===== src/Locking/Zookeeper/Exclusion.antt =====
-- Two members that hold the lock of one target, with the numbering that Zookeeper documents.
mod Example
use gnmi_gateway.Prelude.{
  some_inj, none_not_some, true_not_false, ℕ, zero, suc, ◌+◌, ◌≤◌, ◌<◌, ℤ, pos, negsuc, eqb_ℤ,
  eqb_ℤ_iff, Bool, true, false, not, Option, none, some, List, [], ◌∷◌, Text, All, Any, All-mono,
  map, Bool-cases, Option-cases, inl, inr, ◌⊎◌, arith, ◌≡◌, ◌≢◌, refl, sym, ap, subst, ◌∙◌,
}
use gnmi_gateway.Zookeeper.{Zk}
use gnmi_gateway.Locking.Zookeeper.{
  abandon, ZookeeperLock, Tried, try_node, parse_seq, lowest_of, lowest_seq_child,
}
use gnmi_gateway.Locking.Zookeeper.Lowest.{Numbered, names}
use gnmi_gateway.Locking.Zookeeper.Numbers.{member, lowest-IsFirst}

-- Every node of the first list is in the second.
abbrev pub Among : List (Text × ℕ) → List (Text × ℕ) → Type 0
Among new old = All (λ d. Any (λ e. d ≡ e) old) new

-- What Zookeeper documents of the nodes below the path of a lock: `Children` lists them; a sequential
-- node gets the next number, which never goes down; `Delete` adds no node.
pub record IsSequential {S : Type 0} (zk : Zk S) (id : Text) : Type 0 where
  pub nodes : S → List (Text × ℕ)
  pub next : S → ℕ
  pub lists : (s : S) (cs : List Text) → zk.children s id ≡ some cs → cs ≡ names (nodes s)
  pub numbered : (s : S) → Numbered (nodes s)
  pub below : (s : S) → All (λ d. d.1 < next s) (nodes s)
  pub creates :
      (s : S) (prefix member : Text)
      → let t = (zk.create_sequential s prefix member).0 in
        ((nodes t ≡ nodes s) × (next t ≡ next s))
        ⊎ ((name : Text) × (nodes t ≡ (name, next s) ∷ nodes s) × (next t ≡ suc (next s)))
  pub deletes :
      (s : S) (path : Text)
      → let t = (zk.delete s path).0 in Among (nodes t) (nodes s) × (next s ≤ next t)

module _ {S : Type 0} (zk : Zk S) (id : Text) (z : IsSequential zk id) where
  -- The states after a state: any client creates and deletes nodes, and nodes get lost when the
  -- session of their client ends.
  pub data Later (s : S) : S → Type 0 where
    now : Later s s
    after_create :
        {t : S}
        → Later s t
        → (prefix member : Text) → Later s (zk.create_sequential t prefix member).0
    after_delete : {t : S} → Later s t → (path : Text) → Later s (zk.delete t path).0
    after_loss :
        {t : S}
        → Later s t
        → (u : S) → Among (z.nodes u) (z.nodes t)
        → z.next t ≤ z.next u
        → Later s u

  -- The node of a path is there.
  abbrev pub IsPresent : S → Text → Type 0
  IsPresent s path = Any (λ d. parse_seq path ≡ some (pos d.1)) (z.nodes s)

  -- No node has a lower number than this, nor will a new one.
  abbrev IsFirst : ℕ → S → Type 0
  IsFirst n s = All (λ d. n ≤ d.1) (z.nodes s) × (n < z.next s)

  Among-IsFirst :
      (n : ℕ) (new old : List (Text × ℕ))
      → All (λ d. n ≤ d.1) old
      → Among new old
      → All (λ d. n ≤ d.1) new
  Among-IsFirst n [] old h a = tt
  Among-IsFirst n (d ∷ new) old h (here, a) =
      (member (λ e. n ≤ e.1) d old h here, Among-IsFirst n new old h a)

  Later-IsFirst : {s t : S} (n : ℕ) → Later s t → IsFirst n s → IsFirst n t
  Later-IsFirst n now f = f
  Later-IsFirst n (after_create {t} later prefix member) f =
      let (all, low) = Later-IsFirst n later f in
      elim (z.creates t prefix member) [
        | inl (same, next) ↦ (subst (All (λ d. n ≤ d.1)) (sym same) all, rw next low)
        | inr (name, more, next) ↦
            (subst (All (λ d. n ≤ d.1)) (sym more) (omega arith, all), rw next (omega arith))
      ]
  Later-IsFirst n (after_delete {t} later path) f =
      let (all, low) = Later-IsFirst n later f in
      let (among, more) = z.deletes t path in
      (Among-IsFirst n (z.nodes (zk.delete t path).0) (z.nodes t) all among, omega arith)
  Later-IsFirst n (after_loss {t} later u among more) f =
      let (all, low) = Later-IsFirst n later f in
      (Among-IsFirst n (z.nodes u) (z.nodes t) all among, omega arith)

  held-lowest :
      (s : S) (l : ZookeeperLock) (path : Text) (n : ℕ)
      → (try_node zk s l path).held ≡ true
      → parse_seq path ≡ some (pos n)
      → (lp : Text) × (lowest_seq_child zk s l.id ≡ some (pos n, lp))
  unfolding try_node abandon
  held-lowest s l path n held number = elim (Option-cases (lowest_seq_child zk s l.id)) [
    | inl e ↦
        let not_held : (try_node zk s l path).held ≡ false = rw (try_node, number, e) refl in
        absurd (true_not_false (sym held ∙ not_held))
    | inr ((lowest, lp), e) ↦ elim (Bool-cases (eqb_ℤ (pos n) lowest)) [
      | inl same ↦ (lp, e ∙ ap (λ k. some (k, lp)) (sym ((eqb_ℤ_iff (pos n) lowest).0 same)))
      | inr other ↦
          let not_held : (try_node zk s l path).held ≡ false =
            rw (try_node, number, e, other) refl in
          absurd (true_not_false (sym held ∙ not_held))
    ]
  ]

  of_target :
      (s : S) (l : ZookeeperLock) (lp : Text) (n : ℕ)
      → l.id ≡ id
      → lowest_seq_child zk s l.id ≡ some (pos n, lp)
      → lowest_seq_child zk s id ≡ some (pos n, lp)
  of_target s l lp n of_id e = subst (λ x. lowest_seq_child zk s x ≡ some (pos n, lp)) of_id e

  held-IsFirst :
      (s : S) (l : ZookeeperLock) (path : Text) (n : ℕ)
      → l.id ≡ id
      → (try_node zk s l path).held ≡ true
      → parse_seq path ≡ some (pos n)
      → IsFirst n s
  unfolding lowest_seq_child
  held-IsFirst s l path n of_id held number =
      let (lp, e) = held-lowest s l path n held number in
      elim (Option-cases (zk.children s id)) [
        | inl none_e ↦
            absurd (
              none_not_some (sym (rw (lowest_seq_child, none_e) refl) ∙ of_target s l lp n of_id e))
        | inr (cs, some_e) ↦
            let as_names : cs ≡ names (z.nodes s) = z.lists s cs some_e in
            let found : lowest_of id (negsuc 0) [] (names (z.nodes s)) ≡ some (pos n, lp) =
              subst (λ x. lowest_of id (negsuc 0) [] x ≡ some (pos n, lp)) as_names
                (sym (rw (lowest_seq_child, some_e) refl) ∙ of_target s l lp n of_id e) in
            lowest-IsFirst id n (z.next s) lp (z.nodes s) (z.numbered s) (z.below s) found
      ]

  Present-IsFirst :
      (n m : ℕ) (path : Text) (ds : List (Text × ℕ))
      → All (λ d. n ≤ d.1) ds
      → Any (λ d. parse_seq path ≡ some (pos d.1)) ds
      → parse_seq path ≡ some (pos m)
      → n ≤ m
  Present-IsFirst n m path [] all present number = absurd present
  Present-IsFirst n m path (d ∷ ds) (first, all) (inl here) number =
      let same : pos d.1 ≡ pos m = some_inj (sym here ∙ number) in ground (arith, first)
  Present-IsFirst n m path (d ∷ ds) (first, all) (inr there) number =
      Present-IsFirst n m path ds all there number

  number_of :
      (path : Text) (ds : List (Text × ℕ))
      → Any (λ d. parse_seq path ≡ some (pos d.1)) ds
      → (n : ℕ) × (parse_seq path ≡ some (pos n))
  number_of path [] present = absurd present
  number_of path (d ∷ ds) (inl here) = (d.1, here)
  number_of path (d ∷ ds) (inr there) = number_of path ds there

  held-same :
      (s1 s2 s : S) (l1 l2 : ZookeeperLock) (path1 path2 : Text)
      → l1.id ≡ id
      → l2.id ≡ id
      → (try_node zk s1 l1 path1).held ≡ true
      → (try_node zk s2 l2 path2).held ≡ true
      → Later s1 s
      → Later s2 s
      → IsPresent s path1
      → IsPresent s path2
      → parse_seq path1 ≡ parse_seq path2
  held-same s1 s2 s l1 l2 path1 path2 id1 id2 held1 held2 later1 later2 here1 here2 =
      let (n, e1) = number_of path1 (z.nodes s) here1 in
      let (m, e2) = number_of path2 (z.nodes s) here2 in
      let first1 = Later-IsFirst n later1 (held-IsFirst s1 l1 path1 n id1 held1 e1) in
      let first2 = Later-IsFirst m later2 (held-IsFirst s2 l2 path2 m id2 held2 e2) in
      let below : n ≤ m = Present-IsFirst n m path2 (z.nodes s) first1.0 here2 e2 in
      let above : m ≤ n = Present-IsFirst m n path1 (z.nodes s) first2.0 here1 e1 in
      let same : n ≡ m = omega arith in e1 ∙ ap (λ k. some (pos k)) same ∙ sym e2

  -- If two calls of Try on the same target keep nodes of different numbers, each by what it saw of
  -- Zookeeper at its own time, then at no later time both nodes are there: whatever other clients
  -- create and delete meanwhile, and whichever sessions end, the target is held through one
  -- node at most.
  pub held-exclusive :
      (s1 s2 s : S) (l1 l2 : ZookeeperLock) (path1 path2 : Text)
      → l1.id ≡ id
      → l2.id ≡ id
      → (try_node zk s1 l1 path1).held ≡ true
      → (try_node zk s2 l2 path2).held ≡ true
      → Later s1 s
      → Later s2 s
      → parse_seq path1 ≢ parse_seq path2
      → ¬ (IsPresent s path1 × IsPresent s path2)
  held-exclusive s1 s2 s l1 l2 path1 path2 id1 id2 held1 held2 later1 later2 differ (here1, here2) =
      differ (held-same s1 s2 s l1 l2 path1 path2 id1 id2 held1 held2 later1 later2 here1 here2)
