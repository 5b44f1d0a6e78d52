-- ===== src/Locking/Local/Invariant.antt =====
-- The invariant of the local locks and their registry, over every sequence of calls.
use gnmi_gateway.Prelude.{
  ℕ, true, false, none, some, List, [], ◌∷◌, Text, lookup, has, ◌⊎◌, insert, erase, eq_iff, eq_refl,
  ◌==◌, lookup-insert, lookup-erase, eqb, arith, ◌≡◌, refl, Bool-cases, inl, inr,
}
use gnmi_gateway.Locking.Local.{
  NonBlockingLock, Registry, System, Call, tries, unlocks, try, unlock, load_or_store, not_acquired,
  update, step, run, start,
}

pub record Holder (s : System) (k m : Text) : Type 0 where
  pub index : ℕ
  pub holds : (s.locks index).acquired ≡ true
  pub at_id : (s.locks index).id ≡ k
  pub as_member : (s.locks index).member ≡ m

pub record Inv (s : System) : Type 0 where
  pub recorded :
      (i : ℕ)
      → (s.locks i).acquired ≡ true
      → lookup s.registry (s.locks i).id ≡ some (s.locks i).member
  pub unique :
      (i j : ℕ)
      → (s.locks i).acquired ≡ true
      → (s.locks j).acquired ≡ true
      → (s.locks i).id ≡ (s.locks j).id
      → i ≡ j
  pub owned : (k m : Text) → lookup s.registry k ≡ some m → Holder s k m

pub start-Inv : (ids members : ℕ → Text) → Inv (start ids members)
unfolding start lookup
start-Inv ids members = record {
  recorded = λ i h. cc;
  unique = λ i j h _ _. cc;
  owned = λ k m h. cc;
}

-- A lock that finds its id free takes it.
abbrev taken : System → ℕ → System
taken s i = record {
  registry = insert s.registry (s.locks i).id (s.locks i).member;
  locks = update s.locks i (record (s.locks i) { acquired = true });
}

-- A lock that leaves gives its id up.
abbrev left : System → ℕ → System
left s i = record {
  registry = erase s.registry (s.locks i).id;
  locks = update s.locks i (record (s.locks i) { acquired = false });
}

abbrev same : System → ℕ → System
same s i = record { registry = s.registry; locks = update s.locks i (s.locks i) }

same-Inv : (s : System) (i : ℕ) → Inv s → Inv (same s i)
same-Inv s i v = record {
  recorded = λ j h. ground (arith, v.recorded i, v.recorded j);
  unique = λ j k hj hk e. ground (arith, v.unique j k, v.unique i k, v.unique j i);
  owned = λ k m h.
      let o = v.owned k m h in
      record {
        index = o.index;
        holds = ground (arith, o.holds);
        at_id = ground (arith, o.at_id);
        as_member = ground (arith, o.as_member);
      };
}

-- An entry survives for its holder, wherever the holder is not the lock that moved.
keep-Holder :
    {s : System} (i : ℕ) (l : NonBlockingLock) (r : Registry) {k m : Text} (o : Holder s k m)
    → eqb i o.index ≡ false
    → Holder (record { registry = r; locks = update s.locks i l }) k m
keep-Holder i l r o other = record {
  index = o.index;
  holds = rw other o.holds;
  at_id = rw other o.at_id;
  as_member = rw other o.as_member;
}

taken-Inv : (s : System) (i : ℕ) → Inv s → lookup s.registry (s.locks i).id ≡ none → Inv (taken s i)
taken-Inv s i v absent = record {
  recorded = λ j h.
      rw lookup-insert (
        ground (arith, v.recorded j, eq_iff (s.locks i).id (s.locks j).id, eq_refl (s.locks i).id));
  unique = λ j k hj hk e. ground (arith, v.unique j k, v.recorded j, v.recorded k);
  owned = λ k m h. elim (Bool-cases ((s.locks i).id == k)) [
    | inl mine ↦ record {
      index = i;
      holds = ground arith;
      at_id = ground (arith, eq_iff (s.locks i).id k);
      as_member = ground (arith, rw (lookup-insert, mine) at h);
    }
    | inr other ↦
        let o = v.owned k m (rw (lookup-insert, other) at h) in
        keep-Holder i _ _ o (ground (arith, o.holds, o.at_id, eq_refl k, v.recorded o.index))
  ];
}

left-Inv : (s : System) (i : ℕ) → Inv s → (s.locks i).acquired ≡ true → Inv (left s i)
left-Inv s i v held = record {
  recorded = λ j h.
      rw lookup-erase
        (ground (arith, v.recorded j, eq_iff (s.locks i).id (s.locks j).id, v.unique i j));
  unique = λ j k hj hk e. ground (arith, v.unique j k);
  owned = λ k m h. elim (Bool-cases ((s.locks i).id == k)) [
    | inl mine ↦ cc (rw (lookup-erase, mine) at h)
    | inr other ↦
        let o = v.owned k m (rw (lookup-erase, other) at h) in
        keep-Holder i _ _ o (ground (arith, o.at_id, eq_refl k))
  ];
}

try_keeps :
    (r : Registry) (l : NonBlockingLock)
    → (l.acquired ≡ true) ⊎ (has r l.id ≡ true)
    → (try r l ≡ record (try r l) { registry = r; lock = l })
unfolding try load_or_store
try_keeps r l h = ground arith

unlock_leaves :
    (r : Registry) (l : NonBlockingLock)
    → l.acquired ≡ true
    → unlock r l
      ≡ record { registry = erase r l.id; lock = record l { acquired = false }; error = none }
unfolding unlock
unlock_leaves r l h = ground arith

unlock_keeps :
    (r : Registry) (l : NonBlockingLock)
    → l.acquired ≡ false
    → unlock r l ≡ record { registry = r; lock = l; error = some not_acquired }
unfolding unlock
unlock_keeps r l h = ground arith

try_takes :
    (r : Registry) (l : NonBlockingLock)
    → l.acquired ≡ false
    → lookup r l.id ≡ none
    → (try r l).registry ≡ insert r l.id l.member
unfolding try load_or_store
try_takes r l h e = ground arith

try_takes_lock :
    (r : Registry) (l : NonBlockingLock)
    → l.acquired ≡ false
    → lookup r l.id ≡ none
    → (try r l).lock ≡ record l { acquired = true }
unfolding try load_or_store
try_takes_lock r l h e = ground arith

pub step-Inv : (s : System) (c : Call) → Inv s → Inv (step s c)
unfolding step unlock
step-Inv s (tries i) v = elim (Bool-cases (s.locks i).acquired) [
  | inl held ↦ rw (try_keeps s.registry (s.locks i) (inl held)) (same-Inv s i v)
  | inr free ↦ elim (Bool-cases (has s.registry (s.locks i).id)) [
    | inl present ↦ rw (try_keeps s.registry (s.locks i) (inr present)) (same-Inv s i v)
    | inr gone ↦
        let absent : lookup s.registry (s.locks i).id ≡ none = ground arith in
        rw
          (
            try_takes s.registry (s.locks i) free absent,
            try_takes_lock s.registry (s.locks i) free absent,
          )
          (taken-Inv s i v absent)
  ]
]
step-Inv s (unlocks i) v = elim (Bool-cases (s.locks i).acquired) [
  | inl held ↦ rw (unlock_leaves s.registry (s.locks i) held) (left-Inv s i v held)
  | inr free ↦ rw (unlock_keeps s.registry (s.locks i) free) (same-Inv s i v)
]

pub run-Inv : (s : System) (cs : List Call) → Inv s → Inv (run s cs)
unfolding run
run-Inv s [] v = v
run-Inv s (c ∷ cs) v = run-Inv (step s c) cs (step-Inv s c v)

pub run-start-Inv : (ids members : ℕ → Text) (cs : List Call) → Inv (run (start ids members) cs)
run-start-Inv ids members cs = run-Inv _ cs (start-Inv ids members)

-- A lock keeps the id and the member that it was built with.
abbrev pub SameName : NonBlockingLock → NonBlockingLock → Type 0
SameName l l' = (l'.id ≡ l.id) × (l'.member ≡ l.member)

pub step-SameName : (s : System) (c : Call) (j : ℕ) → SameName (s.locks j) ((step s c).locks j)
unfolding step try load_or_store unlock
step-SameName s (tries i) j = ground arith
step-SameName s (unlocks i) j = ground arith

run-SameName : (s : System) (cs : List Call) (j : ℕ) → SameName (s.locks j) ((run s cs).locks j)
unfolding run
run-SameName s [] j = (refl, refl)
run-SameName s (c ∷ cs) j = ground (arith, step-SameName s c j, run-SameName (step s c) cs j)

pub run-id :
    (ids members : ℕ → Text) (cs : List Call) (j : ℕ)
    → ((run (start ids members) cs).locks j).id ≡ ids j
unfolding start
run-id ids members cs j = (run-SameName (start ids members) cs j).0

pub run-member :
    (ids members : ℕ → Text) (cs : List Call) (j : ℕ)
    → ((run (start ids members) cs).locks j).member ≡ members j
unfolding start
run-member ids members cs j = (run-SameName (start ids members) cs j).1
