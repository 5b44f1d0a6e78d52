-- ===== src/Locking/Zookeeper/Lowest.antt =====
-- The child with the lowest sequence number.
use gnmi_gateway.Prelude.{
  ℕ, ◌≤◌, pos, negsuc, some, List, [], ◌∷◌, ◌++◌, Text, All, Any, map, subst, sym, ltb,
  if◌then◌else◌, arith, ◌≡◌, refl, inl, inr, Bool-cases,
}
use gnmi_gateway.Locking.Zookeeper.{parse_seq, lowest_of}

-- The children and their sequence numbers.
abbrev pub Numbered : List (Text × ℕ) → Type 0
Numbered = All (λ c. parse_seq c.0 ≡ some (pos c.1))

abbrev pub names : List (Text × ℕ) → List Text
names = map (λ c. c.0)

-- The first child with the lowest number, among a child and those after it.
abbrev pub first_lowest : Text × ℕ → List (Text × ℕ) → Text × ℕ
first_lowest c [] = c
first_lowest c (d ∷ cs) =
    let d_first = first_lowest d cs in
    let c_first = first_lowest c cs in if ltb d.1 c.1 then d_first else c_first

pub lowest_of-first_lowest :
    (path : Text) (c : Text × ℕ) (cs : List (Text × ℕ))
    → Numbered cs
    → lowest_of path (pos c.1) (path ++ b'/' ∷ c.0) (names cs)
      ≡ some (pos (first_lowest c cs).1, path ++ b'/' ∷ (first_lowest c cs).0)
unfolding lowest_of
lowest_of-first_lowest path c [] n = refl
lowest_of-first_lowest path c (d ∷ cs) n =
    ground (arith, n.0, lowest_of-first_lowest path c cs n.1, lowest_of-first_lowest path d cs n.1)

-- No number in the list is lower.
abbrev pub IsLeast : Text × ℕ → List (Text × ℕ) → Type 0
IsLeast m cs = All (λ d. m.1 ≤ d.1) cs

pub first_lowest-IsLeast :
    (c : Text × ℕ) (cs : List (Text × ℕ)) → IsLeast (first_lowest c cs) (c ∷ cs)
first_lowest-IsLeast c [] = (omega arith, tt)
first_lowest-IsLeast c (d ∷ cs) = elim (Bool-cases (ltb d.1 c.1)) [
  | inl less ↦
      let e : first_lowest c (d ∷ cs) ≡ first_lowest d cs = ground arith in
      let (h, t) = first_lowest-IsLeast d cs in
      subst (λ m. IsLeast m (c ∷ d ∷ cs)) (sym e) (ground (arith, h), (h, t))
  | inr more ↦
      let e : first_lowest c (d ∷ cs) ≡ first_lowest c cs = ground arith in
      let (h, t) = first_lowest-IsLeast c cs in
      subst (λ m. IsLeast m (c ∷ d ∷ cs)) (sym e) (h, (ground (arith, h), t))
]

first_lowest-Mem : (c : Text × ℕ) (cs : List (Text × ℕ)) → Any (λ d. first_lowest c cs ≡ d) (c ∷ cs)
first_lowest-Mem c [] = inl refl
first_lowest-Mem c (d ∷ cs) = elim (Bool-cases (ltb d.1 c.1)) [
  | inl less ↦
      let e : first_lowest c (d ∷ cs) ≡ first_lowest d cs = ground arith in
      subst (λ m. Any (λ d. m ≡ d) (c ∷ d ∷ cs)) (sym e) (inr (first_lowest-Mem d cs))
  | inr more ↦
      let e : first_lowest c (d ∷ cs) ≡ first_lowest c cs = ground arith in
      subst (λ m. Any (λ d. m ≡ d) (c ∷ d ∷ cs)) (sym e)
        (elim (first_lowest-Mem c cs) [ inl h ↦ inl h | inr t ↦ inr (inr t) ])
]

-- If all the children of a lock carry a number and there is one, the child that `lowestSeqChild`
-- finds is among them, no child has a lower number, and the path is that of the child.
pub lowest_of_lem :
    (path : Text) (c : Text × ℕ) (cs : List (Text × ℕ))
    → Numbered (c ∷ cs)
    → let m = first_lowest c cs in
      (lowest_of path (negsuc 0) [] (names (c ∷ cs)) ≡ some (pos m.1, path ++ b'/' ∷ m.0))
      × IsLeast m (c ∷ cs)
      × Any (λ d. m ≡ d) (c ∷ cs)
unfolding lowest_of
lowest_of_lem path c cs n = (
  ground (arith, n.0, lowest_of-first_lowest path c cs n.1),
  first_lowest-IsLeast c cs,
  first_lowest-Mem c cs,
)
