-- ===== src/Locking/Zookeeper/Numbers.antt =====
-- What the lowest number of a lock says of all the numbers there.
use gnmi_gateway.Prelude.{
  ℕ, ◌≤◌, ◌<◌, ℤ, pos, negsuc, Option, some, List, [], ◌∷◌, Text, All, Any, inl, inr, ◌≡◌, sym,
  subst, ◌∙◌,
}
use gnmi_gateway.Locking.Zookeeper.{lowest_of}
use gnmi_gateway.Locking.Zookeeper.Lowest.{Numbered, names, first_lowest, lowest_of_lem}

pub member :
    (P : Text × ℕ → Type 0) (d : Text × ℕ) (ds : List (Text × ℕ))
    → All P ds
    → Any (λ e. d ≡ e) ds
    → P d
member P d [] h m = absurd m
member P d (e ∷ ds) (here, h) (inl same) = subst P (sym same) here
member P d (e ∷ ds) (here, h) (inr there) = member P d ds h there

not_minus_one :
    {n : ℕ} {a b : Text} → ◌≡◌ {A = Option (ℤ × Text)} (some (negsuc 0, a)) (some (pos n, b)) → ⊥
not_minus_one e = cc

same_number :
    {n m : ℕ} {a b : Text} → ◌≡◌ {A = Option (ℤ × Text)} (some (pos n, a)) (some (pos m, b)) → n ≡ m
same_number e = cc

-- The number that `lowestSeqChild` finds is below none of those that are there, and below the next one.
pub lowest-IsFirst :
    (id : Text) (n next : ℕ) (lp : Text) (ds : List (Text × ℕ))
    → Numbered ds
    → All (λ d. d.1 < next) ds
    → lowest_of id (negsuc 0) [] (names ds) ≡ some (pos n, lp)
    → All (λ d. n ≤ d.1) ds × (n < next)
unfolding lowest_of
lowest-IsFirst id n next lp [] numbered below found = absurd (not_minus_one found)
lowest-IsFirst id n next lp (d ∷ ds) numbered below found =
    let (e, least, among) = lowest_of_lem id d ds numbered in
    let same : (first_lowest d ds).1 ≡ n = same_number (sym e ∙ found) in
    (
      subst (λ k. All (λ x. k ≤ x.1) (d ∷ ds)) same least,
      subst (λ k. k < next) same
          (member (λ x. x.1 < next) (first_lowest d ds) (d ∷ ds) below among),
    )
