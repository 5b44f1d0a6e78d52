-- ===== src/Prelude/Lists.antt =====
-- Lists measured by native numbers, predicates over lists by recursion, and Go's loops that stop at
-- the first hit (`any`) or at the first failure (`all`).
use Prim.Native.Nat.{ℕ, suc, ◌+◌}
use mathlib.Core.Path.{◌≡◌, refl}
use mathlib.Core.Logic.{◌⊎◌, inl, inr, ◌↔◌}
use mathlib.Core.Bool.{Bool, true, false, ◌&&◌, ◌||◌}
use mathlib.Core.List.{List, [], ◌∷◌, ◌++◌, map}
use native.Mathlib.Omega.{arith}
use gnmi_gateway.Prelude.Tests.{if◌then◌else◌}

module _ {ℓ} {A : Type ℓ} where
  abbrev pub length : List A → ℕ
  length [] = 0
  length (x ∷ xs) = suc (length xs)

  abbrev pub All {κ} : (A → Type κ) → List A → Type κ
  All P [] = Unit
  All P (x ∷ xs) = P x × All P xs

  abbrev pub Any : (A → Type 0) → List A → Type 0
  Any P [] = ⊥
  Any P (x ∷ xs) = P x ⊎ Any P xs

  unfoldable pub any : (A → Bool) → List A → Bool
  any p [] = false
  any p (x ∷ xs) = p x || any p xs

  unfoldable pub all : (A → Bool) → List A → Bool
  all p [] = true
  all p (x ∷ xs) = p x && all p xs

  unfoldable pub keep : (A → Bool) → List A → List A
  keep p [] = []
  keep p (x ∷ xs) = let rest = keep p xs in if p x then x ∷ rest else rest

  pub keep-append : (p : A → Bool) (xs ys : List A) → keep p (xs ++ ys) ≡ keep p xs ++ keep p ys
  unfolding keep
  keep-append p [] ys = refl
  keep-append p (x ∷ xs) ys = ground (arith, keep-append p xs ys)

  pub length-append : (xs ys : List A) → length (xs ++ ys) ≡ length xs + length ys
  length-append [] ys = omega arith
  length-append (x ∷ xs) ys = omega (arith, length-append xs ys)

  pub All-append {κ} : (P : A → Type κ) (xs ys : List A) → All P xs → All P ys → All P (xs ++ ys)
  All-append P [] ys hx hy = hy
  All-append P (x ∷ xs) ys hx hy = (hx.0, All-append P xs ys hx.1 hy)

  pub All-mono {κ ν} :
      (P : A → Type κ) (Q : A → Type ν) (xs : List A) → ((a : A) → P a → Q a) → All P xs → All Q xs
  All-mono P Q [] f h = tt
  All-mono P Q (x ∷ xs) f h = (f x h.0, All-mono P Q xs f h.1)

  -- Functions that agree give the same list.
  pub map-congr {κ} :
      {B : Type κ} (f g : A → B) (xs : List A) → ((a : A) → f a ≡ g a) → map f xs ≡ map g xs
  map-congr f g [] h = refl
  map-congr f g (x ∷ xs) h = cc (h x, map-congr f g xs h)

module _ {ℓ} {A : Type ℓ} (P : A → Type 0) (p : A → Bool)
    (decides : (a : A) → (p a ≡ true) ↔ P a) where
  -- The early-exit loop finds a hit exactly when there is one.
  pub any_iff : (xs : List A) → (any p xs ≡ true) ↔ Any P xs
  unfolding any
  any_iff [] = ((λ e. cc), λ h. absurd h)
  any_iff (x ∷ xs) = (
    (λ e. ground (arith, any_iff xs, decides x)),
    (λ h. elim h [
      | inl a ↦ rw ((decides x).1 a) refl
      | inr b ↦ ground (arith, any_iff xs, decides x, b)
    ]),
  )

  pub all_iff : (xs : List A) → (all p xs ≡ true) ↔ All P xs
  unfolding all
  all_iff [] = ((λ e. tt), λ h. refl)
  all_iff (x ∷ xs) = (
    (λ e. (ground (arith, decides x), (all_iff xs).0 (ground (arith)))),
    (λ h. rw ((decides x).1 h.0, (all_iff xs).1 h.1) refl),
  )
