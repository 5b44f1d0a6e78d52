-- ===== src/Gateway/Start/Addresses.antt =====
-- The address that `getLocalIP` picks.
use gnmi_gateway.Prelude.{
  true_not_false, sym, ◌∙◌, Bool, true, false, not, ◌&&◌, some, List, [], ◌∷◌, Text, All, Any,
  sort_texts, sort_texts-least, text_leb, arith, ◌≡◌, refl, subst, Bool-cases, ◌⊎◌, inl, inr,
}
use gnmi_gateway.Gateway.Start.{Address, no_local_ips, local_ip, ip_error, valid_ips, get_local_ip}

abbrev is_valid : Address → Bool
is_valid a = a.is_ip_net && not a.is_loopback && a.has_bytes

-- An address that may be picked.
abbrev pub IsValid : Address → Type 0
IsValid a = is_valid a ≡ true

abbrev pub IsLeast : Text → List Address → Type 0
IsLeast ip addresses =
    All (λ a. IsValid a → text_leb ip a.text ≡ true) addresses
    × Any (λ a. IsValid a × (ip ≡ a.text)) addresses

List-cases : (xs : List Text) → (xs ≡ []) ⊎ ((y : Text) × (ys : List Text) × (xs ≡ y ∷ ys))
List-cases [] = inl refl
List-cases (y ∷ ys) = inr (y, ys, refl)

valid_ips-taken :
    (a : Address) (addresses : List Address)
    → IsValid a
    → valid_ips (a ∷ addresses) ≡ a.text ∷ valid_ips addresses
unfolding valid_ips
valid_ips-taken a addresses valid = ground arith

valid_ips-left :
    (a : Address) (addresses : List Address)
    → is_valid a ≡ false
    → valid_ips (a ∷ addresses) ≡ valid_ips addresses
unfolding valid_ips
valid_ips-left a addresses other = ground arith

valid_ips-All :
    (P : Text → Type 0) (addresses : List Address)
    → All P (valid_ips addresses)
    → All (λ a. IsValid a → P a.text) addresses
valid_ips-All P [] h = tt
valid_ips-All P (a ∷ addresses) h = elim (Bool-cases (is_valid a)) [
  | inl valid ↦
      let (here, rest) = subst (All P) (valid_ips-taken a addresses valid) h in
      ((λ _. here), valid_ips-All P addresses rest)
  | inr other ↦
      let rest = subst (All P) (valid_ips-left a addresses other) h in
      ((λ valid. absurd (true_not_false (sym valid ∙ other))), valid_ips-All P addresses rest)
]

valid_ips-Any :
    (P : Text → Type 0) (addresses : List Address)
    → Any P (valid_ips addresses)
    → Any (λ a. IsValid a × P a.text) addresses
unfolding valid_ips
valid_ips-Any P [] h = h
valid_ips-Any P (a ∷ addresses) h = elim (Bool-cases (is_valid a)) [
  | inl valid ↦ elim (subst (Any P) (valid_ips-taken a addresses valid) h) [
    | inl here ↦ inl (valid, here)
    | inr there ↦ inr (valid_ips-Any P addresses there)
  ]
  | inr other ↦ inr (valid_ips-Any P addresses (subst (Any P) (valid_ips-left a addresses other) h))
]

-- Without an address that is valid, not loopback and of an IP network, `getLocalIP` fails; otherwise it
-- returns the one whose text comes first.
pub get_local_ip_lem :
    (addresses : List Address)
    → ((get_local_ip (some addresses) ≡ ip_error no_local_ips) × All (λ a. IsValid a → ⊥) addresses)
      ⊎ ((ip : Text) × (get_local_ip (some addresses) ≡ local_ip ip) × IsLeast ip addresses)
unfolding get_local_ip sort_texts
get_local_ip_lem addresses = elim (List-cases (valid_ips addresses)) [
  | inl e ↦ inl (rw (get_local_ip, e) refl, valid_ips-All (λ _. ⊥) addresses (rw e tt))
  | inr (x, xs, e) ↦
      let (least, rest, sorted, all, found) = sort_texts-least x xs in
      inr (
        least,
        rw (get_local_ip, e, sorted) refl,
        (
          valid_ips-All (λ y. text_leb least y ≡ true) addresses (rw e all),
          valid_ips-Any (λ y. least ≡ y) addresses (rw e found),
        ),
      )
]
