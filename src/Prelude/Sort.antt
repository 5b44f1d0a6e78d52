-- ===== src/Prelude/Sort.antt =====
-- `sort.Strings`, and that the sorted keys of a Go map do not depend on the order in which it is
-- visited.
use mathlib.Core.Path.{◌≡◌, refl, ap}
use mathlib.Core.Logic.{inl, inr}
use mathlib.Core.Bool.{true, false}
use mathlib.Core.List.{List, [], ◌∷◌}
use mathlib.Core.Option.{none}
use native.Mathlib.Omega.{arith}
use gnmi_gateway.Prelude.Tests.{if◌then◌else◌, Bool-cases}
use gnmi_gateway.Prelude.Lists.{All, Any, All-mono}
use gnmi_gateway.Prelude.Strings.{Text, text_leb, ◌==◌, eq_iff, eq_refl}
use gnmi_gateway.Prelude.Maps.{Map, IsMap, lookup, erase, has, keys, lookup-erase, erase-IsMap}

pub text_leb_refl : (s : Text) → text_leb s s ≡ true
unfolding text_leb
text_leb_refl [] = refl
text_leb_refl (c ∷ s) = ground (arith, text_leb_refl s)

text_leb_total : (s t : Text) → text_leb s t ≡ false → text_leb t s ≡ true
unfolding text_leb
text_leb_total [] t h = ground arith
text_leb_total (c ∷ s) [] h = refl
text_leb_total (c ∷ s) (d ∷ t) h = ground (arith, text_leb_total s t)

text_leb_antisymm : (s t : Text) → text_leb s t ≡ true → text_leb t s ≡ true → s ≡ t
unfolding text_leb
text_leb_antisymm [] [] h k = refl
text_leb_antisymm [] (d ∷ t) h k = ground arith
text_leb_antisymm (c ∷ s) [] h k = ground arith
text_leb_antisymm (c ∷ s) (d ∷ t) h k = ground (arith, text_leb_antisymm s t)

text_leb_trans : (s t u : Text) → text_leb s t ≡ true → text_leb t u ≡ true → text_leb s u ≡ true
unfolding text_leb
text_leb_trans [] t u h k = refl
text_leb_trans (c ∷ s) [] u h k = ground arith
text_leb_trans (c ∷ s) (d ∷ t) [] h k = ground arith
text_leb_trans (c ∷ s) (d ∷ t) (e ∷ u) h k = ground (arith, text_leb_trans s t u)

-- A text put in its place in an ascending list.
unfoldable pub insert_text : Text → List Text → List Text
insert_text x [] = x ∷ []
insert_text x (y ∷ ys) =
    let rest = insert_text x ys in if text_leb x y then x ∷ y ∷ ys else y ∷ rest

-- `sort.Strings`
unfoldable pub sort_texts : List Text → List Text
sort_texts [] = []
sort_texts (x ∷ xs) = insert_text x (sort_texts xs)

insert_text_comm :
    (a b : Text) (l : List Text) → insert_text a (insert_text b l) ≡ insert_text b (insert_text a l)
unfolding insert_text
insert_text_comm a b [] = ground (arith, text_leb_total a b, text_leb_antisymm a b)
insert_text_comm a b (y ∷ ys) = ground (
  arith,
  text_leb_total a b,
  text_leb_antisymm a b,
  text_leb_trans a b y,
  text_leb_trans b a y,
  text_leb_total b a,
  insert_text_comm a b ys,
)

-- The first of the sorted texts: none of them comes before it.
pub sort_texts-least :
    (x : Text) (xs : List Text)
    → (least : Text) × (rest : List Text) × (sort_texts (x ∷ xs) ≡ least ∷ rest)
      × All (λ y. text_leb least y ≡ true) (x ∷ xs)
      × Any (λ y. least ≡ y) (x ∷ xs)
unfolding sort_texts insert_text
sort_texts-least x [] = (x, [], refl, (text_leb_refl x, tt), inl refl)
sort_texts-least x (y ∷ ys) =
    let (least, rest, e, all, found) = sort_texts-least y ys in
    elim (Bool-cases (text_leb x least)) [
      | inl below ↦ (
        x,
        least ∷ rest,
        ground (arith, e, below),
        (
          text_leb_refl x,
          All-mono (λ z. text_leb least z ≡ true) (λ z. text_leb x z ≡ true) (y ∷ ys)
              (λ z h. text_leb_trans x least z below h) all,
        ),
        inl refl,
      )
      | inr above ↦ (
        least,
        insert_text x rest,
        ground (arith, e, above),
        (text_leb_total x least above, all),
        inr found,
      )
    ]

module _ {ℓ} {V : Type ℓ} where
  abbrev pub sorted_keys : Map V → List Text
  sorted_keys m = sort_texts (keys m)

  erase-absent : (m : Map V) (k : Text) → lookup m k ≡ none → erase m k ≡ m
  unfolding erase lookup
  erase-absent [] k h = refl
  erase-absent ((j, v) ∷ m) k h = ground (arith, erase-absent m k)

  keys-erase :
      (m : Map V) (k : Text)
      → IsMap m
      → has m k ≡ true
      → sorted_keys m ≡ insert_text k (sorted_keys (erase m k))
  unfolding sort_texts erase lookup
  keys-erase [] k h there = ground arith
  keys-erase ((j, v) ∷ m) k h there = elim (Bool-cases (j == k)) [
    | inl same ↦ let e = (eq_iff j k).0 same in rw same (cc (e, erase-absent m k (rw e at h.0)))
    | inr other ↦
        rw (other, keys-erase m k h.1 (rw other at there))
          (insert_text_comm j k (sorted_keys (erase m k)))
  ]

  -- The sorted keys are the same for two lists that stand for one map.
  pub sorted_keys-same :
      (m n : Map V)
      → IsMap m
      → IsMap n
      → ((k : Text) → lookup m k ≡ lookup n k)
      → sorted_keys m ≡ sorted_keys n
  unfolding sort_texts lookup
  sorted_keys-same [] [] hm hn same = refl
  sorted_keys-same [] ((k, v) ∷ n) hm hn same = ground (arith, same k, eq_refl k)
  sorted_keys-same ((k, v) ∷ m) n hm hn same =
      rw (keys-erase n k hn (ground (arith, same k, eq_refl k))) (
        ap (insert_text k) (
          sorted_keys-same m (erase n k) hm.1 (erase-IsMap n k hn)
            (λ j. ground (arith, same j, lookup-erase n k j, hm.0, eq_iff k j))))
