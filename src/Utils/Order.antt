-- ===== src/Utils/Order.antt =====
-- The text of a path does not depend on the order in which Go visits its maps.
use gnmi_gateway.Prelude.{
  some, List, [], ◌∷◌, ◌++◌, Text, Map, IsMap, lookup, sorted_keys, sorted_keys-same, map,
  map-congr, join, codes, eq_refl, arith, ◌≡◌, refl, ap, ◌∙◌,
}
use gnmi_gateway.Proto.{PathElem, GnmiPath}
use gnmi_gateway.Utils.{key_value, keys_text, elem_keys, elems_text, path_to_xpath}

-- Two lists stand for one Go map.
pub record SameMap (m n : Map Text) : Type 0 where
  pub left_map : IsMap m
  pub right_map : IsMap n
  pub same : (k : Text) → lookup m k ≡ lookup n k

abbrev pub SameElems : List PathElem → List PathElem → Type 0
SameElems [] [] = Unit
SameElems [] (_ ∷ _) = ⊥
SameElems (_ ∷ _) [] = ⊥
SameElems (e ∷ es) (f ∷ fs) =
    (e.name ≡ f.name) × SameMap (elem_keys e) (elem_keys f) × SameElems es fs

pub record SamePath (p q : GnmiPath) : Type 0 where
  pub same_origin : p.origin ≡ q.origin
  pub same_target : p.target ≡ q.target
  pub same_elems : SameElems p.elem q.elem

abbrev pair_text : Map Text → Text → Text
pair_text m key = key ++ b'=' ∷ key_value m key

pair_texts-same :
    (m n : Map Text)
    → SameMap m n
    → map (pair_text m) (sorted_keys m) ≡ map (pair_text n) (sorted_keys n)
pair_texts-same m n s =
    ap (map (pair_text m)) (sorted_keys-same m n s.left_map s.right_map s.same)
    ∙ map-congr (pair_text m) (pair_text n) (sorted_keys n) (λ k. ground (arith, s.same k))

pub keys_text-same : (m n : Map Text) → SameMap m n → keys_text m ≡ keys_text n
unfolding keys_text lookup
keys_text-same [] [] s = refl
keys_text-same [] ((k, v) ∷ n) s = ground (arith, s.same k, eq_refl k)
keys_text-same ((k, v) ∷ m) [] s = ground (arith, s.same k, eq_refl k)
keys_text-same ((k, v) ∷ m) ((j, w) ∷ n) s =
    ap (λ ps. b'[' ∷ join ps (codes " ") ++ codes "]") (pair_texts-same ((k, v) ∷ m) ((j, w) ∷ n) s)

elems_text-same : (es fs : List PathElem) → SameElems es fs → elems_text es ≡ elems_text fs
unfolding elems_text
elems_text-same [] [] s = refl
elems_text-same [] (f ∷ fs) s = absurd s
elems_text-same (e ∷ es) [] s = absurd s
elems_text-same (e ∷ es) (f ∷ fs) (name, keys, rest) =
    rw (name, keys_text-same (elem_keys e) (elem_keys f) keys, elems_text-same es fs rest) refl

-- Two paths that differ at most in the order of the keys of their elements have the same text.
pub path_to_xpath-same :
    (p q : GnmiPath) → SamePath p q → path_to_xpath (some p) ≡ path_to_xpath (some q)
unfolding path_to_xpath
path_to_xpath-same p q s =
    rw (s.same_origin, s.same_target, elems_text-same p.elem q.elem s.same_elems) refl
