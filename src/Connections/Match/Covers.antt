-- ===== src/Connections/Match/Covers.antt =====
-- What it means that a path lies under a rejected path, without the loops of `matchPath`.
use gnmi_gateway.Prelude.{
  true, Option, none, some, List, [], ◌∷◌, ◌++◌, Text, Map, lookup, eq_iff, length, length-append,
  any_iff, all_iff, All, Any, arith, ◌≡◌, refl, ap, ◌↔◌, inl, inr, Option-cases,
}
use gnmi_gateway.Proto.{PathElem, Notification, Update, get_elem}
use gnmi_gateway.Connections.Match.{
  has_value, match_keys, match_elem, match_elems, match_path, reject_update,
}

-- Every wanted key is present, with the wanted value. No map wanted is met by any; an empty map that
-- is wanted is met by a map, also an empty one, and not by nil.
abbrev pub Entry : Map Text → Text × Text → Type 0
Entry present e = lookup present e.0 ≡ some e.1

abbrev pub KeysMatch : Option (Map Text) → Option (Map Text) → Type 0
KeysMatch none present = Unit
KeysMatch (some wanted) none = ⊥
KeysMatch (some wanted) (some present) = All (Entry present) wanted

pub record ElemMatches (p elem : PathElem) : Type 0 where
  pub same_name : p.name ≡ elem.name
  pub keys_match : KeysMatch elem.key p.key

abbrev pub Pairwise : List PathElem → List PathElem → Type 0
Pairwise [] [] = Unit
Pairwise (p ∷ ps) (e ∷ es) = ElemMatches p e × Pairwise ps es
Pairwise _ _ = ⊥

-- A first part of the path matches the rejected path element by element.
pub record Covers (path to_match : List PathElem) : Type 0 where
  pub front : List PathElem
  pub rest : List PathElem
  pub splits : path ≡ front ++ rest
  pub agrees : Pairwise front to_match

has_value_iff :
    (present : Map Text) (e : Text × Text) → (has_value present e ≡ true) ↔ Entry present e
has_value_iff present (k, v) = elim (Option-cases (lookup present k)) [
  | inl missing ↦ (λ h. ground arith, λ h. ground arith)
  | inr (ov, found) ↦ (λ h. ground (arith, eq_iff v ov), λ h. ground (arith, eq_iff v ov))
]

match_keys_iff :
    (wanted present : Option (Map Text))
    → (match_keys wanted present ≡ true) ↔ KeysMatch wanted present
unfolding match_keys
match_keys_iff none present = (λ _. tt, λ _. refl)
match_keys_iff (some wanted) none = (λ h. cc, λ h. absurd h)
match_keys_iff (some wanted) (some present) =
    all_iff (Entry present) (has_value present) (has_value_iff present) wanted

match_elem_iff : (elem p : PathElem) → (match_elem elem p ≡ true) ↔ ElemMatches p elem
match_elem_iff elem p = (
  (λ h. record {
    same_name = ground (arith, eq_iff p.name elem.name);
    keys_match = (match_keys_iff elem.key p.key).0 (ground arith);
  }),
  (λ m. ground (
    arith,
    eq_iff p.name elem.name,
    m.same_name,
    (match_keys_iff elem.key p.key).1 m.keys_match,
  )),
)

match_elems_sound :
    (path to_match : List PathElem) → match_elems path to_match ≡ true → Covers path to_match
unfolding match_elems
match_elems_sound path [] h = record { front = []; rest = path; splits = refl; agrees = tt }
match_elems_sound [] (e ∷ es) h = cc
match_elems_sound (p ∷ ps) (e ∷ es) h =
    let c = match_elems_sound ps es (ground arith) in
    record {
      front = p ∷ c.front;
      rest = c.rest;
      splits = ap (λ t. p ∷ t) c.splits;
      agrees = ((match_elem_iff e p).0 (ground arith), c.agrees);
    }

match_elems_complete :
    (front rest to_match : List PathElem)
    → Pairwise front to_match
    → match_elems (front ++ rest) to_match ≡ true
unfolding match_elems
match_elems_complete [] rest [] h = refl
match_elems_complete [] rest (e ∷ es) h = absurd h
match_elems_complete (p ∷ ps) rest [] h = refl
match_elems_complete (p ∷ ps) rest (e ∷ es) h =
    rw ((match_elem_iff e p).1 h.0) (match_elems_complete ps rest es h.1)

Pairwise-length :
    (front to_match : List PathElem) → Pairwise front to_match → length front ≡ length to_match
Pairwise-length [] [] h = refl
Pairwise-length [] (e ∷ es) h = absurd h
Pairwise-length (p ∷ ps) [] h = absurd h
Pairwise-length (p ∷ ps) (e ∷ es) h = omega (arith, Pairwise-length ps es h.1)

-- `matchPath` holds exactly if a first part of the path matches `toMatch` element by element, in name
-- and in every wanted key.
pub match_path_iff :
    (path to_match : List PathElem) → (match_path path to_match ≡ true) ↔ Covers path to_match
unfolding match_path
match_path_iff path to_match = (
  (λ h. match_elems_sound path to_match (ground arith)),
  (λ c. rw c.splits (
      ground (
        arith,
        match_elems_complete c.front c.rest to_match c.agrees,
        Pairwise-length c.front to_match c.agrees,
        length-append c.front c.rest,
      ))),
)

abbrev pub IsRejected : List (List PathElem) → Update → Type 0
IsRejected rejections u = Any (Covers (get_elem u.path)) rejections

-- A notification is rejected exactly if the path of one of its updates lies under one of the
-- configured rejections; one bad update rejects the whole notification.
pub reject_update_iff :
    (rejections : List (List PathElem)) (n : Notification)
    → (reject_update rejections n ≡ true) ↔ Any (IsRejected rejections) n.update
unfolding reject_update
reject_update_iff rejections n =
    any_iff (IsRejected rejections) _
      (λ u. any_iff (Covers (get_elem u.path)) _ (match_path_iff (get_elem u.path)) rejections)
      n.update
