-- ===== src/Connections/Match.antt =====
-- gateway/connections/state.go: `rejectUpdate` and `matchPath`, which drop unwanted updates.
pub mod Covers
use gnmi_gateway.Prelude.{
  Bool, true, false, not, ◌&&◌, Option, none, some, List, [], ◌∷◌, Text, Map, lookup, ◌==◌, length,
  ltb, any, all, if◌then◌else◌,
}
use gnmi_gateway.Proto.{PathElem, Notification, Update, get_elem}

-- `ov, exists := path[i].Key[k]`, and the two tests on it.
abbrev pub has_value : Map Text → Text × Text → Bool
has_value present (k, v) = elim (lookup present k) [ none ↦ false | some ov ↦ v == ov ]

-- The keys wanted against the keys present; a nil map is `none`.
unfoldable pub match_keys : Option (Map Text) → Option (Map Text) → Bool
match_keys none present = true
match_keys (some wanted) none = false
match_keys (some wanted) (some present) = all (has_value present) wanted

abbrev pub match_elem : PathElem → PathElem → Bool
match_elem elem p = if not (p.name == elem.name) then false else match_keys elem.key p.key

-- The loop over `toMatch`, with `path[i]` beside each element.
unfoldable pub match_elems : List PathElem → List PathElem → Bool
match_elems path [] = true
match_elems [] (elem ∷ to_match) = false
match_elems (p ∷ path) (elem ∷ to_match) = match_elem elem p && match_elems path to_match

unfoldable pub match_path : List PathElem → List PathElem → Bool
match_path path to_match =
    if ltb (length path) (length to_match) then false else match_elems path to_match

unfoldable pub reject_update : List (List PathElem) → Notification → Bool
reject_update rejections notification =
    any (λ (u : Update). any (match_path (get_elem u.path)) rejections) notification.update
