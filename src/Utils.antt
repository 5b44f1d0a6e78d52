-- ===== src/Utils.antt =====
-- gateway/utils/utils.go: paths, notifications and updates as text, and values as numbers. The text of
-- a value (`%v`) and Go's float64 are parameters.
pub mod Order
pub mod Pretty
mod Examples
use gnmi_gateway.Prelude.{
  ℕ, ℤ, pos, Bool, true, false, not, ◌&&◌, Option, none, some, List, [], ◌∷◌, ◌++◌, Text, Map,
  lookup, sorted_keys, map, join, itoa, eqb, ◌==◌, codes, if◌then◌else◌,
}
use gnmi_gateway.Proto.{
  PathElem, GnmiPath, TypedValue, string_val, bytes_val, int_val, uint_val, float_val, bool_val,
  leaflist_val, other_val, Update, Notification,
}

-- `"/" + name`, or nothing for the empty name.
abbrev segment : Text → Text
segment name = if name == [] then [] else b'/' ∷ name

-- `elem.Key[key]`
abbrev pub key_value : Map Text → Text → Text
key_value m key = elim (lookup m key) [ none ↦ [] | some v ↦ v ]

-- `"[" + strings.Join(pairs, " ") + "]"`, or nothing for an empty map.
unfoldable pub keys_text : Map Text → Text
keys_text [] = []
keys_text (e ∷ m) =
    let pairs = map (λ key. key ++ b'=' ∷ key_value (e ∷ m) key) (sorted_keys (e ∷ m)) in
    b'[' ∷ join pairs (codes " ") ++ codes "]"

abbrev pub elem_keys : PathElem → Map Text
elem_keys e = elim e.key [ none ↦ [] | some m ↦ m ]

-- The loop of `PathToXPath` over the elements.
unfoldable pub elems_text : List PathElem → Text
elems_text [] = []
elems_text (e ∷ elems) = segment e.name ++ keys_text (elem_keys e) ++ elems_text elems

-- `PathToXPath`; `none` is the panic on a nil path.
unfoldable pub path_to_xpath : Option GnmiPath → Option Text
path_to_xpath none = none
path_to_xpath (some p) = some (segment p.origin ++ segment p.target ++ elems_text p.elem)

-- The texts of a loop, each with a space behind it; `none` is a panic.
unfoldable pub spaced : List (Option Text) → Option Text
spaced [] = some []
spaced (none ∷ texts) = none
spaced (some t ∷ texts) = elim (spaced texts) [
  | none ↦ none
  | some rest ↦ some (t ++ codes " " ++ rest)
]

-- A part of the text that stands for a list, or nothing if the list is empty.
unfoldable pub listed : Text → List (Option Text) → Option Text
listed name [] = some []
listed name (t ∷ texts) = elim (spaced (t ∷ texts)) [
  | none ↦ none
  | some body ↦ some (name ++ codes ":[ " ++ body ++ codes "] ")
]

module _ (value_text : Option TypedValue → Text) where
  -- `GNMIUpdatePrettyString`, of an update that is not nil.
  unfoldable pub update_pretty_string : Update → Option Text
  update_pretty_string u = elim (path_to_xpath u.path) [
    | none ↦ none
    | some path ↦
        let duplicates : Text =
          if eqb u.duplicates 0
          then []
          else codes "duplicates:" ++ itoa (pos u.duplicates) ++ codes " " in
        some (
          codes "{ "
          ++ (codes "path:" ++ path ++ codes " ")
          ++ (codes "val:" ++ value_text u.val ++ codes " ")
          ++ duplicates
          ++ codes "}")
  ]

  -- `GNMINotificationPrettyString`; `none` is the panic on a nil prefix or a nil path.
  unfoldable pub notification_pretty_string : Option Notification → Option Text
  notification_pretty_string none = some (codes "<nil>")
  notification_pretty_string (some n) = elim (path_to_xpath n.prefix) [
    | none ↦ none
    | some prefix ↦ elim (listed (codes "update") (map update_pretty_string n.update)) [
      | none ↦ none
      | some updates ↦ elim (listed (codes "delete") (map (λ d. path_to_xpath (some d)) n.delete)) [
        | none ↦ none
        | some deletes ↦
            let alias : Text =
              if n.alias == [] then [] else codes "alias:" ++ n.alias ++ codes " " in
            let atomic : Text = if n.atomic then codes "atomic:true " else [] in
            some (
              codes "{ "
              ++ (codes "timestamp:" ++ itoa n.timestamp ++ codes " ")
              ++ (codes "prefix:" ++ prefix ++ codes " ")
              ++ alias
              ++ updates
              ++ deletes
              ++ atomic
              ++ codes "}")
      ]
    ]
  ]

-- Go's float64, as far as the exporters use it: conversions, subtraction and a comparison with zero.
pub record Float (F : Type 0) : Type 0 where
  pub of_int : ℤ → F
  pub of_float : ℕ → F
  pub minus : F → F → F
  pub plus : F → F → F
  pub is_nonnegative : F → Bool

-- `GetNumberValues`
unfoldable pub get_number_values : {F : Type 0} → Float F → Option TypedValue → F × Bool
get_number_values f none = (f.of_int (pos 0), false)
get_number_values f (some (string_val _)) = (f.of_int (pos 0), false)
get_number_values f (some (int_val n)) = (f.of_int n, true)
get_number_values f (some (uint_val n)) = (f.of_int (pos n), true)
get_number_values f (some (bool_val true)) = (f.of_int (pos 1), true)
get_number_values f (some (bool_val false)) = (f.of_int (pos 0), false)
get_number_values f (some (float_val b)) = (f.of_float b, true)
get_number_values f (some leaflist_val) = (f.of_int (pos 0), false)
get_number_values f (some (bytes_val _)) = (f.of_int (pos 0), false)
get_number_values f (some other_val) = (f.of_int (pos 0), false)
