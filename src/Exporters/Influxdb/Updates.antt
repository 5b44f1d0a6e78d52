-- ===== src/Exporters/Influxdb/Updates.antt =====
-- What one update of a notification contributes to a point, and what several do.
use gnmi_gateway.Prelude.{
  none_not_some, Bool, true, false, not, ◌&&◌, Option, none, some, List, [], ◌∷◌, Text, Map, join,
  ◌==◌, codes, if◌then◌else◌, ◌≡◌, refl, inl, inr, Option-cases,
}
use gnmi_gateway.Proto.{GnmiPath, Update}
use gnmi_gateway.Utils.{Float, get_number_values}
use gnmi_gateway.Exporters.Influxdb.{
  Point, path_to_metric_name, extract_prefix_and_path_keys, split_last, name_point, add_field,
  add_update,
}

-- The names of the elements of an update but the last one, and the last one.
unfoldable pub names_of : Option GnmiPath → Update → Option (List Text × Text)
names_of prefix u = elim (extract_prefix_and_path_keys prefix u.path) [
  | none ↦ none
  | some (names, _) ↦ split_last names
]

module _ {F : Type 0} (f : Float F) where
  abbrev pub is_number : Update → Bool
  is_number u = (get_number_values f u.val).1

  -- A number whose prefix or path is nil, or that has no elements at all.
  abbrev pub is_fatal : Option GnmiPath → Update → Bool
  is_fatal prefix u = is_number u && elim (names_of prefix u) [ none ↦ true | some _ ↦ false ]

  -- The path before the last name of the first number for which it is not empty, or nothing.
  abbrev pub first_path : Option GnmiPath → List Update → Text
  first_path prefix [] = []
  first_path prefix (u ∷ us) =
      let rest = first_path prefix us in
      let path : Text = elim (names_of prefix u) [
        | none ↦ []
        | some (elems, _) ↦ join elems (codes "/")
      ] in
      if is_number u && not (path == []) then path else rest

  -- The value of the last number with the metric name.
  abbrev pub last_field : Option GnmiPath → Text → List Update → Option F
  last_field prefix k [] = none
  last_field prefix k (u ∷ us) = elim (last_field prefix k us) [
    | some v ↦ some v
    | none ↦ elim (names_of prefix u) [
      | none ↦ none
      | some (_, name) ↦
          if is_number u && path_to_metric_name name == k
          then some (get_number_values f u.val).0
          else none
    ]
  ]

  pub add_update-skip :
      (p : Point F) (prefix : Option GnmiPath) (u : Update)
      → is_number u ≡ false
      → add_update f p prefix u ≡ some p
  unfolding add_update
  add_update-skip p prefix u h = rw h refl

  pub add_update-none :
      (p : Point F) (prefix : Option GnmiPath) (u : Update)
      → is_number u ≡ true
      → names_of prefix u ≡ none
      → add_update f p prefix u ≡ none
  unfolding add_update names_of
  add_update-none p prefix u number h =
      elim (Option-cases (extract_prefix_and_path_keys prefix u.path)) [
        | inl e ↦ rw (number, e) refl
        | inr ((names, keys), e) ↦ rw (number, e, (rw (names_of, e) at h)) refl
      ]

  pub add_update-some :
      (p : Point F) (prefix : Option GnmiPath) (u : Update) (elems : List Text) (name : Text)
      → is_number u ≡ true
      → names_of prefix u ≡ some (elems, name)
      → (keys : Map Text) × (add_update f p prefix u
          ≡ some
              (add_field f (name_point f p prefix elems keys) name (get_number_values f u.val).0))
  unfolding add_update names_of
  add_update-some p prefix u elems name number h =
      elim (Option-cases (extract_prefix_and_path_keys prefix u.path)) [
        | inl e ↦ absurd (none_not_some (rw (names_of, e) at h))
        | inr ((names, keys), e) ↦ (keys, rw (number, e, (rw (names_of, e) at h)) refl)
      ]
