-- ===== src/Exporters/Influxdb.antt =====
-- gateway/exporters/influxdb/influxdb.go: `Export` up to the point that is written, and the checks of
-- `Start`. float64 and `url.ParseRequestURI` are parameters. A nil map is the empty one here, since
-- `Export` never writes to a map that it has not made.
pub mod Updates
pub mod Points
use gnmi_gateway.Prelude.{
  ℤ, Bool, true, false, not, Option, none, some, List, [], ◌∷◌, ◌++◌, Text, Map, has, insert, map,
  join, replace_all, ◌==◌, codes, if◌then◌else◌,
}
use gnmi_gateway.Proto.{PathElem, GnmiPath, Update, Notification, get_target, get_origin}
use gnmi_gateway.Utils.{Float, get_number_values, elem_keys}

-- `pathToMetricName`
abbrev pub path_to_metric_name : Text → Text
path_to_metric_name path = replace_all (replace_all path b'/' b'_') b'-' b'_'

-- The loop over the keys of an element: a key that is taken gets the element's name in front.
unfoldable pub add_keys : Text → Map Text → Map Text → Map Text
add_keys name keys [] = keys
add_keys name keys ((k, v) ∷ m) =
    add_keys name (insert keys (if has keys k then name ++ b'/' ∷ k else k) v) m

-- The loop over the elements of the two paths.
unfoldable pub all_keys : Map Text → List PathElem → Map Text
all_keys keys [] = keys
all_keys keys (e ∷ elems) = all_keys (add_keys e.name keys (elem_keys e)) elems

-- `extractPrefixAndPathKeys`; `none` is the panic on a nil path. Its error, which `Export` only logs,
-- is an empty list of names.
unfoldable pub extract_prefix_and_path_keys :
    Option GnmiPath → Option GnmiPath → Option (List Text × Map Text)
extract_prefix_and_path_keys none path = none
extract_prefix_and_path_keys (some prefix) none = none
extract_prefix_and_path_keys (some prefix) (some path) =
    let elems = prefix.elem ++ path.elem in some (map (λ e. e.name) elems, all_keys [] elems)

-- `elems[:len(elems)-1]` and `elems[len(elems)-1]`; `none` is the panic on an empty slice.
unfoldable pub split_last : List Text → Option (List Text × Text)
split_last [] = none
split_last (e ∷ elems) = elim (split_last elems) [
  | none ↦ some ([], e)
  | some (front, back) ↦ some (e ∷ front, back)
]

-- `Point`
pub record Point (F : Type 0) : Type 0 where
  pub measurement : Text
  pub timestamp : ℤ
  pub tags : Map Text
  pub fields : Map F

-- `keys[key] = value`, if the value is not empty.
abbrev pub insert_set : Text → Text → Map Text → Map Text
insert_set key value m = if value == [] then m else insert m key value

module _ {F : Type 0} (f : Float F) where
  -- The measurement and the tags of a point, which the first update that counts decides.
  unfoldable pub name_point : Point F → Option GnmiPath → List Text → Map Text → Point F
  name_point p prefix elems keys =
      let path = join elems (codes "/") in
      let tags =
        insert_set (codes "target") (get_target prefix)
          (insert_set (codes "origin") (get_origin prefix) (insert keys (codes "path") path)) in
      if p.measurement == []
      then record {
        measurement = path_to_metric_name path;
        timestamp = p.timestamp;
        tags = tags;
        fields = p.fields;
      }
      else p

  abbrev pub add_field : Point F → Text → F → Point F
  add_field p name value = record {
    measurement = p.measurement;
    timestamp = p.timestamp;
    tags = p.tags;
    fields = insert p.fields (path_to_metric_name name) value;
  }

  -- The loop body of `Export`; `none` is a panic.
  unfoldable pub add_update : Point F → Option GnmiPath → Update → Option (Point F)
  add_update p prefix u =
      let (value, is_number) = get_number_values f u.val in
      if not is_number then some p else elim (extract_prefix_and_path_keys prefix u.path) [
        | none ↦ none
        | some (names, keys) ↦ elim (split_last names) [
          | none ↦ none
          | some (elems, name) ↦ some (add_field (name_point p prefix elems keys) name value)
        ]
      ]

  unfoldable pub add_updates : Point F → Option GnmiPath → List Update → Option (Point F)
  add_updates p prefix [] = some p
  add_updates p prefix (u ∷ us) = elim (add_update p prefix u) [
    | none ↦ none
    | some p' ↦ add_updates p' prefix us
  ]

  abbrev pub new_point : ℤ → Point F
  new_point timestamp = record { measurement = []; timestamp = timestamp; tags = []; fields = [] }

  -- `Export`: the point that is written, if there is one; the outer `none` is a panic.
  unfoldable pub export : Notification → Option (Option (Point F))
  export n = elim (add_updates (new_point n.timestamp) n.prefix n.update) [
    | none ↦ none
    | some p ↦ some (if p.measurement == [] then none else some p)
  ]

-- The configuration that `Start` reads, and its errors.
pub record Config : Type 0 where
  pub target : Text
  pub token : Text
  pub org : Text
  pub bucket : Text

pub data StartError : Type 0 where
  invalid_url no_token no_org no_bucket : StartError

-- `Start`: its error; without one it makes a client for the target and the token.
unfoldable pub start : (Text → Bool) → Config → Option StartError
start is_url c =
    if not (is_url c.target)
    then some invalid_url
    else if c.token == []
    then some no_token
    else if c.org == []
    then some no_org
    else if c.bucket == []
    then some no_bucket
    else none
