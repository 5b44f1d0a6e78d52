-- ===== src/Openconfig.antt =====
-- gateway/openconfig/types.go: the type that a YANG model gives a path. The entries of goyang are
-- trees whose children have names; reading the model files is goyang's.
pub mod Types
pub mod Loading
mod Examples
use gnmi_gateway.Prelude.{
  Bool, true, false, Option, none, some, List, [], ◌∷◌, Text, Map, insert, ◌==◌, if◌then◌else◌,
}

-- `yang.Entry`: the name of its type, if it has one, and its children.
mutual
  pub data Entry : Type 0 where
    node : Option Text → Dir → Entry

  pub data Dir : Type 0 where
    empty : Dir
    child : Text → Entry → Dir → Dir

-- `entry.Dir[name]`
unfoldable pub find : Dir → Text → Option Entry
find empty name = none
find (child n e d) name = if n == name then some e else find d name

abbrev pub entry_dir : Entry → Dir
entry_dir (node _ d) = d

-- `child.Type.Name`, or the empty text without a type.
abbrev pub type_name : Entry → Text
type_name (node none _) = []
type_name (node (some t) _) = t

-- `getTypeByPath`; `none` is the panic of `path[0]` on an empty path.
unfoldable pub type_by_path : Entry → List Text → Option Text
type_by_path entry [] = none
type_by_path entry (name ∷ []) = elim (find (entry_dir entry) name) [
  | none ↦ some []
  | some e ↦ some (type_name e)
]
type_by_path entry (name ∷ next ∷ path) = elim (find (entry_dir entry) name) [
  | none ↦ some []
  | some e ↦ type_by_path e (next ∷ path)
]

-- `GetTypeByPath`, from `treeRoot`.
unfoldable pub get_type_by_path : Dir → List Text → Option Text
get_type_by_path root [] = none
get_type_by_path root (name ∷ path) = elim (find root name) [
  | none ↦ some []
  | some e ↦ type_by_path e path
]

-- The text begins with the other one (`strings.HasPrefix`).
unfoldable pub has_prefix : Text → Text → Bool
has_prefix s [] = true
has_prefix [] (c ∷ prefix) = false
has_prefix (d ∷ s) (c ∷ prefix) =
    let rest = has_prefix s prefix in if (d ∷ []) == (c ∷ []) then rest else false

-- `root[name] = rootEntry`
unfoldable pub put : Dir → Text → Entry → Dir
put empty name e = child name e empty
put (child n f d) name e = if n == name then child n e d else child n f (put d name e)

unfoldable pub put_all : Dir → Dir → Dir
put_all root empty = root
put_all root (child n e d) = put_all (put root n e) d

-- The last loop of `LoadAllModules`, over the entries of the modules by their names.
unfoldable pub load_roots : Text → Dir → Map Entry → Dir
load_roots openconfig root [] = root
load_roots openconfig root ((name, entry) ∷ entries) =
    let loaded = load_roots openconfig (put_all root (entry_dir entry)) entries in
    let skipped = load_roots openconfig root entries in
    if has_prefix name openconfig then loaded else skipped
