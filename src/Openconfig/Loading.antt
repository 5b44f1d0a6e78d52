-- ===== src/Openconfig/Loading.antt =====
-- gateway/openconfig/types.go: `LoadAllModules`. What goyang and the file system answer is a record; the
-- modules come in the order in which their map is visited.
use gnmi_gateway.Prelude.{
  Bool, not, Option, none, some, List, [], ◌∷◌, Text, Map, insert, lookup, has, keys, ◌==◌, codes,
  all, sort_texts, if◌then◌else◌,
}
use gnmi_gateway.Openconfig.{Entry, Dir, empty, load_roots}

-- `walk` gives the name of each file, or `none` where the walk meets an error.
pub record Yang (M : Type 0) : Type 0 where
  pub finds_paths : Text → Bool
  pub walk : Text → List (Option Text)
  pub reads : Text → Bool
  pub modules : List Text → List M
  pub module_name : M → Text
  pub to_entry : M → Entry

-- `strings.TrimSuffix` of a name that has the suffix (`strings.HasSuffix`).
unfoldable pub without_suffix : Text → Text → Option Text
without_suffix suffix [] = if suffix == [] then some [] else none
without_suffix suffix (c ∷ name) =
    let rest : Option Text = elim (without_suffix suffix name) [
      | none ↦ none
      | some s ↦ some (c ∷ s)
    ] in
    if suffix == c ∷ name then some [] else rest

-- The callback of `filepath.Walk`, for every file: the first error ends it.
unfoldable pub file_list : List (Option Text) → Option (List Text)
file_list [] = some []
file_list (none ∷ files) = none
file_list (some name ∷ files) = elim (file_list files) [
  | none ↦ none
  | some rest ↦ elim (without_suffix (codes ".yang") name) [
    | none ↦ some rest
    | some stem ↦ some (stem ∷ rest)
  ]
]

module _ {M : Type 0} (y : Yang M) where
  -- `mods`: of the modules of one name, the first is taken.
  unfoldable pub take_modules : Map M → List M → Map M
  take_modules mods [] = mods
  take_modules mods (m ∷ ms) =
      take_modules (if has mods (y.module_name m) then mods else insert mods (y.module_name m) m) ms

  -- `entries`, over the names in their order.
  unfoldable pub make_entries : Map M → Map Entry → List Text → Map Entry
  make_entries mods entries [] = entries
  make_entries mods entries (name ∷ names) =
      make_entries mods
        (elim (lookup mods name) [ none ↦ entries | some m ↦ insert entries name (y.to_entry m) ])
        names

  -- `LoadAllModules`: the new `treeRoot`, or `none` for an error.
  unfoldable pub load_all_modules : Text → Option Dir
  load_all_modules search_path =
      if not (y.finds_paths search_path) then none else elim (file_list (y.walk search_path)) [
        | none ↦ none
        | some files ↦
            let mods = take_modules [] (y.modules files) in
            let entries = make_entries mods [] (sort_texts (keys mods)) in
            if all y.reads files then some (load_roots (codes "openconfig") empty entries) else none
      ]
