-- ===== src/Openconfig/Types.antt =====
-- What the walk along a path finds, and when it panics.
use gnmi_gateway.Prelude.{
  true, none, some, List, [], ◌∷◌, Text, arith, ◌≡◌, refl, inl, inr, Option-cases, is_some, ◌↔◌,
}
use gnmi_gateway.Openconfig.{Entry, Dir, find, entry_dir, type_name, type_by_path, get_type_by_path}

-- The entry at the end of a path, below a directory.
pub data Leads : Dir → List Text → Entry → Type 0 where
  ends : {d : Dir} {name : Text} {e : Entry} → find d name ≡ some e → Leads d (name ∷ []) e
  steps :
      {d : Dir} {name next : Text} {path : List Text} {e f : Entry}
      → find d name ≡ some e
      → Leads (entry_dir e) (next ∷ path) f
      → Leads d (name ∷ next ∷ path) f

first_step :
    {d : Dir} {name : Text} {path : List Text} {e : Entry}
    → Leads d (name ∷ path) e
    → is_some (find d name) ≡ true
first_step (ends found) = ground (arith, found)
first_step (steps found rest) = ground (arith, found)

next_steps :
    {d : Dir} {name next : Text} {path : List Text} {e : Entry}
    → Leads d (name ∷ next ∷ path) e
    → (f : Entry) × (find d name ≡ some f) × Leads (entry_dir f) (next ∷ path) e
next_steps (steps {e = f} found rest) = (f, found, rest)

last_step : {d : Dir} {name : Text} {e : Entry} → Leads d (name ∷ []) e → find d name ≡ some e
last_step (ends found) = found

type_by_path-Leads :
    (entry : Entry) (name : Text) (path : List Text) (e : Entry)
    → Leads (entry_dir entry) (name ∷ path) e
    → type_by_path entry (name ∷ path) ≡ some (type_name e)
unfolding type_by_path
type_by_path-Leads entry name [] e l = rw (last_step l, type_by_path) refl
type_by_path-Leads entry name (next ∷ path) e l =
    let (f, found, rest) = next_steps l in
    rw (found, type_by_path) (type_by_path-Leads f next path e rest)

type_by_path-is_some :
    (entry : Entry) (name : Text) (path : List Text)
    → is_some (type_by_path entry (name ∷ path)) ≡ true
unfolding type_by_path
type_by_path-is_some entry name [] = ground arith
type_by_path-is_some entry name (next ∷ path) = elim (Option-cases (find (entry_dir entry) name)) [
  | inl e ↦ ground (arith, e)
  | inr (f, e) ↦ ground (arith, e, type_by_path-is_some f next path)
]

-- The path is empty, or it is the name of a root alone.
abbrev pub IsShort : Dir → List Text → Type 0
IsShort root [] = Unit
IsShort root (name ∷ []) = is_some (find root name) ≡ true
IsShort root (_ ∷ _ ∷ _) = ⊥

-- `GetTypeByPath` gives the type of the entry that a path of two or more steps leads to, and panics
-- exactly if the path is empty or is the name of a root alone.
pub get_type_by_path_lem :
    (root : Dir) (path : List Text)
    → ((get_type_by_path root path ≡ none) ↔ IsShort root path)
      × ((e : Entry)
          → Leads root path e
          → ¬ IsShort root path
          → get_type_by_path root path ≡ some (type_name e))
unfolding get_type_by_path type_by_path
get_type_by_path_lem root [] = ((λ _. tt, λ _. refl), λ e l short. absurd (short tt))
get_type_by_path_lem root (name ∷ []) =
    ((λ h. ground arith, λ h. ground arith), (λ e l short. absurd (short (first_step l))))
get_type_by_path_lem root (name ∷ next ∷ path) = (
  (
    (λ h. elim (Option-cases (find root name)) [
      | inl e ↦ ground (arith, e)
      | inr (f, e) ↦ ground (arith, e, type_by_path-is_some f next path)
    ]),
    (λ h. absurd h),
  ),
  (λ e l _.
      let (f, found, rest) = next_steps l in
      rw (found, get_type_by_path) (type_by_path-Leads f next path e rest)),
)
