-- ===== src/Exporters/Labels.antt =====
-- The names, labels and hashes of metrics: `UpdateToMetricNameAndLabels` of
-- gateway/exporters/prometheus/prometheus.go and `NewStringMapHash` of
-- gateway/exporters/prometheus/delta.go, with `xxhash.Sum64String` as an argument.
use mathlib.Core.List.{append-nil, append_assoc}
use gnmi_gateway.Prelude.{
  sort_texts, insert_text, eq_refl, ℕ, Option, List, [], ◌∷◌, ◌++◌, Text, Map, lookup, insert,
  sorted_keys, sorted_keys-same, replace_all, ◌==◌, codes, if◌then◌else◌, arith, ◌≡◌, refl, ap, sym,
  ◌∙◌,
}
use gnmi_gateway.Proto.{PathElem, GnmiPath, get_target}
use gnmi_gateway.Utils.{elem_keys, key_value}
use gnmi_gateway.Utils.Order.{SameMap}

-- `strings.ReplaceAll(s, "-", "_")`
abbrev pub underscored : Text → Text
underscored s = replace_all s b'-' b'_'

-- The loop over the keys of an element.
unfoldable pub add_labels : Text → Map Text → Map Text → Map Text
add_labels metric_name labels [] = labels
add_labels metric_name labels ((key, value) ∷ keys) =
    add_labels metric_name (insert labels (metric_name ++ b'_' ∷ underscored key) value) keys

-- The loop over the elements of the path.
unfoldable pub add_elems : Text → Map Text → List PathElem → Text × Map Text
add_elems metric_name labels [] = (metric_name, labels)
add_elems metric_name labels (e ∷ elems) =
    let longer : Text =
      if metric_name == [] then underscored e.name else metric_name ++ b'_' ∷ underscored e.name in
    add_elems longer (add_labels longer labels (elem_keys e)) elems

-- `UpdateToMetricNameAndLabels`, of an update whose path is not nil.
unfoldable pub metric_name_and_labels : Option GnmiPath → GnmiPath → Text × Map Text
metric_name_and_labels prefix path =
    let target = get_target prefix in
    add_elems [] (if target == [] then [] else (codes "target", target) ∷ []) path.elem

-- The loop of `NewStringMapHash` over the sorted keys.
unfoldable pub labels_text : Map Text → List Text → Text
labels_text labels [] = []
labels_text labels (k ∷ ks) = k ++ key_value labels k ++ labels_text labels ks

-- `NewStringMapHash`
unfoldable pub new_string_map_hash : (Text → ℕ) → Text → Map Text → ℕ
new_string_map_hash sum name labels = sum (name ++ labels_text labels (sorted_keys labels))

labels_text-same :
    (m n : Map Text) → SameMap m n → (ks : List Text) → labels_text m ks ≡ labels_text n ks
unfolding labels_text
labels_text-same m n s [] = refl
labels_text-same m n s (k ∷ ks) = ground (arith, s.same k, labels_text-same m n s ks)

new_string_map_hash-same :
    (sum : Text → ℕ) (name : Text) (m n : Map Text)
    → SameMap m n
    → new_string_map_hash sum name m ≡ new_string_map_hash sum name n
unfolding new_string_map_hash
new_string_map_hash-same sum name m n s =
    ap (λ ks. sum (name ++ labels_text m ks)) (sorted_keys-same m n s.left_map s.right_map s.same)
    ∙ ap (λ t. sum (name ++ t)) (labels_text-same m n s (sorted_keys n))

single_text : (k v : Text) → labels_text ((k, v) ∷ []) (k ∷ []) ≡ k ++ v
unfolding labels_text lookup
single_text k v =
    let e : key_value ((k, v) ∷ []) k ≡ v = ground (arith, eq_refl k) in
    append-nil (k ++ key_value ((k, v) ∷ []) k) ∙ ap (λ t. k ++ t) e

new_string_map_hash-joins :
    (sum : Text → ℕ) (name k x v : Text)
    → new_string_map_hash sum name ((k ++ x, v) ∷ [])
      ≡ new_string_map_hash sum name ((k, x ++ v) ∷ [])
unfolding new_string_map_hash sort_texts insert_text
new_string_map_hash-joins sum name k x v =
    ap (λ t. sum (name ++ t))
      (single_text (k ++ x) v ∙ append_assoc k x v ∙ sym (single_text k (x ++ v)))

-- The hash of a set of labels does not depend on the order in which the map is visited. Nor does it
-- depend on where the name of a single label ends and its value begins.
pub new_string_map_hash_lem :
    (sum : Text → ℕ) (name : Text)
    → ((m n : Map Text)
        → SameMap m n
        → new_string_map_hash sum name m ≡ new_string_map_hash sum name n)
      × ((k x v : Text)
          → new_string_map_hash sum name ((k ++ x, v) ∷ [])
            ≡ new_string_map_hash sum name ((k, x ++ v) ∷ []))
new_string_map_hash_lem sum name =
    (new_string_map_hash-same sum name, new_string_map_hash-joins sum name)
