-- ===== src/Openconfig/Examples.antt =====
-- A small model: a system with a host name and a directory of interfaces.
use gnmi_gateway.Prelude.{none, some, List, [], ◌∷◌, codes, ◌==◌, ◌≡◌, refl}
use gnmi_gateway.Openconfig.{Entry, node, Dir, empty, child, find, get_type_by_path}
use gnmi_gateway.Openconfig.Types.{Leads, ends, steps, get_type_by_path_lem}

abbrev hostname : Entry
hostname = node (some (codes "string")) empty

abbrev root : Dir
root = child (codes "system") (node none (child (codes "hostname") hostname empty)) empty

abbrev system : Entry
system = node none (child (codes "hostname") hostname empty)

to_hostname : Leads root (codes "system" ∷ codes "hostname" ∷ []) hostname
unfolding find ◌==◌
to_hostname = steps {e = system} refl (ends refl)

get_type_by_path_lem_example :
    get_type_by_path root (codes "system" ∷ codes "hostname" ∷ []) ≡ some (codes "string")
get_type_by_path_lem_example =
    (get_type_by_path_lem root (codes "system" ∷ codes "hostname" ∷ [])).1 hostname to_hostname
      (λ short. short)

root_alone : get_type_by_path root (codes "system" ∷ []) ≡ none
unfolding get_type_by_path find gnmi_gateway.Prelude.◌==◌ gnmi_gateway.Openconfig.type_by_path
root_alone = refl
