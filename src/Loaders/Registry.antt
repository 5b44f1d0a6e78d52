-- ===== src/Loaders/Registry.antt =====
-- gateway/loaders/loader.go: the registry of the loaders' constructors, `Register` and `New`.
use gnmi_gateway.Prelude.{
  arith, Option, none, some, Text, Map, lookup, insert, ◌==◌, lookup-insert, if◌then◌else◌, ◌≡◌,
}

unfoldable register_loader : {C L : Type 0} → Map (C → L) → Text → (C → L) → Map (C → L)
register_loader registry name constructor = insert registry name constructor

constructed : {C L : Type 0} → Option (C → L) → C → Option L
constructed none config = none
constructed (some make) config = some (make config)

-- `nil` for a name that is not registered.
unfoldable new_loader : {C L : Type 0} → Map (C → L) → Text → C → Option L
new_loader registry name config = constructed (lookup registry name) config

-- The loader of a name is the one that was registered last.
new-register :
    {C L : Type 0} (registry : Map (C → L)) (name other : Text) (make : C → L) (config : C)
    → new_loader (register_loader registry name make) other config
      ≡ (if name == other then some (make config) else new_loader registry other config)
unfolding new_loader register_loader constructed
new-register registry name other make config =
    rw (lookup-insert registry name make other) (ground arith)
