-- ===== src/Connections/Manager/Clients.antt =====
-- What `doConnect` changes of the manager's connections.
use gnmi_gateway.Prelude.{
  ◌||◌, Option, none, some, List, [], ◌∷◌, Text, Map, lookup, any, ◌==◌, eq_iff, arith, ◌≡◌, refl,
}
use gnmi_gateway.Connections.State.{ConnectionState}
use gnmi_gateway.Connections.Manager.{make_clients}

-- The connection has its client if it had one, or its `doConnect` has set it.
abbrev pub made : List Text → Text → Option ConnectionState → Option ConnectionState
made names x none = none
made names x (some c) = some (record c {
  client = c.client || any (λ n. n == x) names;
  client_cancel = c.client_cancel || any (λ n. n == x) names;
})

pub make_clients-lookup :
    (names : List Text) (conns : Map ConnectionState) (x : Text)
    → lookup (make_clients names conns) x ≡ made names x (lookup conns x)
unfolding make_clients lookup
make_clients-lookup names [] x = refl
make_clients-lookup names ((name, c) ∷ conns) x =
    ground (arith, eq_iff name x, make_clients-lookup names conns x)
