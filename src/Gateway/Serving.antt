-- ===== src/Gateway/Serving.antt =====
-- gateway/gateway.go: `StartGNMIServer`, with `AddClient`, and `NewServer` of
-- gateway/server/server.go. Reading the certificate and listening are arguments; what `Serve` returns is only logged.
pub mod Joining
mod Example
use gnmi_gateway.Prelude.{
  ℕ, ltb, ℤ, pos, negsuc, Bool, true, false, not, ◌||◌, Option, none, some, List, [], ◌∷◌, ◌++◌,
  Text, ◌==◌, codes, itoa, if◌then◌else◌,
}
use gnmi_gateway.Gateway.{CacheClient}

-- The fields of the configuration that are read; `C` is the type of `credentials.TransportCredentials`.
pub record ServerConfig (C : Type 0) : Type 0 where
  pub tls_creds : Option C
  pub tls_cert : Text
  pub tls_key : Text
  pub listen_port : ℤ

pub data ServingError : Type 0 where
  no_tls_creds bad_tls_creds no_server no_listener : ServingError

-- The server of `NewServer`: the slots of its subscriptions, if it limits them.
pub record GnmiServer : Type 0 where
  pub subscribe_slots : Option ℕ

-- The function returns an error, or it serves and waits for a context that never ends.
pub data Serving : Type 0 where
  stops : ServingError → Serving
  serves : GnmiServer → Serving

-- `NewServerTLSFromFile` and `net.Listen` of TCP; `false` and `none` stand for an error.
pub record Network (C : Type 0) : Type 0 where
  pub creds_from_file : Text → Text → Option C
  pub listens : Text → Bool

pub data Creds (C : Type 0) : Type 0 where
  creds : C → Creds C
  refused : ServingError → Creds C

-- `AddClient`
unfoldable pub add_client : List CacheClient → Text → Bool → List CacheClient
add_client clients name external = clients ++ record { name = name; external = external } ∷ []

-- `NewServer`, with `SubscriptionLimit`; `none` would be an error.
unfoldable pub new_server : ℤ → Option GnmiServer
new_server (pos n) = some (record { subscribe_slots = if ltb 0 n then some n else none })
new_server (negsuc n) = some (record { subscribe_slots = none })

module _ {C : Type 0} (w : Network C) (subscription_limit : ℤ) where
  -- The credentials of the configuration, or those of its files.
  unfoldable pub server_creds : ServerConfig C → Creds C
  server_creds c = elim c.tls_creds [
    | some held ↦ creds held
    | none ↦
        let read : Creds C = elim (w.creds_from_file c.tls_cert c.tls_key) [
          | none ↦ refused bad_tls_creds
          | some held ↦ creds held
        ] in
        if c.tls_cert == [] || c.tls_key == [] then refused no_tls_creds else read
  ]

  -- The rest of `StartGNMIServer`: the server, its client of the cache and the port.
  unfoldable pub serve_with :
      ServerConfig C → List CacheClient → Creds C → ServerConfig C × List CacheClient × Serving
  serve_with c clients (refused e) = (c, clients, stops e)
  serve_with c clients (creds held) =
      let kept = record c { tls_creds = some held } in
      elim (new_server subscription_limit) [
        | none ↦ (kept, clients, stops no_server)
        | some server ↦ (
          kept,
          add_client clients (codes "gnmi_server") false,
          if not (w.listens (b':' ∷ itoa c.listen_port)) then stops no_listener else serves server,
        )
      ]

  -- `StartGNMIServer`: the configuration and the clients that it leaves, and how it ends.
  unfoldable pub start_gnmi_server :
      ServerConfig C → List CacheClient → ServerConfig C × List CacheClient × Serving
  start_gnmi_server c clients = serve_with c clients (server_creds c)
