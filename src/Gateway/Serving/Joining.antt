-- ===== src/Gateway/Serving/Joining.antt =====
-- The server as a client of the cache.
use gnmi_gateway.Prelude.{
  ℤ, pos, negsuc, Bool, true, false, not, ◌||◌, ◌&&◌, some, List, [], ◌∷◌, ◌++◌, Text, ◌==◌, codes,
  itoa, is_some, if◌then◌else◌, arith, ◌≡◌, refl, sym,
}
use mathlib.Core.List.{append-nil}
use gnmi_gateway.Proto.{Notification}
use gnmi_gateway.Gateway.{CacheClient, send_update_to_clients}
use gnmi_gateway.Gateway.Serving.{
  ServerConfig, Network, Serving, GnmiServer, new_server, serves, stops, Creds, creds, refused,
  server_creds, add_client, serve_with, start_gnmi_server,
}

abbrev pub is_serving : Serving → Bool
is_serving (serves server) = true
is_serving (stops e) = false

-- The clients that a notification is sent to.
abbrev pub recipients : (Text → Bool) → List CacheClient → Notification → List Text
recipients forwardable clients n = (send_update_to_clients forwardable clients (some n)).0

add_client-recipients :
    (forwardable : Text → Bool) (clients : List CacheClient) (n : Notification) (name : Text)
    → recipients forwardable (add_client clients name false) n
      ≡ recipients forwardable clients n ++ name ∷ []
unfolding add_client send_update_to_clients
add_client-recipients forwardable [] n name = refl
add_client-recipients forwardable (c ∷ clients) n name =
    ground (arith, add_client-recipients forwardable clients n name)

new_server-is_made : (limit : ℤ) → (server : GnmiServer) × (new_server limit ≡ some server)
unfolding new_server
new_server-is_made (pos n) = (_, refl)
new_server-is_made (negsuc n) = (_, refl)

abbrev are_held : {C : Type 0} → Creds C → Bool
are_held (creds held) = true
are_held (refused e) = false

module _ {C : Type 0} (w : Network C) (subscription_limit : ℤ) where
  -- The credentials are held, or both files are named and are read.
  abbrev pub has_creds : ServerConfig C → Bool
  has_creds c =
      is_some c.tls_creds
      || (not (c.tls_cert == [])
          && (not (c.tls_key == []) && is_some (w.creds_from_file c.tls_cert c.tls_key)))

  server_creds_lem :
      (c : ServerConfig C) → are_held (server_creds w subscription_limit c) ≡ has_creds c
  unfolding server_creds
  server_creds_lem c = ground arith

  serve_with-joins :
      (c : ServerConfig C) (clients : List CacheClient) (forwardable : Text → Bool)
      (n : Notification) (k : Creds C)
      → (is_serving (serve_with w subscription_limit c clients k).2
          ≡ (are_held k && w.listens (b':' ∷ itoa c.listen_port)))
        × (recipients forwardable (serve_with w subscription_limit c clients k).1 n
            ≡ recipients forwardable clients n
              ++ (if are_held k then codes "gnmi_server" ∷ [] else []))
  unfolding serve_with
  serve_with-joins c clients forwardable n (refused e) =
      (refl, sym (append-nil (recipients forwardable clients n)))
  serve_with-joins c clients forwardable n (creds held) =
      let (server, made) = new_server-is_made subscription_limit in
      ground (arith, made, add_client-recipients forwardable clients n (codes "gnmi_server"))

  -- `StartGNMIServer` serves exactly if it has credentials and can listen on its port. If it has credentials,
  -- it is a client of the cache from then on: every notification is sent to it as well, after the clients that
  -- were there, whether or not the gateway forwards its target.
  pub start_gnmi_server-joins :
      (c : ServerConfig C) (clients : List CacheClient) (forwardable : Text → Bool)
      (n : Notification)
      → (is_serving (start_gnmi_server w subscription_limit c clients).2
          ≡ (has_creds c && w.listens (b':' ∷ itoa c.listen_port)))
        × (recipients forwardable (start_gnmi_server w subscription_limit c clients).1 n
            ≡ recipients forwardable clients n
              ++ (if has_creds c then codes "gnmi_server" ∷ [] else []))
  unfolding start_gnmi_server
  start_gnmi_server-joins c clients forwardable n =
      rw (sym (server_creds_lem c))
        (serve_with-joins c clients forwardable n (server_creds w subscription_limit c))
