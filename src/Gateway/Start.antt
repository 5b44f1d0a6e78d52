-- ===== src/Gateway/Start.antt =====
-- gateway/gateway.go: `StartGateway` up to the point where it waits for the first error, with
-- `getLocalIP`, and the checks of `StartGNMIServer`. What a library or the network answers is a
-- parameter; the goroutines that are started are effects, in the order of the code.
pub mod Addresses
pub mod Checks
pub mod Plan
mod Examples
use gnmi_gateway.Prelude.{
  ℤ, pos, eqb_ℤ, Bool, true, false, not, ◌&&◌, ◌||◌, Option, none, some, List, [], ◌∷◌, ◌++◌, Text,
  itoa, sort_texts, ◌==◌, codes, map, if◌then◌else◌,
}

-- The configuration that is read.
pub record Config : Type 0 where
  pub wants_spectator : Bool
  pub zookeeper_hosts : List Text
  pub enable_gnmi_server : Bool
  pub server_address : Text
  pub server_port : ℤ
  pub server_listen_address : Text
  pub server_listen_port : ℤ
  pub loaders : List Text
  pub exporters : List Text

-- An address of `net.InterfaceAddrs`: whether it is an IP network, whether it is a loopback address,
-- whether it converts to four or sixteen bytes, and its text.
pub record Address : Type 0 where
  pub is_ip_net : Bool
  pub is_loopback : Bool
  pub has_bytes : Bool
  pub text : Text

-- What the surroundings answer. `addresses` is `none` for an error.
pub record World : Type 0 where
  pub spectator_starts : Bool
  pub addresses : Option (List Address)
  pub zookeeper_connects : Bool
  pub manager_is_made : Bool
  pub manager_starts : Bool
  pub is_loader : Text → Bool
  pub is_exporter : Text → Bool

pub data StartError : Type 0 where
  no_spectator server_required no_addresses no_local_ips no_zookeeper no_manager : StartError
  no_listen_address no_listen_port : StartError
  no_loader no_exporter : Text → StartError

-- What has been set going.
pub data Effect : Type 0 where
  spectator zookeeper connection_manager gnmi_server : Effect
  registration : Text → Effect
  loader exporter : Text → Effect

-- How `StartGateway` ends: with an error, with the exit of the process, or waiting.
pub data Outcome : Type 0 where
  fails : StartError → Outcome
  exits waits : Outcome

-- The loop of `getLocalIP`.
unfoldable pub valid_ips : List Address → List Text
valid_ips [] = []
valid_ips (a ∷ addresses) =
    let rest = valid_ips addresses in
    if not a.is_ip_net
    then rest
    else if a.is_loopback
    then rest
    else if a.has_bytes
    then a.text ∷ rest
    else rest

pub data LocalIp : Type 0 where
  local_ip : Text → LocalIp
  ip_error : StartError → LocalIp

-- `getLocalIP`
unfoldable pub get_local_ip : Option (List Address) → LocalIp
get_local_ip none = ip_error no_addresses
get_local_ip (some addresses) = elim (sort_texts (valid_ips addresses)) [
  | [] ↦ ip_error no_local_ips
  | ip ∷ _ ↦ local_ip ip
]

-- The address by which the cluster finds this member.
unfoldable pub server_address : World → Config → LocalIp
server_address w c =
    if c.server_address == [] then get_local_ip w.addresses else local_ip c.server_address

-- `g.config.ServerAddress + ":" + strconv.Itoa(g.config.ServerPort)`
unfoldable pub cluster_member : Config → Text → Text
cluster_member c address =
    let port = if eqb_ℤ c.server_port (pos 0) then c.server_listen_port else c.server_port in
    address ++ b':' ∷ itoa port

-- Clustering is enabled.
abbrev pub is_clustered : Config → Bool
is_clustered c = elim c.zookeeper_hosts [ [] ↦ false | _ ∷ _ ↦ true ]

-- The first name that is not registered.
unfoldable pub first_unknown : (Text → Bool) → List Text → Option Text
first_unknown is_known [] = none
first_unknown is_known (name ∷ names) =
    if not (is_known name) then some name else first_unknown is_known names

-- `StartOpts`, by name.
pub record StartOpts : Type 0 where
  pub loaders : List Text
  pub exporters : List Text

-- A run behind an effect.
unfoldable pub behind : List Effect → List Effect × Outcome → List Effect × Outcome
behind effects (more, outcome) = (effects ++ more, outcome)

-- The loaders and exporters: those of the options, the cluster's, those of the configuration.
unfoldable pub start_clients : World → Config → StartOpts → Option Text → List Effect × Outcome
start_clients w c opts member =
    let registered : List Effect = elim member [ none ↦ [] | some m ↦ registration m ∷ [] ] in
    let cluster : List Text = elim member [ none ↦ [] | some _ ↦ codes "cluster" ∷ [] ] in
    elim (first_unknown w.is_loader c.loaders) [
      | some name ↦ (registered, fails (no_loader name))
      | none ↦ elim (first_unknown w.is_exporter c.exporters) [
        | some name ↦ (registered, fails (no_exporter name))
        | none ↦ (
          registered
              ++ (map loader (opts.loaders ++ cluster ++ c.loaders)
                  ++ map exporter (opts.exporters ++ c.exporters)),
          waits,
        )
      ]
    ]

-- The gNMI server, if it is enabled.
unfoldable pub start_server : World → Config → StartOpts → Option Text → List Effect × Outcome
start_server w c opts member =
    let rest = start_clients w c opts member in
    if not c.enable_gnmi_server
    then rest
    else if c.server_listen_address == []
    then ([], fails no_listen_address)
    else if eqb_ℤ c.server_listen_port (pos 0)
    then ([], fails no_listen_port)
    else behind (gnmi_server ∷ []) rest

-- The connection manager.
unfoldable pub start_manager : World → Config → StartOpts → Option Text → List Effect × Outcome
start_manager w c opts member =
    if not w.manager_is_made
    then ([], exits)
    else if not w.manager_starts
    then ([], fails no_manager)
    else behind (connection_manager ∷ []) (start_server w c opts member)

-- The cluster, if there are hosts of Zookeeper.
unfoldable pub start_cluster : World → Config → StartOpts → List Effect × Outcome
start_cluster w c opts =
    if not (is_clustered c)
    then start_manager w c opts none
    else if not c.enable_gnmi_server
    then ([], fails server_required)
    else elim (server_address w c) [
      | ip_error e ↦ ([], fails e)
      | local_ip address ↦
          if not w.zookeeper_connects
          then ([], fails no_zookeeper)
          else behind (zookeeper ∷ []) (start_manager w c opts (some (cluster_member c address)))
    ]

-- `StartGateway`: what is set going, and how it ends.
unfoldable pub start_gateway : World → Config → StartOpts → List Effect × Outcome
start_gateway w c opts =
    if not c.wants_spectator
    then start_cluster w c opts
    else if not w.spectator_starts
    then ([], fails no_spectator)
    else behind (spectator ∷ []) (start_cluster w c opts)
