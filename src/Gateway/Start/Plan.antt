-- ===== src/Gateway/Start/Plan.antt =====
-- The order in which the gateway sets its parts going.
use mathlib.Core.List.{append_assoc, append-nil}
use gnmi_gateway.Prelude.{
  pos, eqb_ℤ, Bool, true, false, not, Bool-cases, Option-cases, ◌⊎◌, inl, inr, Option, none, some,
  List, [], ◌∷◌, ◌++◌, Text, map, ◌==◌, codes, if◌then◌else◌, arith, ◌≡◌, refl, ap, ◌∙◌,
}
use gnmi_gateway.Gateway.Start.{
  Config, World, StartOpts, StartError, Effect, spectator, zookeeper, connection_manager,
  gnmi_server, registration, loader, exporter, Outcome, fails, exits, waits, LocalIp, local_ip,
  ip_error, server_address, cluster_member, no_manager, no_spectator, no_listen_address,
  no_listen_port, server_required, no_zookeeper, first_unknown, behind, is_clustered, start_clients,
  start_server, start_manager, start_cluster, start_gateway,
}
use gnmi_gateway.Gateway.Start.Checks.{is_waiting}

-- Everything that is set going in a complete start, for a member of a cluster or for none.
abbrev pub clients_plan : Config → StartOpts → Option Text → List Effect
clients_plan c opts member =
    let registered : List Effect = elim member [ none ↦ [] | some m ↦ registration m ∷ [] ] in
    let cluster : List Text = elim member [ none ↦ [] | some _ ↦ codes "cluster" ∷ [] ] in
    registered
    ++ (map loader (opts.loaders ++ cluster ++ c.loaders)
        ++ map exporter (opts.exporters ++ c.exporters))

abbrev pub server_plan : Config → StartOpts → Option Text → List Effect
server_plan c opts member =
    (if c.enable_gnmi_server then gnmi_server ∷ [] else []) ++ clients_plan c opts member

abbrev pub manager_plan : Config → StartOpts → Option Text → List Effect
manager_plan c opts member = connection_manager ∷ server_plan c opts member

-- The member of the cluster, with the address that is configured or found.
abbrev pub member_of : World → Config → Option Text
member_of w c = if not (is_clustered c) then none else elim (server_address w c) [
  | ip_error _ ↦ none
  | local_ip address ↦ some (cluster_member c address)
]

abbrev pub cluster_plan : World → Config → StartOpts → List Effect
cluster_plan w c opts =
    (if is_clustered c then zookeeper ∷ [] else []) ++ manager_plan c opts (member_of w c)

abbrev pub plan : World → Config → StartOpts → List Effect
plan w c opts = (if c.wants_spectator then spectator ∷ [] else []) ++ cluster_plan w c opts

-- The run follows the list from its start, and to its end if it gets to waiting.
abbrev pub Follows : List Effect → List Effect × Outcome → Type 0
Follows effects run =
    (rest : List Effect) × (run.0 ++ rest ≡ effects) × (is_waiting run ≡ true → rest ≡ [])

fails-Follows : (effects : List Effect) (e : StartError) → Follows effects ([], fails e)
fails-Follows effects e = (effects, refl, λ h. ground arith)

waiting :
    (done more : List Effect) (outcome : Outcome)
    → is_waiting (more, outcome) ≡ true
    → is_waiting (done, outcome) ≡ true
waiting done more waits h = refl
waiting done more exits h = h
waiting done more (fails e) h = h

behind-Follows :
    (first effects : List Effect) (run : List Effect × Outcome)
    → Follows effects run
    → Follows (first ++ effects) (behind first run)
unfolding behind
behind-Follows first effects (done, outcome) (rest, e, whole) = (
  rest,
  append_assoc first done rest ∙ ap (λ l. first ++ l) e,
  λ h. whole (waiting done (first ++ done) outcome h),
)

if-Follows :
    (b : Bool) (effects : List Effect) (x y : List Effect × Outcome)
    → Follows effects x
    → Follows effects y
    → Follows effects (if b then x else y)
if-Follows true effects x y p q = p
if-Follows false effects x y p q = q

-- A part that is left out if it is not wanted.
optional-Follows :
    (wanted : Bool) (part : Effect) (effects : List Effect)
    (without with_part : List Effect × Outcome)
    → Follows effects without
    → Follows (part ∷ effects) with_part
    → Follows
        ((if wanted then part ∷ [] else []) ++ effects)
        (if not wanted then without else with_part)
optional-Follows true part effects without with_part p q = q
optional-Follows false part effects without with_part p q = p

start_clients-Follows :
    (w : World) (c : Config) (opts : StartOpts) (member : Option Text)
    → Follows (clients_plan c opts member) (start_clients w c opts member)
unfolding start_clients
start_clients-Follows w c opts member = elim (Option-cases (first_unknown w.is_loader c.loaders)) [
  | inr (name, e) ↦ rw (start_clients, e) (_, refl, λ h. ground arith)
  | inl no_loader_e ↦ elim (Option-cases (first_unknown w.is_exporter c.exporters)) [
    | inr (name, e) ↦ rw (start_clients, no_loader_e, e) (_, refl, λ h. ground arith)
    | inl e ↦
        rw (start_clients, no_loader_e, e) ([], append-nil (clients_plan c opts member), λ h. refl)
  ]
]

start_server-Follows :
    (w : World) (c : Config) (opts : StartOpts) (member : Option Text)
    → Follows (server_plan c opts member) (start_server w c opts member)
unfolding start_server
start_server-Follows w c opts member =
    let clients = clients_plan c opts member in
    let rest = start_clients w c opts member in
    let follows = start_clients-Follows w c opts member in
    optional-Follows c.enable_gnmi_server gnmi_server clients rest _ follows (
      if-Follows (c.server_listen_address == []) (gnmi_server ∷ clients) _ _
        (fails-Follows (gnmi_server ∷ clients) no_listen_address)
        (if-Follows (eqb_ℤ c.server_listen_port (pos 0)) (gnmi_server ∷ clients) _ _
          (fails-Follows (gnmi_server ∷ clients) no_listen_port)
          (behind-Follows (gnmi_server ∷ []) clients rest follows)))

start_manager-Follows :
    (w : World) (c : Config) (opts : StartOpts) (member : Option Text)
    → Follows (manager_plan c opts member) (start_manager w c opts member)
unfolding start_manager
start_manager-Follows w c opts member =
    let effects = manager_plan c opts member in
    if-Follows (not w.manager_is_made) effects _ _ (effects, refl, λ h. ground arith)
      (if-Follows (not w.manager_starts) effects _ _ (fails-Follows effects no_manager) (
        behind-Follows (connection_manager ∷ []) (server_plan c opts member)
          (start_server w c opts member) (start_server-Follows w c opts member)))

LocalIp-cases :
    (r : LocalIp) → ((e : StartError) × (r ≡ ip_error e)) ⊎ ((a : Text) × (r ≡ local_ip a))
LocalIp-cases (ip_error e) = inl (e, refl)
LocalIp-cases (local_ip a) = inr (a, refl)

start_cluster-Follows :
    (w : World) (c : Config) (opts : StartOpts)
    → Follows (cluster_plan w c opts) (start_cluster w c opts)
unfolding start_cluster
start_cluster-Follows w c opts = elim (Bool-cases (is_clustered c)) [
  | inr alone ↦ rw (start_cluster, alone) (start_manager-Follows w c opts none)
  | inl clustered ↦ elim (LocalIp-cases (server_address w c)) [
    | inl (e, unknown) ↦
        let effects = zookeeper ∷ manager_plan c opts none in
        rw (start_cluster, clustered, unknown)
          (if-Follows (not c.enable_gnmi_server) effects _ _ (fails-Follows effects server_required)
            (fails-Follows effects e))
    | inr (address, known) ↦
        let member = some (cluster_member c address) in
        let effects = zookeeper ∷ manager_plan c opts member in
        rw (start_cluster, clustered, known)
          (if-Follows (not c.enable_gnmi_server) effects _ _ (fails-Follows effects server_required)
            (if-Follows (not w.zookeeper_connects) effects _ _ (fails-Follows effects no_zookeeper)
              (behind-Follows (zookeeper ∷ []) (manager_plan c opts member)
                (start_manager w c opts member) (start_manager-Follows w c opts member))))
  ]
]

-- Whatever happens on the way, the gateway sets its parts going in one order: the statistics, Zookeeper,
-- the connection manager, the gNMI server, the registration in the cluster, the loaders and the
-- exporters, each if it is configured. A start that fails has set going the first of them, one that
-- gets to waiting all of them.
pub start_gateway-Follows :
    (w : World) (c : Config) (opts : StartOpts) → Follows (plan w c opts) (start_gateway w c opts)
unfolding start_gateway
start_gateway-Follows w c opts =
    let effects = cluster_plan w c opts in
    let run = start_cluster w c opts in
    let follows = start_cluster-Follows w c opts in
    optional-Follows c.wants_spectator spectator effects run _ follows (
      if-Follows (not w.spectator_starts) (spectator ∷ effects) _ _
        (fails-Follows (spectator ∷ effects) no_spectator)
        (behind-Follows (spectator ∷ []) effects run follows))
