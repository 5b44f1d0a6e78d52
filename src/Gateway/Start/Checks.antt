-- ===== src/Gateway/Start/Checks.antt =====
-- When the gateway starts, and what it has set going by then.
use gnmi_gateway.Prelude.{pos, eqb_ℤ, Bool, true, false, not, ◌&&◌, ◌||◌, List, [], all, ◌==◌}
use gnmi_gateway.Gateway.Start.{
  Config, World, Effect, Outcome, fails, exits, waits, local_ip, ip_error, server_address,
  is_clustered,
}

abbrev pub is_waiting : List Effect × Outcome → Bool
is_waiting (_, waits) = true
is_waiting (_, exits) = false
is_waiting (_, fails _) = false

-- The address of the member, if it has one.
abbrev pub has_address : World → Config → Bool
has_address w c = elim (server_address w c) [ local_ip _ ↦ true | ip_error _ ↦ false ]

-- Everything that is checked on the way.
abbrev pub may_start : World → Config → Bool
may_start w c =
    (not c.wants_spectator || w.spectator_starts)
    && (not (is_clustered c) || (c.enable_gnmi_server && has_address w c && w.zookeeper_connects))
    && w.manager_is_made
    && w.manager_starts
    && (not c.enable_gnmi_server
        || (not (c.server_listen_address == []) && not (eqb_ℤ c.server_listen_port (pos 0))))
    && all w.is_loader c.loaders
    && all w.is_exporter c.exporters
