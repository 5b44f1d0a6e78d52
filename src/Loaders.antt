-- ===== src/Loaders.antt =====
-- gateway/loaders: where the target configurations come from. `watch_round` is a round of the loop
-- `WatchConfiguration`, which the JSON, the simple and the NetBox loader write alike.
pub mod Reload
mod Json
mod Registry
pub mod Simple
pub mod Netbox
pub mod Cluster
mod Examples
use gnmi_gateway.Prelude.{not, Option, none, some, List, [], ◌∷◌, Text, Map, has, keys, keep}
use gnmi_gateway.Proto.{Target, Configuration}
use gnmi_gateway.Connections.Manager.{TargetConnectionControl}

-- The names in `m.last.Target` that are missing from the new configuration.
unfoldable pub removed_names : Option Configuration → Configuration → List Text
removed_names none config = []
removed_names (some last) config = keep (λ name. not (has config.target name)) (keys last.target)

-- One round: the new `m.last`, and the message that is sent. `none` is an error of
-- `GetConfiguration`.
unfoldable pub watch_round :
    Option Configuration
    → Option Configuration
    → Option Configuration × Option TargetConnectionControl
watch_round last none = (last, none)
watch_round last (some config) =
    (some config, some (record { insert = some config; remove = removed_names last config }))
