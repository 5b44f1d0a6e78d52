-- ===== src/Connections/Examples.antt =====
-- Runs of the connection manager and instances of its theorems, at two routers r1 and r2.
use gnmi_gateway.Prelude.{
  Bool, is_some, pos, true, false, none, some, List, [], ◌∷◌, Text, Map, lookup, codes, ◌≡◌, refl,
  ◌==◌, inl, inr, any, all,
}
use gnmi_gateway.Proto.{PathElem, Notification, Response, Target}
use gnmi_gateway.Connections.Match.{match_path, reject_update, match_elems, match_keys}
use gnmi_gateway.Connections.Match.Covers.{match_path_iff, reject_update_iff}
use gnmi_gateway.Connections.State.{
  CacheApi, listed, ConnectionState, response, no_counts, star, seen_target, handle_update_error,
  handle_update, nil,
}
use gnmi_gateway.Connections.State.Errors.{handle_update_error_lem, stale_text}
use gnmi_gateway.Connections.State.Seen.{Event, receives, loses, run, run-seen}
use gnmi_gateway.Connections.State.Delivery.{handle_update-Delivered}
use gnmi_gateway.Connections.Manager.{
  Settings, TargetConnectionControl, handle_target_control_msg, forwardable, unlock_all, panics,
}
use gnmi_gateway.Connections.Manager.Fate.{HasFate, handle-fate}
use gnmi_gateway.Connections.Manager.Forward.{forwardable_iff}
use gnmi_gateway.Connections.Manager.Outage.{unlock_all_lem}

abbrev plain : Text → PathElem
plain name = record { name = name; key = none }

abbrev interface_key : PathElem
interface_key = record { name = codes "interface"; key = some ((codes "name", codes "eth0") ∷ []) }

abbrev counters_path : List PathElem
counters_path = plain (codes "interfaces") ∷ interface_key ∷ plain (codes "state") ∷ []

abbrev rejection : List PathElem
rejection = plain (codes "interfaces") ∷ interface_key ∷ []

abbrev notification : Text → Notification
notification target = record {
  timestamp = pos 7;
  prefix = some (record { origin = []; target = target; elem = [] });
  alias = [];
  update =
      record {
        path = some (record { origin = []; target = []; elem = counters_path });
        val = none;
        duplicates = 0;
      }
      ∷ [];
  delete = [];
  atomic = false;
}

counters_covered : match_path counters_path rejection ≡ true
unfolding match_path match_elems match_keys all lookup ◌==◌
counters_covered = refl

reject_update_iff_example : reject_update (rejection ∷ []) (notification (codes "r1")) ≡ true
reject_update_iff_example =
    (reject_update_iff (rejection ∷ []) (notification (codes "r1"))).1
      (inl (inl ((match_path_iff counters_path rejection).0 counters_covered)))

abbrev router : Text → Map Text → Target
router address meta = record {
  addresses = address ∷ [];
  credentials = some (record { username = codes "admin"; password = codes "secret" });
  request = codes "all";
  meta = meta;
}

handle_update_error_lem_example :
    (handle_update_error no_counts (some (listed (stale_text ∷ stale_text ∷ [])))).1 ≡ false
handle_update_error_lem_example =
    (handle_update_error_lem no_counts (some (listed (stale_text ∷ stale_text ∷ [])))).0.1
      (refl, (refl, tt))

-- A cache that keeps every notification, newest first.
abbrev log_cache : CacheApi
log_cache = record {
  Cache = List (Text × Notification);
  has_target = λ c t. true;
  add = λ c t. c;
  connect = λ c t. c;
  sync = λ c t. c;
  reset = λ c t. [];
  gnmi_update = λ c t n. ((t, n) ∷ c, none);
}

abbrev connection_with : Bool → Text → ConnectionState
connection_with client query_target = record {
  connection_lock_acquired = false;
  client = client;
  client_cancel = client;
  cluster_member = false;
  connected = false;
  connecting = true;
  name = codes "r1";
  no_tls_warning = false;
  query_target = query_target;
  request = none;
  seen = [];
  stopped = false;
  synced = false;
  target = router (codes "10.0.0.1:9339") [];
  use_lock = false;
  counters = no_counts;
}

abbrev connection : Text → ConnectionState
connection = connection_with false

abbrev reports : Text → Event
reports target = receives (response (Response.update (notification target)))

abbrev story : List Event
story = reports (codes "r1") ∷ loses ∷ reports (codes "r2") ∷ []

nothing_rejected : (target : Text) → reject_update [] (notification target) ≡ false
unfolding reject_update any
nothing_rejected target = refl

run-seen_example : seen_target (run log_cache [] (connection star, []) story).0 (codes "r2") ≡ true
run-seen_example =
    (run-seen log_cache [] (connection star) [] story (codes "r2") refl).1
      (inl (inr (inr (inl ((nothing_rejected (codes "r2"), _, refl, refl), tt)))))

handle_update-Delivered_example :
    (handle_update log_cache []
      (connection (codes "r1"))
      []
      (response (Response.update (notification [])))).reply
    ≡ nil
handle_update-Delivered_example =
    (handle_update-Delivered log_cache [] (connection (codes "r1")) [] (notification []) (λ e. cc)
        (λ e. cc) (nothing_rejected [])).2.1.1
      tt

abbrev settings : Settings
settings = record {
  zookeeper_prefix = codes "/gnmi/gateway/";
  server_address = codes "10.0.0.9";
  server_port = pos 9339;
  zk_conn = true;
}

abbrev reload : TargetConnectionControl
reload = record {
  insert =
      some (record { request = []; target = (codes "r2", router (codes "10.0.0.2:9339") []) ∷ [] });
  remove = codes "r1" ∷ [];
}

abbrev known : Map ConnectionState
known = (codes "r1", connection (codes "r1")) ∷ []

abbrev running : Map ConnectionState
running = (codes "r1", connection_with true (codes "r1")) ∷ []

handle-fate_example :
    HasFate settings running reload (handle_target_control_msg settings running reload)
unfolding lookup
handle-fate_example = handle-fate settings running reload (refl, tt)

r1-is_removed : is_some (handle_target_control_msg settings running reload) ≡ true
unfolding lookup ◌==◌ handle_target_control_msg gnmi_gateway.Connections.Manager.remove_targets
    gnmi_gateway.Connections.Manager.insert_targets gnmi_gateway.Connections.Manager.insert_target
    gnmi_gateway.Prelude.erase
r1-is_removed = refl

-- A connection that still waits for a slot has no client: its removal makes the manager panic.
r1-panics : handle_target_control_msg settings known reload ≡ none
unfolding lookup ◌==◌ handle_target_control_msg gnmi_gateway.Connections.Manager.remove_targets
r1-panics = refl

forwardable_iff_example : forwardable known (codes "r1") ≡ true
forwardable_iff_example =
    (forwardable_iff known (codes "r1")).1
      (inr (inr (inl (record { device = refl; locked = inl refl; carries = inl refl }))))

unlock_all_lem_example :
    unlock_all ((codes "r1", record (connection []) { use_lock = true }) ∷ []) ≡ panics
unlock_all_lem_example =
    (unlock_all_lem ((codes "r1", record (connection []) { use_lock = true }) ∷ [])).0.1
      (inl (record { locks = refl; no_cancel = refl }))
