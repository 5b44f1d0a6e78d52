-- ===== src/Connections/State.antt =====
-- gateway/connections/state.go: `ConnectionState` and the callbacks that the gNMI client makes on it.
-- The cache of openconfig/gnmi is the parameter `CacheApi`. A panic of Go is `panics`.
pub mod Equality
pub mod Errors
pub mod Seen
pub mod Delivery
use gnmi_gateway.Prelude.{
  ℕ, ◌+◌, Bool, true, false, not, ◌&&◌, Option, none, some, List, [], ◌∷◌, Text, Map, lookup,
  insert, ◌==◌, codes, eqb, length, if◌then◌else◌,
}
use gnmi_gateway.Proto.{
  GnmiPath, Notification, Update, Response, Credentials, Target, SubscribeRequest, empty_path,
  PathElem,
}
use gnmi_gateway.Connections.Match.{reject_update}
pub use gnmi_gateway.Connections.Counting.{CacheError, one, listed, Counters, no_counts}
unfoldable pub use gnmi_gateway.Connections.Counting.{
  stale_count, handle_cache_error, handle_cache_errors, handle_update_error,
}

-- `cache.Cache` and the targets in it.
pub record CacheApi : Type 1 where
  pub Cache : Type 0
  pub has_target : Cache → Text → Bool
  pub add : Cache → Text → Cache
  pub connect : Cache → Text → Cache
  pub sync : Cache → Text → Cache
  pub reset : Cache → Text → Cache
  pub gnmi_update : Cache → Text → Notification → Cache × Option CacheError

-- `clientCancel` is kept as whether it is set.
pub record ConnectionState : Type 0 where
  pub connection_lock_acquired : Bool
  -- Whether `client` and `clientCancel` are set, which `doConnect` does; until then they are nil.
  pub client : Bool
  pub client_cancel : Bool
  pub cluster_member : Bool
  pub connected : Bool
  pub connecting : Bool
  pub name : Text
  pub no_tls_warning : Bool
  pub query_target : Text
  pub request : Option SubscribeRequest
  pub seen : Map Bool
  pub stopped : Bool
  pub synced : Bool
  pub target : Target
  pub use_lock : Bool
  pub counters : Counters

abbrev pub star : Text
star = codes "*"

same_addresses : List Text → List Text → Bool
same_addresses [] others = true
same_addresses (a ∷ rest) [] = false
same_addresses (a ∷ rest) (b ∷ bs) = b == a && same_addresses rest bs

same_credentials : Option Credentials → Option Credentials → Bool
same_credentials none none = true
same_credentials none (some d) = false
same_credentials (some c) none = false
same_credentials (some c) (some d) = c.username == d.username && c.password == d.password

-- `ConnectionState.Equal`, on the target of the state.
unfoldable pub equal : Target → Target → Bool
unfolding same_addresses same_credentials
equal t other =
    if not (eqb (length t.addresses) (length other.addresses))
    then false
    else same_addresses t.addresses other.addresses
      && same_credentials t.credentials other.credentials

-- `t.seen[target]`; a missing key reads as false.
unfoldable pub seen_target : ConnectionState → Text → Bool
seen_target t target = elim (lookup t.seen target) [ none ↦ false | some b ↦ b ]

pub data Error : Type 0 where
  type_assertion cache_update in_response unknown_response : Error

-- What a callback returns to the gNMI client, or that it panics.
pub data Reply : Type 0 where
  nil panics : Reply
  failed : Error → Reply

coalesce_counts : ℕ → List Update → ℕ
coalesce_counts n [] = n
coalesce_counts n (u ∷ us) = coalesce_counts (n + u.duplicates) us

-- `for _, u := range v.Update.Update { counterCoalesced.Add(...) }`, once synced.
count_coalesced : ConnectionState → List Update → ConnectionState
unfolding coalesce_counts
count_coalesced t us =
    if t.synced
    then record t {
      counters = record t.counters { coalesced = coalesce_counts t.counters.coalesced us };
    }
    else t

-- `Prefix.Target` set to the query's target where a target left it out.
unfoldable pub fill_prefix : Text → Notification → Notification
fill_prefix query_target n =
    let p : GnmiPath = elim n.prefix [ none ↦ empty_path | some p ↦ p ] in
    record n { prefix = some (if p.target == [] then record p { target = query_target } else p) }

pub data Message : Type 0 where
  response : Response → Message
  other : Message

-- The state and the cache after a callback, and what it returns.
pub record Outcome (Cache : Type 0) : Type 0 where
  pub state : ConnectionState
  pub cache : Cache
  pub reply : Reply

count_notification : ConnectionState → ConnectionState
count_notification t = record t {
  counters = record t.counters { notifications = t.counters.notifications + 1 };
}

count_rejected : ConnectionState → ConnectionState
count_rejected t = record t { counters = record t.counters { rejected = t.counters.rejected + 1 } }

see : ConnectionState → Text → ConnectionState
see t target = record t { seen = insert t.seen target true }

-- `sync`, without the goroutine that feeds the gauge.
unfoldable pub sync_state : ConnectionState → ConnectionState
sync_state t = record t {
  synced = true;
  counters = record t.counters { syncs = t.counters.syncs + 1 };
}

module _ (api : CacheApi) where
  open api use {Cache, has_target, add, connect, sync, reset, gnmi_update}

  unfoldable pub update_target_cache : ConnectionState → Cache → Text → Notification → Outcome Cache
  update_target_cache t cache target n =
      let (cache', err) = gnmi_update cache target n in
      let (counters, has_error) = handle_update_error t.counters err in
      record {
        state = record t { counters = counters };
        cache = cache';
        reply = if has_error then failed cache_update else nil;
      }

  -- The query is for every target: the notification names its own.
  update_any : ConnectionState → Cache → Notification → Outcome Cache
  unfolding update_target_cache see
  update_any t cache n = elim n.prefix [
    | none ↦ record { state = t; cache = cache; reply = panics }
    | some p ↦
        let cache' = if has_target cache p.target then cache else add cache p.target in
        update_target_cache (see t p.target) cache' p.target n
  ]

  update_own : ConnectionState → Cache → Notification → Outcome Cache
  unfolding update_target_cache fill_prefix
  update_own t cache n = update_target_cache t cache t.name (fill_prefix t.query_target n)

  unfoldable pub accept_update : ConnectionState → Cache → Notification → Outcome Cache
  unfolding count_coalesced update_any update_own
  accept_update t cache n =
      let t' = count_coalesced t n.update in
      if t'.query_target == star then update_any t' cache n else update_own t' cache n

  unfoldable pub handle_response :
      List (List PathElem) → ConnectionState → Cache → Message → Outcome Cache
  unfolding accept_update count_rejected sync_state
  handle_response rejections t cache other = record {
    state = t;
    cache = cache;
    reply = failed type_assertion;
  }
  handle_response rejections t cache (response (Response.update n)) =
      if reject_update rejections n
      then record { state = count_rejected t; cache = cache; reply = nil }
      else accept_update t cache n
  handle_response rejections t cache (response Response.sync_response) = record {
    state = sync_state t;
    cache = if t.query_target == star then cache else sync cache t.name;
    reply = nil;
  }
  handle_response rejections t cache (response Response.error) = record {
    state = t;
    cache = cache;
    reply = failed in_response;
  }
  handle_response rejections t cache (response Response.unset) = record {
    state = t;
    cache = cache;
    reply = failed unknown_response;
  }

  -- The first message since the connection was made marks the target as connected.
  unfoldable pub mark_connected : ConnectionState → Cache → ConnectionState × Cache
  mark_connected t cache = if t.connected then (t, cache) else (
    record t { connected = true },
    (if t.query_target == star then cache else connect cache t.name),
  )

  -- `handleUpdate`
  unfoldable pub handle_update :
      List (List PathElem) → ConnectionState → Cache → Message → Outcome Cache
  unfolding count_notification mark_connected handle_response
  handle_update rejections t cache msg =
      let (t', cache') = mark_connected (count_notification t) cache in
      handle_response rejections t' cache' msg

  -- The client's callback for a lost connection.
  unfoldable pub disconnected : ConnectionState → Cache → ConnectionState × Cache
  disconnected t cache = (
    record t { connected = false; synced = false; seen = [] },
    (if t.query_target == star then cache else reset cache t.name),
  )
