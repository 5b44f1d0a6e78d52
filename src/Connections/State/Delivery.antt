-- ===== src/Connections/State/Delivery.antt =====
-- What reaches the cache, and what the flags of a connection say about each other.
use gnmi_gateway.Prelude.{
  Option, none, some, true, false, List, [], ◌∷◌, Text, ◌==◌, eq_iff, All, if◌then◌else◌, arith,
  ◌≡◌, refl, sym, ◌∙◌, ◌↔◌, ◌≢◌, inl, inr, Option-cases,
}
use gnmi_gateway.Proto.{Notification, Response, PathElem, GnmiPath, get_target}
use gnmi_gateway.Connections.Match.{reject_update}
use gnmi_gateway.Connections.State.{
  CacheApi, ConnectionState, Message, response, other, star, nil, fill_prefix, handle_update,
  mark_connected, count_notification, disconnected, accept_update, update_target_cache,
  count_coalesced,
}
use gnmi_gateway.Connections.State.Errors.{stale_text, texts, handle_update_error_lem}
use gnmi_gateway.Connections.State.Seen.{Event, receives, loses, step, run}

-- A synced connection is connected, and one that is not connected has seen nothing.
pub record IsSane (t : ConnectionState) : Type 0 where
  pub synced_only_if : t.synced ≡ true → t.connected ≡ true
  pub unseen : t.connected ≡ false → t.seen ≡ []

-- The prefix with the target in place of its own one, or a prefix with the target alone.
abbrev pub with_target : Text → Option GnmiPath → GnmiPath
with_target q none = record { origin = []; target = q; elem = [] }
with_target q (some p) = record { origin = p.origin; target = q; elem = p.elem }

-- The notification as it is handed to the cache: it names a target, its own one if it had one, and
-- otherwise the one of the query.
pub record Delivered (q : Text) (n m : Notification) : Type 0 where
  pub named : get_target m.prefix ≢ []
  pub own_name : get_target n.prefix ≢ [] → m.prefix ≡ n.prefix
  pub filled : get_target n.prefix ≡ [] → m.prefix ≡ some (with_target q n.prefix)
  pub same_alias : m.alias ≡ n.alias
  pub same_atomic : m.atomic ≡ n.atomic
  pub same_time : m.timestamp ≡ n.timestamp
  pub same_updates : m.update ≡ n.update
  pub same_deletes : m.delete ≡ n.delete

fill_prefix-Delivered : (q : Text) (n : Notification) → q ≢ [] → Delivered q n (fill_prefix q n)
unfolding fill_prefix ◌==◌
fill_prefix-Delivered q n h = elim (Option-cases n.prefix) [
  | inl absent ↦ record {
    named = ground arith;
    own_name = λ k. ground arith;
    filled = λ k. ground (arith, absent);
    same_alias = refl;
    same_atomic = refl;
    same_time = ground arith;
    same_updates = ground arith;
    same_deletes = ground arith;
  }
  | inr (p, present) ↦ record {
    named = ground (arith, eq_iff p.target []);
    own_name = λ k. ground (arith, eq_iff p.target []);
    filled = λ k. ground (arith, present, eq_iff p.target []);
    same_alias = refl;
    same_atomic = refl;
    same_time = ground arith;
    same_updates = ground arith;
    same_deletes = ground arith;
  }
]

module _ (api : CacheApi) (rejections : List (List PathElem)) where
  open api use {Cache, connect, gnmi_update}

  connected-accept :
      (t : ConnectionState) (cache : Cache) (n : Notification)
      → (accept_update api t cache n).state.connected ≡ t.connected
  unfolding accept_update
  connected-accept t cache n = ground arith

  -- Any message marks the connection as connected.
  connected-handle :
      (t : ConnectionState) (cache : Cache) (msg : Message)
      → (handle_update api rejections t cache msg).state.connected ≡ true
  unfolding handle_update
  connected-handle t cache other = ground arith
  connected-handle t cache (response (Response.update n)) = ground (
    arith,
    connected-accept (mark_connected api (count_notification t) cache).0
        (mark_connected api (count_notification t) cache).1 n,
  )
  connected-handle t cache (response r) = ground arith

  step-IsSane :
      (t : ConnectionState) (cache : Cache) (e : Event)
      → IsSane t
      → IsSane (step api rejections (t, cache) e).0
  unfolding step disconnected
  step-IsSane t cache loses v = ground arith
  step-IsSane t cache (receives msg) v = record {
    synced_only_if = λ _. connected-handle t cache msg;
    unseen = λ h. ground (arith, connected-handle t cache msg);
  }

  -- Whatever the gNMI client reports, a synced connection is connected and one that is not connected
  -- has seen no target.
  pub run-IsSane :
      (t : ConnectionState) (cache : Cache) (es : List Event)
      → IsSane t
      → IsSane (run api rejections (t, cache) es).0
  unfolding run
  run-IsSane t cache [] v = v
  run-IsSane t cache (e ∷ es) v =
      let s = step api rejections (t, cache) e in run-IsSane s.0 s.1 es (step-IsSane t cache e v)

  -- On a connection for one target the notification goes to the cache of the connection's name.
  accept_own :
      (t : ConnectionState) (cache : Cache) (n : Notification)
      → t.query_target ≢ star
      → accept_update api t cache n
        ≡ update_target_cache api
            (count_coalesced t n.update)
            cache
            t.name
            (fill_prefix t.query_target n)
  unfolding accept_update
  accept_own t cache n h = ground (arith, eq_iff t.query_target star)

  update-reply :
      (t : ConnectionState) (cache : Cache) (target : Text) (m : Notification)
      → ((update_target_cache api t cache target m).reply ≡ nil)
        ↔ All (λ e. e ≡ stale_text) (texts (gnmi_update cache target m).1)
  unfolding update_target_cache
  update-reply t cache target m =
      let lem = (handle_update_error_lem t.counters (gnmi_update cache target m).1).0 in
      ((λ h. lem.0 (ground arith)), (λ h. ground (arith, lem.1 h)))

  marked :
      (t : ConnectionState) (cache : Cache)
      → t.query_target ≢ star
      → let s = mark_connected api (count_notification t) cache in
        (s.0.name ≡ t.name)
        × (s.0.query_target ≡ t.query_target)
        × (s.1 ≡ (if t.connected then cache else connect cache t.name))
  unfolding mark_connected count_notification
  marked t cache h = ground (arith, eq_iff t.query_target star)

  -- The cache as an update finds it: a connection that was not connected has announced itself.
  abbrev found : ConnectionState → Cache → Cache
  found t cache = if t.connected then cache else connect cache t.name

  handle_kept :
      (t : ConnectionState) (cache : Cache) (n : Notification)
      → reject_update rejections n ≡ false
      → let s = mark_connected api (count_notification t) cache in
        handle_update api rejections t cache (response (Response.update n))
        ≡ accept_update api s.0 s.1 n
  unfolding handle_update
  handle_kept t cache n kept = rw kept

  handle_own :
      (t : ConnectionState) (cache : Cache) (n : Notification)
      → t.query_target ≢ star
      → reject_update rejections n ≡ false
      → handle_update api rejections t cache (response (Response.update n))
        ≡ update_target_cache api
            (count_coalesced (mark_connected api (count_notification t) cache).0 n.update)
            (found t cache)
            t.name
            (fill_prefix t.query_target n)
  handle_own t cache n not_star kept =
      let s = mark_connected api (count_notification t) cache in
      let (same_name, same_query, same_cache) = marked t cache not_star in
      handle_kept t cache n kept
      ∙ accept_own s.0 s.1 n (λ e. not_star (sym same_query ∙ e))
      ∙ cc (same_name, same_query, same_cache)

  -- On a connection for one target, a notification that is not rejected is handed to the cache of that
  -- target, changed only where its prefix names no target: there the prefix, or an empty one, gets the
  -- target of the query; the client gets an error exactly if
  -- the cache reports one that is not a stale update.
  pub handle_update-Delivered :
      (t : ConnectionState) (cache : Cache) (n : Notification)
      → t.query_target ≢ star
      → t.query_target ≢ []
      → reject_update rejections n ≡ false
      → (m : Notification) × Delivered t.query_target n m
        × (let r = handle_update api rejections t cache (response (Response.update n)) in
            let found = gnmi_update (found t cache) t.name m in
            (r.cache ≡ found.0) × ((r.reply ≡ nil) ↔ All (λ e. e ≡ stale_text) (texts found.1)))
  handle_update-Delivered t cache n not_star not_nil kept = (
    fill_prefix t.query_target n,
    fill_prefix-Delivered t.query_target n not_nil,
    rw (handle_own t cache n not_star kept)
        ((unfold update_target_cache in refl), update-reply _ (found t cache) t.name _),
  )
