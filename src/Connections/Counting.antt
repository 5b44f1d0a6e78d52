-- ===== src/Connections/Counting.antt =====
-- gateway/connections/state.go: the metrics of a connection and the errors of the cache that they
-- count. The latency timer and the gauge are left out.
use gnmi_gateway.Prelude.{
  ℕ, ◌+◌, Bool, true, false, Option, none, some, List, [], ◌∷◌, Text, ◌==◌, codes, if◌then◌else◌,
}

-- An error of `cache.Target.GnmiUpdate`: an `errlist.Error` or any other, by their texts.
pub data CacheError : Type 0 where
  one : Text → CacheError
  listed : List Text → CacheError

pub record Counters : Type 0 where
  pub coalesced : ℕ
  pub notifications : ℕ
  pub rejected : ℕ
  pub stale : ℕ
  pub syncs : ℕ

abbrev pub no_counts : Counters
no_counts = record { coalesced = 0; notifications = 0; rejected = 0; stale = 0; syncs = 0 }

unfoldable pub stale_count : Counters → Counters
stale_count c = record c { stale = c.stale + 1 }

-- `handleCacheError`: the counters, and whether the error is passed on. The first case of the Go
-- switch has no body, and Go does not fall through.
unfoldable pub handle_cache_error : Counters → Text → Counters × Bool
unfolding stale_count
handle_cache_error c err =
    if err == codes "suppressed duplicate value"
    then (c, true)
    else if err == codes "update is stale"
    then (stale_count c, false)
    else (c, true)

-- The loop over an error list, which breaks at the first error that is passed on.
unfoldable pub handle_cache_errors : Counters → List Text → Counters × Bool
unfolding handle_cache_error
handle_cache_errors c [] = (c, false)
handle_cache_errors c (err ∷ errs) =
    let (c', has_error) = handle_cache_error c err in
    let rest = handle_cache_errors c' errs in if has_error then (c', true) else rest

unfoldable pub handle_update_error : Counters → Option CacheError → Counters × Bool
unfolding handle_cache_errors
handle_update_error c none = (c, false)
handle_update_error c (some (one err)) = handle_cache_error c err
handle_update_error c (some (listed errs)) = handle_cache_errors c errs
