-- ===== src/Server/Process/Sync.antt =====
-- A subscription that is read in full ends with a sync marker.
use mathlib.Core.List.{append_assoc, append-nil}
use gnmi_gateway.Prelude.{
  Bool, true, false, ◌||◌, Option, none, some, List, [], ◌∷◌, ◌++◌, Text, all, if◌then◌else◌, arith,
  ◌≡◌, refl, sym, inl, inr, Option-cases,
}
use gnmi_gateway.Proto.{GnmiPath, SubscriptionList}
use gnmi_gateway.Server.Process.{Entry, sync, Source, visit, process_paths, process_subscription}

module _ {L : Type 0} (s : Source L) (target : Text) where
  -- The path completes, and its query succeeds.
  abbrev pub is_read : Option GnmiPath → Option GnmiPath → Bool
  is_read prefix path = elim (s.complete_path prefix path) [
    | none ↦ false
    | some full ↦ (s.query target full).1
  ]

  -- The leaves with a value under one path.
  abbrev pub leaves_of : Option GnmiPath → Option GnmiPath → List (Entry L)
  leaves_of prefix path = elim (s.complete_path prefix path) [
    | none ↦ []
    | some full ↦ visit (s.query target full).0
  ]

  abbrev pub all_leaves : Option GnmiPath → List (Option GnmiPath) → List (Entry L)
  all_leaves prefix [] = []
  all_leaves prefix (path ∷ paths) = leaves_of prefix path ++ all_leaves prefix paths

  process_paths-ok :
      (prefix : Option GnmiPath) (paths : List (Option GnmiPath)) (queue : List (Entry L))
      → (process_paths s target prefix paths queue).1 ≡ all (is_read prefix) paths
  unfolding process_paths all
  process_paths-ok prefix [] queue = refl
  process_paths-ok prefix (path ∷ paths) queue = elim (Option-cases (s.complete_path prefix path)) [
    | inl e ↦ ground (arith, e)
    | inr (full, e) ↦
        ground (arith, e, process_paths-ok prefix paths (queue ++ visit (s.query target full).0))
  ]

  process_paths-leaves :
      (prefix : Option GnmiPath) (paths : List (Option GnmiPath)) (queue : List (Entry L))
      → all (is_read prefix) paths ≡ true
      → (process_paths s target prefix paths queue).0 ≡ queue ++ all_leaves prefix paths
  unfolding process_paths all
  process_paths-leaves prefix [] queue read = sym (append-nil queue)
  process_paths-leaves prefix (path ∷ paths) queue read =
      elim (Option-cases (s.complete_path prefix path)) [
        | inl e ↦ ground (arith, e)
        | inr (full, e) ↦
            let found = visit (s.query target full).0 in
            ground (
              arith,
              e,
              process_paths-leaves prefix paths (queue ++ found),
              append_assoc queue found (all_leaves prefix paths),
            )
      ]

  -- `processSubscription` succeeds exactly if the subscription is for updates only or every path
  -- completes and is read from the cache. It adds to the queue, behind what is there, the leaves with a
  -- value under the paths, in the order of the paths, and then one sync marker; for updates only it
  -- adds the marker alone.
  pub process_subscription_lem :
      (list : SubscriptionList) (queue : List (Entry L))
      → let r = process_subscription s target list queue in
        let read = all (is_read list.prefix) list.subscription in
        (r.1 ≡ (list.updates_only || read))
        × (r.1 ≡ true
            → r.0 ≡ (
                if list.updates_only
                then queue ++ sync ∷ []
                else (queue ++ all_leaves list.prefix list.subscription) ++ sync ∷ []))
  unfolding process_subscription
  process_subscription_lem list queue = (
    ground (arith, process_paths-ok list.prefix list.subscription queue),
    (λ ok. ground (
      arith,
      process_paths-ok list.prefix list.subscription queue,
      process_paths-leaves list.prefix list.subscription queue,
    )),
  )
