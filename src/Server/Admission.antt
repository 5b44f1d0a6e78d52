-- ===== src/Server/Admission.antt =====
-- Which calls of `Subscribe` start a subscription.
use gnmi_gateway.Prelude.{Bool, true, false, not, some, [], Text, ◌==◌, codes, ◌≡◌, ◌⊎◌}
use gnmi_gateway.Proto.{SubscriptionList, GnmiPath}
use gnmi_gateway.Server.{Call, request, Started, subscribe, rpc_acl}

-- What is true of a subscription that is started.
pub record Admits (call : Call) (s : Started) : Type 0 where
  pub authenticated : rpc_acl call.acl ≡ some s.check
  pub asked : call.received ≡ request (record { subscribe = some s.list })
  pub named : (s.target == []) ≡ false
  pub of_prefix : (p : GnmiPath) × (s.list.prefix ≡ some p) × (s.target ≡ p.target)
  pub known : call.has_target s.target ≡ true
  pub allowed : (s.target ≡ codes "*") ⊎ (s.check s.target ≡ true)
  pub answers : s.processes ≡ not s.marks_sync

-- What is true once the target is accepted.
abbrev Accepted : Call → (Text → Bool) → SubscriptionList → Text → Started → Type 0
Accepted call check list target s =
    (call.has_target target ≡ true)
    × ((target == codes "*") ≡ true ⊎ check target ≡ true)
    × ((s.target ≡ target) × (s.check ≡ check) × (s.list ≡ list) × (s.processes ≡ not s.marks_sync))
