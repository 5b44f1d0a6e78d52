-- ===== src/Connections/Manager/Forward.antt =====
-- Which targets an instance may forward to exporters and cluster members.
use gnmi_gateway.Prelude.{
  true, false, [], Text, Map, eq_iff, any, any_iff, Any, arith, ◌≡◌, ◌↔◌, ◌⊎◌, inl, inr, Bool-cases,
}
use gnmi_gateway.Connections.State.{ConnectionState, star, seen_target}
use gnmi_gateway.Connections.Manager.{forwards, forwardable}

-- The connection is to a device, its lock is held if it needs one, and it asks for the target or has
-- seen it.
pub record Forwards (target : Text) (conn : ConnectionState) : Type 0 where
  pub device : conn.cluster_member ≡ false
  pub locked : (conn.use_lock ≡ false) ⊎ (conn.connection_lock_acquired ≡ true)
  pub carries : (conn.query_target ≡ target) ⊎ (seen_target conn target ≡ true)

forwards_iff :
    (target : Text) (e : Text × ConnectionState) → (forwards target e ≡ true) ↔ Forwards target e.1
unfolding forwards
forwards_iff target (name, conn) = (
  (λ h. record {
    device = ground arith;
    locked = ground arith;
    carries = ground (arith, eq_iff conn.query_target target);
  }),
  (λ f. ground (arith, f.device, f.locked, f.carries, eq_iff conn.query_target target)),
)

-- `Forwardable` holds exactly for the target "*", for the empty target, and for a target that some
-- connection to a device, with its lock held if it needs one, asks for or has seen.
pub forwardable_iff :
    (conns : Map ConnectionState) (target : Text)
    → (forwardable conns target ≡ true)
      ↔ ((target ≡ star) ⊎ (target ≡ []) ⊎ Any (λ e. Forwards target e.1) conns)
unfolding forwardable
forwardable_iff conns target =
    let found = any_iff (λ e. Forwards target e.1) (forwards target) (forwards_iff target) conns in
    (
      (λ h. elim (Bool-cases (any (forwards target) conns)) [
        | inl hit ↦ inr (inr (found.0 hit))
        | inr miss ↦ ground (arith, eq_iff target star, eq_iff target [])
      ]),
      (λ h. ground (arith, eq_iff target star, eq_iff target [], h, found.1)),
    )
