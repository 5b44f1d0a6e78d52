-- ===== src/Connections/Manager/Outage.antt =====
-- A lost Zookeeper connection.
use gnmi_gateway.Prelude.{
  true, false, not, ◌&&◌, List, [], ◌∷◌, Text, Map, All, Any, keep, map, arith, ◌≡◌, refl, ◌↔◌, inl,
  inr, Bool-cases,
}
use gnmi_gateway.Connections.State.{ConnectionState}
use gnmi_gateway.Connections.Manager.{Unlocked, cancels, panics, also, unlock_all}

-- The connection takes part in locking and its client was never started.
pub record NeverStarted (conn : ConnectionState) : Type 0 where
  pub locks : conn.use_lock ≡ true
  pub no_cancel : conn.client_cancel ≡ false

abbrev pub locked_names : Map ConnectionState → List Text
locked_names conns = map (λ e. e.0) (keep (λ (e : Text × ConnectionState). e.1.use_lock) conns)

abbrev pub Started : Text × ConnectionState → Type 0
Started e = (e.1.use_lock ≡ true) → e.1.client_cancel ≡ true

also_panics : (name : Text) (u : Unlocked) → (also name u ≡ panics) ↔ (u ≡ panics)
unfolding also
also_panics name (cancels names) = ((λ h. cc), (λ h. cc))
also_panics name panics = ((λ h. refl), (λ h. refl))

panics_iff :
    (conns : Map ConnectionState) → (unlock_all conns ≡ panics) ↔ Any (λ e. NeverStarted e.1) conns
unfolding unlock_all
panics_iff [] = ((λ h. cc), (λ h. absurd h))
panics_iff ((name, conn) ∷ conns) =
    let rest = panics_iff conns in
    let passed = also_panics name (unlock_all conns) in
    (
      (λ h. elim (Bool-cases (conn.use_lock && not conn.client_cancel)) [
        | inl mine ↦ inl (record { locks = ground arith; no_cancel = ground arith })
        | inr other ↦ inr (rest.0 (ground (arith, passed)))
      ]),
      (λ h. elim h [
        | inl mine ↦ ground (arith, mine.locks, mine.no_cancel)
        | inr later ↦ ground (arith, rest.1 later, passed)
      ]),
    )

cancels_lem :
    (conns : Map ConnectionState)
    → All Started conns
    → unlock_all conns ≡ cancels (locked_names conns)
unfolding unlock_all keep also
cancels_lem [] h = refl
cancels_lem ((name, conn) ∷ conns) h = ground (arith, h.0, cancels_lem conns h.1)

-- When Zookeeper is lost, the manager cancels the client of every connection that uses a lock if all
-- of those were started, and panics exactly if one of them was not.
pub unlock_all_lem :
    (conns : Map ConnectionState)
    → ((unlock_all conns ≡ panics) ↔ Any (λ e. NeverStarted e.1) conns)
      × (All Started conns → unlock_all conns ≡ cancels (locked_names conns))
unlock_all_lem conns = (panics_iff conns, cancels_lem conns)
