-- ===== src/Locking/Local/Exclusion.antt =====
-- Mutual exclusion of the locks of one process, and what the registry says about the holder.
use gnmi_gateway.Prelude.{
  ℕ, true, none, some, List, [], Text, lookup, arith, ◌≡◌, sym, ◌∙◌, ◌↔◌, Option-cases, inl, inr,
}
use gnmi_gateway.Locking.Local.{System, Call, try, load_or_store, deadlock, run, start, get_member}
use gnmi_gateway.Locking.Local.Invariant.{Inv, run-start-Inv, run-id, run-member}

module _ (ids members : ℕ → Text) (cs : List Call) where
  abbrev after : System
  after = run (start ids members) cs

  abbrev Held : ℕ → Type 0
  Held i = (after.locks i).acquired ≡ true

  inv : Inv after
  inv = run-start-Inv ids members cs

  -- After any calls of `Try` and `Unlock` on any locks of a process, at most one of the locks that
  -- were built for one id is acquired.
  pub run-exclusive : (i j : ℕ) → ids i ≡ ids j → Held i → Held j → i ≡ j
  run-exclusive i j e hi hj =
      inv.unique i j hi hj (run-id ids members cs i ∙ e ∙ sym (run-id ids members cs j))

  -- After any calls of `Try` and `Unlock`, `GetMember` names the member of the lock that is acquired
  -- for the id, and returns the empty string if no lock is.
  pub run-get_member :
      ((i : ℕ) → Held i → get_member after.registry (ids i) ≡ members i)
      × ((k : Text) → ((i : ℕ) → ids i ≡ k → ¬ Held i) → get_member after.registry k ≡ [])
  unfolding get_member
  run-get_member = (
    (λ i h. ground (arith, inv.recorded i h, run-id ids members cs i, run-member ids members cs i)),
    (λ k none_held. elim (Option-cases (lookup after.registry k)) [
      | inl e ↦ rw (e, get_member)
      | inr (m, e) ↦
          let o = inv.owned k m e in
          absurd (none_held o.index (sym (run-id ids members cs o.index) ∙ o.at_id) o.holds)
    ]),
  )

  IsFree-iff : (k : Text) → (lookup after.registry k ≡ none) ↔ ((j : ℕ) → ids j ≡ k → ¬ Held j)
  IsFree-iff k = (
    (λ e j at_k h. ground (arith, inv.recorded j h, run-id ids members cs j)),
    (λ free. elim (Option-cases (lookup after.registry k)) [
      | inl e ↦ e
      | inr (m, e) ↦
          let o = inv.owned k m e in
          absurd (free o.index (sym (run-id ids members cs o.index) ∙ o.at_id) o.holds)
    ]),
  )

  -- After any calls, `Try` on a lock that is not acquired acquires it exactly if no lock for its id
  -- is, and never reports an error then; on an acquired lock it reports the deadlock and changes
  -- nothing.
  pub run-try :
      (i : ℕ)
      → let r = try after.registry (after.locks i) in
        (¬ Held i
          → ((r.held ≡ true) ↔ ((j : ℕ) → ids j ≡ ids i → ¬ Held j))
            × (r.error ≡ none)
            × (r.lock.acquired ≡ r.held))
        × (Held i
            → r ≡ record {
              registry = after.registry;
              lock = after.locks i;
              held = true;
              error = some deadlock;
            })
  unfolding try load_or_store
  run-try i = (
    (λ idle.
        let free = IsFree-iff (ids i) in
        let at_id = run-id ids members cs i in
        (
          (
            (λ h. free.0 (ground (arith, at_id, idle))),
            (λ h. ground (arith, free.1 h, at_id, idle)),
          ),
          ground (arith, idle),
          ground (arith, idle),
        )),
    (λ h. ground arith),
  )
