-- ===== src/Exporters/Delta.antt =====
-- gateway/exporters/prometheus/delta.go: `DeltaCalculator`. The values are those of Go's float64, with
-- its subtraction and its zero as arguments; a hash is a number, and the history is a function of it.
-- The mutex is held for a whole call.
use gnmi_gateway.Prelude.{
  ℕ, Bool, Option, none, some, List, [], ◌∷◌, eqb, is_some, if◌then◌else◌, arith, ◌≡◌, refl,
  Option-cases, inl, inr,
}

module _ {F : Type 0} (minus : F → F → F) (zero_value : F) where
  abbrev pub History : Type 0
  History = ℕ → Option F

  abbrev pub set : History → ℕ → F → History
  set history hash value other = if eqb hash other then some value else history other

  -- `Calc`: the delta, whether there was a value, and the new history.
  unfoldable pub calc : History → ℕ → F → F × Bool × History
  calc history hash value =
      let old : F = elim (history hash) [ none ↦ zero_value | some v ↦ v ] in
      (minus value old, is_some (history hash), set history hash value)

  -- The history after calls.
  abbrev pub after : History → List (ℕ × F) → History
  after history [] = history
  after history ((hash, value) ∷ calls) = after (calc history hash value).2 calls

  -- The value of the last call for a hash.
  abbrev pub last_value : List (ℕ × F) → ℕ → Option F
  last_value [] hash = none
  last_value ((k, v) ∷ calls) hash = elim (last_value calls hash) [
    | some w ↦ some w
    | none ↦ if eqb k hash then some v else none
  ]

  after-last_value :
      (history : History) (calls : List (ℕ × F)) (hash : ℕ)
      → after history calls hash
        ≡ elim (last_value calls hash) [ some w ↦ some w | none ↦ history hash ]
  unfolding calc
  after-last_value history [] hash = refl
  after-last_value history ((k, v) ∷ calls) hash =
      ground (arith, after-last_value (set history k v) calls hash)

  -- After any calls on a new calculator, `Calc` subtracts the value of the last call for the same hash
  -- and says that there was one; without such a call it subtracts zero and says that there was none.
  pub calc-after :
      (calls : List (ℕ × F)) (hash : ℕ) (value : F)
      → let r = calc (after (λ _. none) calls) hash value in
        (r.0 ≡ minus value (elim (last_value calls hash) [ some w ↦ w | none ↦ zero_value ]))
        × (r.1 ≡ is_some (last_value calls hash))
  unfolding calc
  calc-after calls hash value = elim (Option-cases (last_value calls hash)) [
    | inl e ↦ let h = after-last_value (λ _. none) calls hash in (rw (h, e) refl, rw (h, e) refl)
    | inr (w, e) ↦
        let h = after-last_value (λ _. none) calls hash in (rw (h, e) refl, rw (h, e) refl)
  ]
