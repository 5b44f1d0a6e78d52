-- ===== src/Connections/State/Errors.antt =====
-- Which errors of the cache reach the gNMI client.
use gnmi_gateway.Prelude.{
  ℕ, ◌+◌, true, false, Option, none, some, List, [], ◌∷◌, Text, codes, ◌==◌, eq_iff, All,
  if◌then◌else◌, arith, ◌≡◌, refl, ◌↔◌, Bool-cases, inl, inr,
}
use gnmi_gateway.Connections.State.{
  CacheError, one, listed, Counters, handle_cache_error, handle_cache_errors, handle_update_error,
  stale_count,
}

abbrev pub stale_text : Text
stale_text = codes "update is stale"

abbrev pub texts : Option CacheError → List Text
texts none = []
texts (some (one err)) = err ∷ []
texts (some (listed errs)) = errs

-- The stale errors in front of the first other one.
unfoldable pub leading_stale : List Text → ℕ
leading_stale [] = 0
leading_stale (err ∷ errs) =
    let rest = leading_stale errs in if err == stale_text then rest + 1 else 0

-- A stale error is dropped, and any other one is passed on.
handle_cache_error_cases :
    (c : Counters) (err : Text)
    → handle_cache_error c err ≡ (if err == stale_text then (stale_count c, false) else (c, true))
unfolding handle_cache_error
handle_cache_error_cases c err =
    ground
      (arith, eq_iff err (codes "suppressed duplicate value"), eq_iff err (codes "update is stale"))

handle_cache_errors_passed :
    (c : Counters) (errs : List Text)
    → ((handle_cache_errors c errs).1 ≡ false) ↔ All (λ err. err ≡ stale_text) errs
unfolding handle_cache_errors
handle_cache_errors_passed c [] = (λ _. tt, λ _. refl)
handle_cache_errors_passed c (err ∷ errs) = elim (Bool-cases (err == stale_text)) [
  | inl stale ↦
      let rest = handle_cache_errors_passed (stale_count c) errs in
      rw (handle_cache_error_cases c err, stale)
        ((λ h. ((eq_iff err stale_text).0 stale, rest.0 h)), (λ h. rest.1 h.1))
  | inr passed ↦
      rw (handle_cache_error_cases c err, passed)
        ((λ h. cc), (λ h. cc (rw passed at ((eq_iff err stale_text).1 h.0))))
]

handle_cache_errors_counted :
    (c : Counters) (errs : List Text)
    → (handle_cache_errors c errs).0 ≡ record c { stale = c.stale + leading_stale errs }
unfolding handle_cache_errors leading_stale
handle_cache_errors_counted c [] = ground arith
handle_cache_errors_counted c (err ∷ errs) = elim (Bool-cases (err == stale_text)) [
  | inl stale ↦
      rw (handle_cache_error_cases c err, stale)
        (unfold stale_count in ground (arith, handle_cache_errors_counted (stale_count c) errs))
  | inr passed ↦ rw (handle_cache_error_cases c err, passed) (ground arith)
]

-- A single error is handled as a list of one.
handle_one :
    (c : Counters) (err : Text) → handle_cache_error c err ≡ handle_cache_errors c (err ∷ [])
unfolding handle_cache_errors
handle_one c err = elim (Bool-cases (err == stale_text)) [
  | inl stale ↦ rw (handle_cache_error_cases c err, stale)
  | inr passed ↦ rw (handle_cache_error_cases c err, passed)
]

-- The client sees a cache error exactly if some error of the update has another text than
-- "update is stale", and the stale counter grows by the stale errors in front of the first such error.
pub handle_update_error_lem :
    (c : Counters) (err : Option CacheError)
    → (((handle_update_error c err).1 ≡ false) ↔ All (λ e. e ≡ stale_text) (texts err))
      × ((handle_update_error c err).0 ≡ record c { stale = c.stale + leading_stale (texts err) })
unfolding handle_update_error
handle_update_error_lem c none = ((λ _. tt, λ _. refl), handle_cache_errors_counted c [])
handle_update_error_lem c (some (listed errs)) =
    (handle_cache_errors_passed c errs, handle_cache_errors_counted c errs)
handle_update_error_lem c (some (one err)) =
    rw (handle_one c err)
      (handle_cache_errors_passed c (err ∷ []), handle_cache_errors_counted c (err ∷ []))
