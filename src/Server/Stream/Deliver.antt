-- ===== src/Server/Stream/Deliver.antt =====
-- What reaches a client of the server.
use gnmi_gateway.Prelude.{
  ℕ, zero, suc, sym, ◌∙◌, Bool, true, false, not, ◌&&◌, none, some, List, [], ◌∷◌, ◌++◌, ◌==◌,
  codes, any, keep, map, All, All-append, Bool-cases, inl, inr, if◌then◌else◌, arith, ◌≡◌, refl,
}
use gnmi_gateway.Proto.{Notification, GnmiPath, get_target}
use gnmi_gateway.Server.Stream.{
  leaf, other, sync_marker, Next, next, closed_queue, errs, Sent, sync_sent, update_sent, End,
  ends_nil, ends_error, silent, waits, make_subscribe_response, is_target_delete, Client,
  is_allowed, is_blocked, send_round, send_streaming_results,
}

-- The client may see what is sent, and a member of the cluster is sent only what this gateway
-- forwards.
abbrev pub IsSafe : Client → Sent → Type 0
IsSafe c sync_sent = Unit
IsSafe c (update_sent n) =
    ((p : GnmiPath) → n.prefix ≡ some p → c.check p.target ≡ true)
    × (c.cluster_member ≡ true → c.forwardable (get_target n.prefix) ≡ true)

response-prefix : (n : Notification) (dup : ℕ) → (make_subscribe_response n dup).prefix ≡ n.prefix
unfolding make_subscribe_response
response-prefix n dup = ground arith

update-IsSafe :
    (c : Client) (n : Notification) (dup : ℕ)
    → is_allowed c n ≡ true
    → is_blocked c n ≡ false
    → IsSafe c (update_sent (make_subscribe_response n dup))
unfolding is_allowed is_blocked
update-IsSafe c n dup a b = (
  λ p e. ground (arith, a, sym (response-prefix n dup) ∙ e),
  λ m. ground (arith, response-prefix n dup),
)

send_round-IsSafe :
    (c : Client) (answer : Next) (ok : Bool) → All (IsSafe c) (send_round c answer ok).0
unfolding send_round
send_round-IsSafe c closed_queue ok = tt
send_round-IsSafe c errs ok = tt
send_round-IsSafe c (next sync_marker dup) true = (tt, tt)
send_round-IsSafe c (next sync_marker dup) false = tt
send_round-IsSafe c (next other dup) ok = tt
send_round-IsSafe c (next (leaf none) dup) ok = tt
send_round-IsSafe c (next (leaf (some n)) dup) ok = elim (Bool-cases (is_blocked c n)) [
  | inl blocked ↦ rw blocked tt
  | inr free ↦ elim (Bool-cases (is_allowed c n)) [
    | inl allowed ↦ rw (free, allowed) (sends ok _ (update-IsSafe c n dup allowed free))
    | inr denied ↦ rw (free, denied) tt
  ]
]
  where
    sends :
        (ok : Bool) (e : End)
        → IsSafe c (update_sent (make_subscribe_response n dup))
        → All
            (IsSafe c)
            (if◌then◌else◌ {A = List Sent × End} ok
              (update_sent (make_subscribe_response n dup) ∷ [], e)
              ([], ends_error)).0
    sends true e safe = (safe, tt)
    sends false e safe = tt

-- Whatever the queue holds and whichever sends fail, a client is sent only notifications without a
-- prefix and those whose prefix has a target that its ACL allows, and a member of the cluster only those whose target this gateway forwards.
pub send_streaming_results-IsSafe :
    (c : Client) (answers : List (Next × Bool))
    → All (IsSafe c) (send_streaming_results c answers).0
unfolding send_streaming_results
send_streaming_results-IsSafe c [] = tt
send_streaming_results-IsSafe c ((answer, ok) ∷ answers) =
    goes (send_round c answer ok).1 _ _ _ (send_round-IsSafe c answer ok)
      (send_streaming_results-IsSafe c answers)
  where
    goes :
        (e : End) (sent later : List Sent) (final : End)
        → All (IsSafe c) sent
        → All (IsSafe c) later
        → All
            (IsSafe c)
            (elim e as (λ _. List Sent × End) [
              | waits ↦ (sent ++ later, final)
              | ends_nil ↦ (sent, ends_nil)
              | ends_error ↦ (sent, ends_error)
              | silent ↦ (sent, silent)
            ]).0
    goes waits sent later final now then_on = All-append (IsSafe c) sent later now then_on
    goes ends_nil sent later final now then_on = now
    goes ends_error sent later final now then_on = now
    goes silent sent later final now then_on = now

-- The queue's answers for notifications that the client takes.
abbrev pub taken : List (Notification × ℕ) → List (Next × Bool)
taken = map (λ e. (next (leaf (some e.0)) e.1, true))

-- A member of the cluster is not sent what this gateway does not forward.
abbrev pub is_withheld : Client → Notification → Bool
is_withheld c n = c.cluster_member && not (c.forwardable (get_target n.prefix))

-- The ACL allows the target of the prefix; it is not asked without one.
abbrev pub is_visible : Client → Notification → Bool
is_visible c n = elim n.prefix [ none ↦ true | some p ↦ c.check p.target ]

-- The entries before the first one that is blocked.
abbrev pub unblocked : Client → List (Notification × ℕ) → List (Notification × ℕ)
unblocked c [] = []
unblocked c (e ∷ es) = let rest = unblocked c es in if is_withheld c e.0 then [] else e ∷ rest

-- The deletion of the only target of the subscription.
abbrev pub ends_stream : Client → Notification × ℕ → Bool
ends_stream c e = is_target_delete c.to_strings e.0 && not (c.target == codes "*")

-- The notification with the count of its duplicates, if there are any, in its first update.
abbrev pub counted : Notification → ℕ → Notification
counted n zero = n
counted n (suc dup) = elim n.update [
  | [] ↦ n
  | u ∷ us ↦ record n { update = record u { duplicates = suc dup } ∷ us }
]

abbrev pub responses : List (Notification × ℕ) → List Sent
responses = map (λ e. update_sent (counted e.0 e.1))

response-counted : (n : Notification) (dup : ℕ) → make_subscribe_response n dup ≡ counted n dup
unfolding make_subscribe_response gnmi_gateway.Server.Stream.set_duplicates
response-counted n zero = ground arith
response-counted n (suc dup) = ground arith

-- A client that takes everything is sent, in the order of the queue, every notification that has no
-- prefix or whose target its ACL allows, with the count of its duplicates, if there are any, in its first
-- update, as long as its target is not deleted; for a
-- member of the cluster this stops at the first notification that is not forwardable, and then the
-- loop ends with nothing on the error channel, for which `Subscribe` waits.
pub send_streaming_results-taken :
    (c : Client) (es : List (Notification × ℕ))
    → All (λ e. ends_stream c e ≡ false) es
    → send_streaming_results c (taken es) ≡ (
      responses (keep (λ e. is_visible c e.0) (unblocked c es)),
      if any (λ e. is_withheld c e.0) es then silent else waits,
    )
unfolding send_streaming_results send_round any keep is_allowed is_blocked
send_streaming_results-taken c [] h = refl
send_streaming_results-taken c ((n, dup) ∷ es) h =
    ground (arith, h.0, response-counted n dup, send_streaming_results-taken c es h.1)
