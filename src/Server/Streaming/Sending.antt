-- ===== src/Server/Streaming/Sending.antt =====
-- The sender keeps every leaf fresh.
use gnmi_gateway.Prelude.{
  ℕ, Bool, Option, none, some, eqb, eqb_iff, Bool-cases, inl, inr, arith, ◌≡◌, refl, ap,
}
use gnmi_gateway.Server.Process.{Entry, entry, sync}
use gnmi_gateway.Server.Stream.{End, ends_nil, ends_error, silent, waits, Client}
use gnmi_gateway.Server.Streaming.{
  Answer, got, nothing_yet, closed_now, Queue, Streaming, take_answer, ask, with_leaf, respond,
}
use gnmi_gateway.Server.Streaming.Pending.{IsQueue, in_hand, responded, IsFresh}
use gnmi_gateway.Server.Streaming.Updates.{keeps-IsFresh}

ends_nil-ne-waits : ends_nil ≡ waits → ⊥
ends_nil-ne-waits e = cc

module _ {Q : Type 0} {k : Queue Q} (x : IsQueue k) (client : Client) (covers : ℕ → Bool)
    (size : ℕ) where
  pub take_answer-IsFresh :
      (s : Streaming Q) (d : ℕ) (a : Answer Q)
      → k.next s.queue ≡ a
      → s.hand ≡ none
      → IsFresh x client s d
      → IsFresh x client (take_answer k client covers size s a) d
  unfolding take_answer
  take_answer-IsFresh s d nothing_yet e free h = h
  take_answer-IsFresh s d closed_now e free h = λ going. absurd (ends_nil-ne-waits going)
  take_answer-IsFresh s d (got (entry l) dup r) e free h =
      keeps-IsFresh x client covers size s s.stored s.buffer s.registered s.walk r
        (some (entry l, dup)) d h
        (λ here way. ground (arith, way, x.takes s.queue r l dup d e, ap (λ o. in_hand o d) free))
  take_answer-IsFresh s d (got sync dup r) e free h =
      keeps-IsFresh x client covers size s s.stored s.buffer s.registered s.walk r
        (some (sync, dup)) d h
        (λ here way.
          ground (arith, way, x.takes_sync s.queue r dup d e, ap (λ o. in_hand o d) free))

  pub ask-IsFresh :
      (s : Streaming Q) (d : ℕ) (hand : Option (Entry ℕ × ℕ)) (end : End)
      → s.hand ≡ hand
      → IsFresh x client s d
      → IsFresh x client (ask k client covers size s hand end) d
  unfolding ask
  ask-IsFresh s d (some e) end same h = h
  ask-IsFresh s d none ends_nil same h = h
  ask-IsFresh s d none ends_error same h = h
  ask-IsFresh s d none silent same h = h
  ask-IsFresh s d none waits same h = take_answer-IsFresh s d (k.next s.queue) refl same h

  pub respond-IsFresh :
      (s : Streaming Q) (d : ℕ) (hand : Option (Entry ℕ × ℕ)) (end : End) (ok : Bool)
      → s.hand ≡ hand
      → s.end ≡ end
      → IsFresh x client s d
      → IsFresh x client (respond k client covers size s hand end ok) d
  unfolding respond with_leaf
  respond-IsFresh s d none end ok e going h = h
  respond-IsFresh s d (some (sync, dup)) waits ok e going h = λ again here. elim (h going here) [
    | inl way ↦ inl (ground (arith, way, ap (λ o. in_hand o d) e))
    | inr up ↦ inr up
  ]
  respond-IsFresh s d (some (entry l, dup)) waits ok e going h = λ again here.
      elim (responded client (s.value l) dup ok again) [
        | inl (denied, nothing) ↦ elim (Bool-cases (eqb l d)) [
          | inl same ↦ inr (inl (rw (← ((eqb_iff l d).0 same)) denied))
          | inr apart ↦ elim (h going here) [
            | inl way ↦ inl (ground (arith, way, apart, ap (λ o. in_hand o d) e))
            | inr up ↦ inr (rw nothing up)
          ]
        ]
        | inr one ↦ elim (Bool-cases (eqb l d)) [
          | inl same ↦ inr (inr (dup, rw (one, same, (eqb_iff l d).0 same) refl))
          | inr apart ↦ elim (h going here) [
            | inl way ↦ inl (ground (arith, way, apart, ap (λ o. in_hand o d) e))
            | inr up ↦ inr (rw (one, apart) up)
          ]
        ]
      ]
  respond-IsFresh s d (some (sync, dup)) ends_nil ok e going h = h
  respond-IsFresh s d (some (sync, dup)) ends_error ok e going h = h
  respond-IsFresh s d (some (sync, dup)) silent ok e going h = h
  respond-IsFresh s d (some (entry l, dup)) ends_nil ok e going h = h
  respond-IsFresh s d (some (entry l, dup)) ends_error ok e going h = h
  respond-IsFresh s d (some (entry l, dup)) silent ok e going h = h
