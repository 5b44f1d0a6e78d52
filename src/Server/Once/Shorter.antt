-- ===== src/Server/Once/Shorter.antt =====
-- Every step that does something leaves fewer steps.
use gnmi_gateway.Prelude.{
  ℕ, ◌+◌, ◌<◌, Bool, true, false, Option, none, some, List, [], ◌∷◌, ◌++◌, length, if◌then◌else◌,
  inl, inr, ◌⊎◌, arith, ◌≡◌, refl, ap,
}
use gnmi_gateway.Proto.{Notification}
use gnmi_gateway.Server.Process.{Entry, entry, sync}
use gnmi_gateway.Server.Stream.{End, waits, ends_nil, ends_error, silent, Client}
use gnmi_gateway.Server.Streaming.{Answer, got, nothing_yet, closed_now, Queue}
use gnmi_gateway.Server.Once.{
  after_insert, SenderRound, add_round, Once, Step, walks, asks, returns, cancels, responds, stores,
  walk_next, send_failure, walk_on, end_sender, take_next, ask_next, respond_to, cancel,
  return_first, once_step,
}
use gnmi_gateway.Server.Once.Measure.{IsDraining, is_waiting, has_some, left}
use gnmi_gateway.Server.Once.Sound.{has_some-append}

module _ {Q : Type 0} {k : Queue Q} (x : IsDraining k) (client : Client) where
  -- What a step may change without making progress: the values, and whether the error of
  -- `processSubscription` is on `errC`.
  abbrev pub Change : Once Q → Type 0
  Change s =
      (ℕ → Notification) × Bool × (es : List Bool) × (has_some s.err_c ≡ true → has_some es ≡ true)

  abbrev pub changed : (s : Once Q) → Change s → Once Q
  changed s (v, failing, es, _) = record s { value = v; failing = failing; err_c = es }

  abbrev pub unchanged : (s : Once Q) → Change s
  unchanged s = (s.value, s.failing, s.err_c, λ h. h)

  -- Nothing but these changes, or fewer steps are left.
  abbrev pub Shortens : Once Q → Once Q → Type 0
  Shortens s s' = ((v : Change s) × (s' ≡ changed s v)) ⊎ (left x s' < left x s)

  -- Sending the error of `processSubscription`.
  send_failure-Shortens :
      (s : Once Q) (failing : Bool) → Shortens s (send_failure k client s failing)
  unfolding send_failure
  send_failure-Shortens s true =
      inl ((s.value, false, s.err_c ++ false ∷ [], has_some-append s.err_c (false ∷ [])), refl)
  send_failure-Shortens s false = inl (unchanged s, refl)

  pub walk_next-Shortens :
      (s : Once Q) (todo : List (Entry ℕ))
      → s.walking ≡ true
      → s.todo ≡ todo
      → left x (walk_next k client s todo) < left x s
  unfolding walk_next after_insert
  walk_next-Shortens s [] on e = ground (arith, on, e, x.close_size s.queue)
  walk_next-Shortens s (d ∷ todo) on e = ground (
    arith,
    on,
    ap length e,
    x.insert_size s.queue d,
    x.insert_ok s.queue d,
    x.close_size (k.insert s.queue d).0,
  )

  end_sender-left :
      (s : Once Q) (end : End)
      → left x (end_sender k client s end) + (if is_waiting s.end then 1 else 0)
        ≡ left x s + (if is_waiting end then 1 else 0)
  unfolding end_sender
  end_sender-left s end = omega arith

  pub take_next-Shortens :
      (s : Once Q) (a : Answer Q)
      → k.next s.queue ≡ a
      → s.hand ≡ none
      → s.end ≡ waits
      → (a ≡ nothing_yet) ⊎ (left x (take_next k client s a) < left x s)
  unfolding take_next
  take_next-Shortens s nothing_yet e free on = inl refl
  take_next-Shortens s closed_now e free on = inr (ground (arith, end_sender-left s ends_nil, on))
  take_next-Shortens s (got d dup r) e free on =
      inr (ground (arith, x.takes s.queue r d dup e, free, on))

  add_round-left :
      (s : Once Q) (r : SenderRound) (d : Entry ℕ × ℕ)
      → s.hand ≡ some d
      → s.end ≡ waits
      → left x (add_round k client s r) < left x s
  unfolding add_round
  add_round-left s r d held on =
      ground
        (arith, held, on, end_sender-left (record s { hand = none; rounds = r ∷ s.rounds }) r.end)

  pub respond_to-left :
      (s : Once Q) (d : Entry ℕ) (dup : ℕ) (ok : Bool)
      → s.hand ≡ some (d, dup)
      → s.end ≡ waits
      → left x (respond_to k client s (some (d, dup)) waits ok) < left x s
  unfolding respond_to
  respond_to-left s sync dup ok held on = add_round-left s _ _ held on
  respond_to-left s (entry l) dup ok held on = add_round-left s _ _ held on

  ask_next-Shortens :
      (s : Once Q) (hand : Option (Entry ℕ × ℕ)) (end : End)
      → s.hand ≡ hand
      → s.end ≡ end
      → Shortens s (ask_next k client s hand end)
  unfolding ask_next take_next
  ask_next-Shortens s (some d) end e on = inl (unchanged s, refl)
  ask_next-Shortens s none ends_nil e on = inl (unchanged s, refl)
  ask_next-Shortens s none ends_error e on = inl (unchanged s, refl)
  ask_next-Shortens s none silent e on = inl (unchanged s, refl)
  ask_next-Shortens s none waits e on = elim (take_next-Shortens s (k.next s.queue) refl e on) [
    | inl nothing ↦ inl (unchanged s, rw nothing refl)
    | inr less ↦ inr less
  ]

  cancel-Shortens :
      (s : Once Q) (hand : Option (Entry ℕ × ℕ)) (end : End)
      → s.end ≡ end
      → Shortens s (cancel k client s hand end)
  unfolding cancel
  cancel-Shortens s (some d) end on = inl (unchanged s, refl)
  cancel-Shortens s none ends_nil on = inl (unchanged s, refl)
  cancel-Shortens s none ends_error on = inl (unchanged s, refl)
  cancel-Shortens s none silent on = inl (unchanged s, refl)
  cancel-Shortens s none waits on = inr (ground (arith, end_sender-left s ends_error, on))

  respond_to-Shortens :
      (s : Once Q) (hand : Option (Entry ℕ × ℕ)) (end : End) (ok : Bool)
      → s.hand ≡ hand
      → s.end ≡ end
      → Shortens s (respond_to k client s hand end ok)
  unfolding respond_to
  respond_to-Shortens s none end ok e on = inl (unchanged s, refl)
  respond_to-Shortens s (some (sync, dup)) waits ok e on = inr (respond_to-left s sync dup ok e on)
  respond_to-Shortens s (some (entry l, dup)) waits ok e on =
      inr (respond_to-left s (entry l) dup ok e on)
  respond_to-Shortens s (some (sync, dup)) ends_nil ok e on = inl (unchanged s, refl)
  respond_to-Shortens s (some (sync, dup)) ends_error ok e on = inl (unchanged s, refl)
  respond_to-Shortens s (some (sync, dup)) silent ok e on = inl (unchanged s, refl)
  respond_to-Shortens s (some (entry l, dup)) ends_nil ok e on = inl (unchanged s, refl)
  respond_to-Shortens s (some (entry l, dup)) ends_error ok e on = inl (unchanged s, refl)
  respond_to-Shortens s (some (entry l, dup)) silent ok e on = inl (unchanged s, refl)

  return_first-Shortens :
      (s : Once Q) (err_c : List Bool) (returned : Option Bool)
      → s.returned ≡ returned
      → Shortens s (return_first k client s err_c returned)
  unfolding return_first
  return_first-Shortens s [] returned e = inl (unchanged s, refl)
  return_first-Shortens s (r ∷ rs) (some v) e = inl (unchanged s, refl)
  return_first-Shortens s (r ∷ rs) none e = inr (ground (arith, e, x.close_size s.queue))

  walk_on-Shortens : (s : Once Q) (on : Bool) → s.walking ≡ on → Shortens s (walk_on k client s on)
  unfolding walk_on
  walk_on-Shortens s true e = inr (walk_next-Shortens s s.todo e refl)
  walk_on-Shortens s false e = send_failure-Shortens s s.failing

  pub once_step-Shortens : (s : Once Q) (step : Step) → Shortens s (once_step k client s step)
  unfolding once_step
  once_step-Shortens s walks = walk_on-Shortens s s.walking refl
  once_step-Shortens s asks = ask_next-Shortens s s.hand s.end refl refl
  once_step-Shortens s (responds ok) = respond_to-Shortens s s.hand s.end ok refl refl
  once_step-Shortens s cancels = cancel-Shortens s s.hand s.end refl
  once_step-Shortens s returns = return_first-Shortens s s.err_c s.returned refl
  once_step-Shortens s (stores v) = inl ((v, s.failing, s.err_c, λ h. h), refl)
