-- ===== src/Server/Once/Kept.antt =====
-- What a call for ONCE keeps of every entry until it returns nil.
use gnmi_gateway.Prelude.{
  ℕ, Bool, true, false, ◌||◌, Option, none, some, List, [], ◌∷◌, any, Bool-cases, inl, inr, arith,
  ◌≡◌, refl, sym, ap, ◌∙◌, true_not_false, none_not_some, some_inj,
}
use gnmi_gateway.Server.Process.{Entry, entry, sync}
use gnmi_gateway.Server.Stream.{End, waits, ends_nil, ends_error, silent, Client}
use gnmi_gateway.Server.Streaming.{Answer, got, nothing_yet, closed_now, Queue}
use gnmi_gateway.Server.Once.{
  after_insert, SenderRound, Once, Step, walks, asks, returns, cancels, responds, stores, result_of,
  walk_next, send_failure, walk_on, end_sender, take_next, ask_next, respond_to, add_round, cancel,
  return_first, once_step, run_once,
}
use gnmi_gateway.Server.Once.Answered.{
  same, IsKeeping, first_ok, first_ok-false, is_nil, first_result, in_hand, is_answered, is_deleted,
}

module _ {Q : Type 0} {k : Queue Q} (x : IsKeeping k) (client : Client) (d : Entry ℕ) where
  abbrev tracked : Once Q → Bool
  tracked s =
      any (same d) s.todo || (x.holds s.queue d || (in_hand s.hand d || is_answered s.rounds d))

  abbrev pub is_complete : Once Q → Bool
  is_complete s = is_deleted s.rounds || is_answered s.rounds d

  pub record IsKept (s : Once Q) : Type 0 where
    pub open_walk : s.returned ≡ none → s.walking ≡ true → x.is_open s.queue ≡ true
    pub tracks : s.returned ≡ none → tracked s ≡ true
    pub over : s.walking ≡ false → any (same d) s.todo ≡ false
    pub first : s.returned ≡ none → first_ok s.err_c ≡ true → is_complete s ≡ true
    pub after : s.returned ≡ some true → is_complete s ≡ true

  after_insert-IsKept :
      (s : Once Q) (i : Entry ℕ) (todo : List (Entry ℕ)) (ok : Bool)
      → s.walking ≡ true
      → s.todo ≡ i ∷ todo
      → (k.insert s.queue i).1 ≡ ok
      → IsKept s
      → IsKept (after_insert k client s todo (k.insert s.queue i).0 ok)
  unfolding after_insert any
  after_insert-IsKept s i todo true on e put_in h = record {
    open_walk = λ r w. x.insert_open s.queue i ∙ h.open_walk r on;
    tracks = λ r.
        ground
          (arith, h.tracks r, ap (any (same d)) e, x.insert_holds s.queue i d (h.open_walk r on));
    over = λ w. absurd (true_not_false (sym on ∙ w));
    first = h.first;
    after = h.after;
  }
  after_insert-IsKept s i todo false on e put_in h = record {
    open_walk = λ r w. absurd (true_not_false (sym w));
    tracks = λ r.
        absurd (true_not_false (sym (h.open_walk r on) ∙ (sym (x.insert_ok s.queue i) ∙ put_in)));
    over = λ w. refl;
    first = h.first;
    after = h.after;
  }

  walk_next-IsKept :
      (s : Once Q) (todo : List (Entry ℕ))
      → s.walking ≡ true
      → s.todo ≡ todo
      → IsKept s
      → IsKept (walk_next k client s todo)
  unfolding walk_next any
  walk_next-IsKept s [] on e h = record {
    open_walk = λ r w. cc;
    tracks = λ r. ground (arith, h.tracks r, x.close_holds s.queue d);
    over = λ w. ap (any (same d)) e;
    first = h.first;
    after = h.after;
  }
  walk_next-IsKept s (i ∷ todo) on e h =
      after_insert-IsKept s i todo (k.insert s.queue i).1 on e refl h

  send_failure-IsKept :
      (s : Once Q) (failing : Bool) → IsKept s → IsKept (send_failure k client s failing)
  unfolding send_failure
  send_failure-IsKept s false h = h
  send_failure-IsKept s true h = record {
    open_walk = h.open_walk;
    tracks = h.tracks;
    over = h.over;
    first = λ r f. h.first r (sym (first_ok-false s.err_c) ∙ f);
    after = h.after;
  }

  -- The sender ends: with nil only if the entry was had, or the target is deleted.
  end_sender-IsKept :
      (s : Once Q) (end : End)
      → IsKept s
      → (s.returned ≡ none → is_nil end ≡ true → is_complete s ≡ true)
      → IsKept (end_sender k client s end)
  unfolding end_sender result_of
  end_sender-IsKept s end h why = record {
    open_walk = h.open_walk;
    tracks = h.tracks;
    over = h.over;
    first = λ r f. elim (first_result s.err_c end f) [
      | inl before ↦ h.first r before
      | inr (nothing, nil) ↦ why r nil
    ];
    after = h.after;
  }

  -- A queue that is closed before the call returns has been closed behind the last entry.
  drained :
      (s : Once Q)
      → IsKept s
      → k.next s.queue ≡ closed_now
      → s.hand ≡ none
      → s.returned ≡ none
      → is_complete s ≡ true
  drained s h e free r =
      let (nothing, shut) = x.closed_holds s.queue d e in
      let off : s.walking ≡ false = elim (Bool-cases s.walking) [
        | inl on ↦ absurd (true_not_false (sym (h.open_walk r on) ∙ shut))
        | inr off ↦ off
      ] in
      ground (arith, h.tracks r, h.over off, nothing, ap (λ o. in_hand o d) free)

  take_next-IsKept :
      (s : Once Q) (a : Answer Q)
      → k.next s.queue ≡ a
      → s.hand ≡ none
      → IsKept s
      → IsKept (take_next k client s a)
  unfolding take_next
  take_next-IsKept s nothing_yet e free h = h
  take_next-IsKept s closed_now e free h =
      end_sender-IsKept s ends_nil h (λ r nil. drained s h e free r)
  take_next-IsKept s (got i dup q) e free h = record {
    open_walk = λ r w. x.takes_open s.queue q i dup e ∙ h.open_walk r w;
    tracks = λ r.
        ground (arith, h.tracks r, x.takes_holds s.queue q i d dup e, ap (λ o. in_hand o d) free);
    over = h.over;
    first = h.first;
    after = h.after;
  }

  ask_next-IsKept :
      (s : Once Q) (hand : Option (Entry ℕ × ℕ)) (end : End)
      → s.hand ≡ hand
      → IsKept s
      → IsKept (ask_next k client s hand end)
  unfolding ask_next
  ask_next-IsKept s (some i) end e h = h
  ask_next-IsKept s none ends_nil e h = h
  ask_next-IsKept s none ends_error e h = h
  ask_next-IsKept s none silent e h = h
  ask_next-IsKept s none waits e h = take_next-IsKept s (k.next s.queue) refl e h

  cancel-IsKept :
      (s : Once Q) (hand : Option (Entry ℕ × ℕ)) (end : End)
      → IsKept s
      → IsKept (cancel k client s hand end)
  unfolding cancel
  cancel-IsKept s (some i) end h = h
  cancel-IsKept s none ends_nil h = h
  cancel-IsKept s none ends_error h = h
  cancel-IsKept s none silent h = h
  cancel-IsKept s none waits h = end_sender-IsKept s ends_error h (λ r nil. cc)

  add_round-IsKept :
      (s : Once Q) (r : SenderRound) (dup : ℕ)
      → s.hand ≡ some (r.item, dup)
      → IsKept s
      → IsKept (add_round k client s r)
  unfolding add_round any
  add_round-IsKept s r dup e h =
      end_sender-IsKept (record s { hand = none; rounds = r ∷ s.rounds }) r.end
        (record {
          open_walk = h.open_walk;
          tracks = λ n. ground (arith, h.tracks n, ap (λ o. in_hand o d) e);
          over = h.over;
          first = λ n f. ground (arith, h.first n f);
          after = λ n. ground (arith, h.after n);
        })
        (λ n nil. ground (arith, nil))

  respond_to-IsKept :
      (s : Once Q) (hand : Option (Entry ℕ × ℕ)) (end : End) (ok : Bool)
      → s.hand ≡ hand
      → IsKept s
      → IsKept (respond_to k client s hand end ok)
  unfolding respond_to
  respond_to-IsKept s none end ok e h = h
  respond_to-IsKept s (some (sync, dup)) waits ok e h = add_round-IsKept s _ dup e h
  respond_to-IsKept s (some (entry l, dup)) waits ok e h = add_round-IsKept s _ dup e h
  respond_to-IsKept s (some (sync, dup)) ends_nil ok e h = h
  respond_to-IsKept s (some (sync, dup)) ends_error ok e h = h
  respond_to-IsKept s (some (sync, dup)) silent ok e h = h
  respond_to-IsKept s (some (entry l, dup)) ends_nil ok e h = h
  respond_to-IsKept s (some (entry l, dup)) ends_error ok e h = h
  respond_to-IsKept s (some (entry l, dup)) silent ok e h = h

  return_first-IsKept :
      (s : Once Q) (err_c : List Bool) (returned : Option Bool)
      → s.err_c ≡ err_c
      → s.returned ≡ returned
      → IsKept s
      → IsKept (return_first k client s err_c returned)
  unfolding return_first
  return_first-IsKept s [] returned e n h = h
  return_first-IsKept s (b ∷ bs) (some v) e n h = h
  return_first-IsKept s (b ∷ bs) none e n h = record {
    open_walk = λ r. absurd (none_not_some (sym r));
    tracks = λ r. absurd (none_not_some (sym r));
    over = h.over;
    first = λ r. absurd (none_not_some (sym r));
    after = λ r. h.first n (ap first_ok e ∙ some_inj r);
  }

  walk_on-IsKept :
      (s : Once Q) (on : Bool) → s.walking ≡ on → IsKept s → IsKept (walk_on k client s on)
  unfolding walk_on
  walk_on-IsKept s true e h = walk_next-IsKept s s.todo e refl h
  walk_on-IsKept s false e h = send_failure-IsKept s s.failing h

  once_step-IsKept : (s : Once Q) (step : Step) → IsKept s → IsKept (once_step k client s step)
  unfolding once_step
  once_step-IsKept s walks h = walk_on-IsKept s s.walking refl h
  once_step-IsKept s asks h = ask_next-IsKept s s.hand s.end refl h
  once_step-IsKept s (responds ok) h = respond_to-IsKept s s.hand s.end ok refl h
  once_step-IsKept s cancels h = cancel-IsKept s s.hand s.end h
  once_step-IsKept s returns h = return_first-IsKept s s.err_c s.returned refl refl h
  once_step-IsKept s (stores v) h = record {
    open_walk = h.open_walk;
    tracks = h.tracks;
    over = h.over;
    first = h.first;
    after = h.after;
  }

  pub run_once-IsKept :
      (s : Once Q) (steps : List Step) → IsKept s → IsKept (run_once k client s steps)
  unfolding run_once
  run_once-IsKept s [] h = h
  run_once-IsKept s (step ∷ steps) h =
      run_once-IsKept (once_step k client s step) steps (once_step-IsKept s step h)
