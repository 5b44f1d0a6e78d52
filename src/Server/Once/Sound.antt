-- ===== src/Server/Once/Sound.antt =====
-- The goroutines of a call for ONCE leave the queue closed and their results on `errC`.
use gnmi_gateway.Prelude.{
  ℕ, Bool, true, false, Option, none, some, List, [], ◌∷◌, ◌++◌, arith, ◌≡◌, refl, ◌∙◌,
}
use gnmi_gateway.Proto.{Notification}
use gnmi_gateway.Server.Process.{Entry, entry, sync}
use gnmi_gateway.Server.Stream.{
  next, leaf, sync_marker, End, waits, ends_nil, ends_error, silent, Client, send_round, is_blocked,
}
use gnmi_gateway.Server.Streaming.{Answer, got, nothing_yet, closed_now, Queue}
use gnmi_gateway.Server.Once.{
  after_insert, add_round, Once, Step, walks, asks, returns, cancels, responds, stores, result_of,
  walk_next, send_failure, walk_on, end_sender, take_next, ask_next, respond_to, cancel,
  return_first, once_step,
}
use gnmi_gateway.Server.Once.Measure.{IsDraining, is_silent, has_some, IsSound}

pub has_some-last : {A : Type 0} (xs : List A) (a : A) → has_some (xs ++ a ∷ []) ≡ true
has_some-last [] a = refl
has_some-last (b ∷ xs) a = refl

pub has_some-append :
    {A : Type 0} (xs ys : List A) → has_some xs ≡ true → has_some (xs ++ ys) ≡ true
has_some-append [] ys e = cc
has_some-append (a ∷ xs) ys e = refl

sync-loud :
    (c : Client) (dup : ℕ) (ok : Bool)
    → is_silent (send_round c (next sync_marker dup) ok).1 ≡ false
unfolding send_round
sync-loud c dup ok = ground arith

-- The sender of a client that is no member of the cluster does not end in silence.
leaf-loud :
    (c : Client) (n : Notification) (dup : ℕ) (ok : Bool)
    → c.cluster_member ≡ false
    → is_silent (send_round c (next (leaf (some n)) dup) ok).1 ≡ false
unfolding send_round is_blocked
leaf-loud c n dup ok alone = ground (arith, alone)

module _ {Q : Type 0} {k : Queue Q} (x : IsDraining k) (client : Client) where
  walk_next-IsSound :
      (s : Once Q) (todo : List (Entry ℕ))
      → s.walking ≡ true
      → IsSound x s
      → IsSound x (walk_next k client s todo)
  unfolding walk_next after_insert
  walk_next-IsSound s [] on h = record {
    closes = λ _. x.close_open s.queue;
    answers = h.answers;
    speaks = h.speaks;
  }
  walk_next-IsSound s (d ∷ todo) on h = record {
    closes = λ off. ground (arith, on, off, x.close_open (k.insert s.queue d).0);
    answers = λ over. ground (arith, h.answers, over);
    speaks = ground (arith, h.speaks);
  }

  send_failure-IsSound :
      (s : Once Q) (failing : Bool) → IsSound x s → IsSound x (send_failure k client s failing)
  unfolding send_failure
  send_failure-IsSound s false h = h
  send_failure-IsSound s true h = record {
    closes = h.closes;
    answers = λ over. has_some-last s.err_c false;
    speaks = h.speaks;
  }

  end_sender-IsSound :
      (s : Once Q) (end : End)
      → s.end ≡ waits
      → is_silent end ≡ false
      → (s.walking ≡ false → x.is_open s.queue ≡ false)
      → IsSound x (end_sender k client s end)
  unfolding end_sender result_of
  end_sender-IsSound s waits on loud closes = record {
    closes = closes;
    answers = λ over. cc;
    speaks = loud;
  }
  end_sender-IsSound s ends_nil on loud closes = record {
    closes = closes;
    answers = λ over. has_some-last s.err_c true;
    speaks = loud;
  }
  end_sender-IsSound s ends_error on loud closes = record {
    closes = closes;
    answers = λ over. has_some-last s.err_c false;
    speaks = loud;
  }
  end_sender-IsSound s silent on loud closes = cc

  ask_next-IsSound :
      (s : Once Q) (hand : Option (Entry ℕ × ℕ)) (end : End)
      → s.end ≡ end
      → IsSound x s
      → IsSound x (ask_next k client s hand end)
  unfolding ask_next take_next
  ask_next-IsSound s (some d) end on h = h
  ask_next-IsSound s none ends_nil on h = h
  ask_next-IsSound s none ends_error on h = h
  ask_next-IsSound s none silent on h = h
  ask_next-IsSound s none waits on h = taken (k.next s.queue) refl
    where
      taken : (a : Answer Q) → k.next s.queue ≡ a → IsSound x (take_next k client s a)
      taken nothing_yet e = h
      taken closed_now e = end_sender-IsSound s ends_nil on refl h.closes
      taken (got d dup r) e = record {
        closes = λ off. (x.takes s.queue r d dup e).1 ∙ h.closes off;
        answers = h.answers;
        speaks = h.speaks;
      }

  cancel-IsSound :
      (s : Once Q) (hand : Option (Entry ℕ × ℕ)) (end : End)
      → s.end ≡ end
      → IsSound x s
      → IsSound x (cancel k client s hand end)
  unfolding cancel
  cancel-IsSound s (some d) end on h = h
  cancel-IsSound s none ends_nil on h = h
  cancel-IsSound s none ends_error on h = h
  cancel-IsSound s none silent on h = h
  cancel-IsSound s none waits on h = end_sender-IsSound s ends_error on refl h.closes

  respond_to-IsSound :
      (s : Once Q) (hand : Option (Entry ℕ × ℕ)) (end : End) (ok : Bool)
      → client.cluster_member ≡ false
      → s.end ≡ end
      → IsSound x s
      → IsSound x (respond_to k client s hand end ok)
  unfolding respond_to add_round
  respond_to-IsSound s none end ok alone on h = h
  respond_to-IsSound s (some (sync, dup)) waits ok alone on h =
      end_sender-IsSound (record s { hand = none; rounds = _ }) _ on (sync-loud client dup ok)
        h.closes
  respond_to-IsSound s (some (entry l, dup)) waits ok alone on h =
      end_sender-IsSound (record s { hand = none; rounds = _ }) _ on
        (leaf-loud client (s.value l) dup ok alone) h.closes
  respond_to-IsSound s (some (sync, dup)) ends_nil ok alone on h = h
  respond_to-IsSound s (some (sync, dup)) ends_error ok alone on h = h
  respond_to-IsSound s (some (sync, dup)) silent ok alone on h = h
  respond_to-IsSound s (some (entry l, dup)) ends_nil ok alone on h = h
  respond_to-IsSound s (some (entry l, dup)) ends_error ok alone on h = h
  respond_to-IsSound s (some (entry l, dup)) silent ok alone on h = h

  return_first-IsSound :
      (s : Once Q) (err_c : List Bool) (returned : Option Bool)
      → IsSound x s
      → IsSound x (return_first k client s err_c returned)
  unfolding return_first
  return_first-IsSound s [] returned h = h
  return_first-IsSound s (r ∷ rs) (some v) h = h
  return_first-IsSound s (r ∷ rs) none h = record {
    closes = λ off. x.close_open s.queue;
    answers = h.answers;
    speaks = h.speaks;
  }

  pub once_step-IsSound :
      (s : Once Q) (step : Step)
      → client.cluster_member ≡ false
      → IsSound x s
      → IsSound x (once_step k client s step)
  unfolding once_step walk_on
  once_step-IsSound s walks alone h = walked s.walking refl
    where
      walked : (on : Bool) → s.walking ≡ on → IsSound x (walk_on k client s on)
      walked true e = walk_next-IsSound s s.todo e h
      walked false e = send_failure-IsSound s s.failing h
  once_step-IsSound s asks alone h = ask_next-IsSound s s.hand s.end refl h
  once_step-IsSound s (responds ok) alone h = respond_to-IsSound s s.hand s.end ok alone refl h
  once_step-IsSound s cancels alone h = cancel-IsSound s s.hand s.end refl h
  once_step-IsSound s returns alone h = return_first-IsSound s s.err_c s.returned h
  once_step-IsSound s (stores v) alone h = record {
    closes = h.closes;
    answers = h.answers;
    speaks = h.speaks;
  }
