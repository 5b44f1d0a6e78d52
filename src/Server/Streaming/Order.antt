-- ===== src/Server/Streaming/Order.antt =====
-- The queue stays open, and the walk follows the registration.
use gnmi_gateway.Prelude.{ℕ, Bool, Option, none, some, List, [], ◌∷◌, arith, ◌≡◌, refl, ap, ◌∙◌}
use gnmi_gateway.Server.Process.{Entry, entry, sync}
use gnmi_gateway.Server.Stream.{End, ends_nil, ends_error, silent, waits, Client}
use gnmi_gateway.Server.Streaming.{
  Answer, got, nothing_yet, closed_now, Queue, Walk, not_begun, finished, visiting, Streaming, Step,
  stores, deletes, sends_on, runs, registers, begins, ends_walk, visits, asks, responds,
  server_update, run_buffer, visit_leaf, end_walk, begin_walk, take_answer, ask, respond,
  stream_step,
}
use gnmi_gateway.Server.Streaming.Pending.{IsQueue, is_begun, IsSound}

module _ {Q : Type 0} {k : Queue Q} (x : IsQueue k) (client : Client) (covers : ℕ → Bool)
    (size : ℕ) where
  pub run_buffer-IsSound :
      (s : Streaming Q) (buffer : List ℕ)
      → IsSound x s
      → IsSound x (run_buffer k client covers size s buffer)
  unfolding run_buffer server_update
  run_buffer-IsSound s [] h = h
  run_buffer-IsSound s (l ∷ rest) h = record {
    open_queue = ground (arith, h.open_queue, x.stays_open s.queue (entry l));
    in_order = h.in_order;
  }

  pub visit_leaf-IsSound :
      (s : Streaming Q) (walk : Walk) (l : ℕ)
      → s.walk ≡ walk
      → IsSound x s
      → IsSound x (visit_leaf k client covers size s walk l)
  unfolding visit_leaf
  visit_leaf-IsSound s not_begun l e h = h
  visit_leaf-IsSound s finished l e h = h
  visit_leaf-IsSound s (visiting todo) l e h = record {
    open_queue = ground (arith, h.open_queue, x.stays_open s.queue (entry l));
    in_order = λ b. ground (arith, h.in_order (ap is_begun e));
  }

  pub end_walk-IsSound :
      (s : Streaming Q) (walk : Walk)
      → s.walk ≡ walk
      → IsSound x s
      → IsSound x (end_walk k client covers size s walk)
  unfolding end_walk
  end_walk-IsSound s not_begun e h = h
  end_walk-IsSound s finished e h = h
  end_walk-IsSound s (visiting (l ∷ todo)) e h = h
  end_walk-IsSound s (visiting []) e h = record {
    open_queue = x.stays_open s.queue sync h.open_queue;
    in_order = λ b. h.in_order (ap is_begun e);
  }

  pub begin_walk-IsSound :
      (s : Streaming Q) (walk : Walk)
      → IsSound x s
      → IsSound x (begin_walk k client covers size s walk)
  unfolding begin_walk
  begin_walk-IsSound s finished h = h
  begin_walk-IsSound s (visiting todo) h = h
  begin_walk-IsSound s not_begun h = record {
    open_queue = ground (arith, h.open_queue);
    in_order = λ b. ground (arith, h.in_order);
  }

  pub ask-IsSound :
      (s : Streaming Q) (hand : Option (Entry ℕ × ℕ)) (end : End)
      → IsSound x s
      → IsSound x (ask k client covers size s hand end)
  unfolding ask take_answer
  ask-IsSound s (some e) end h = h
  ask-IsSound s none ends_nil h = h
  ask-IsSound s none ends_error h = h
  ask-IsSound s none silent h = h
  ask-IsSound s none waits h = taken (k.next s.queue) refl
    where
      taken : (a : Answer Q) → k.next s.queue ≡ a → IsSound x (take_answer k client covers size s a)
      taken nothing_yet e = h
      taken closed_now e = record { open_queue = h.open_queue; in_order = h.in_order }
      taken (got e dup r) same = record {
        open_queue = x.takes_open s.queue r e dup same ∙ h.open_queue;
        in_order = h.in_order;
      }

  pub respond-IsSound :
      (s : Streaming Q) (hand : Option (Entry ℕ × ℕ)) (end : End) (ok : Bool)
      → IsSound x s
      → IsSound x (respond k client covers size s hand end ok)
  unfolding respond
  respond-IsSound s none end ok h = h
  respond-IsSound s (some (sync, dup)) waits ok h = record {
    open_queue = h.open_queue;
    in_order = h.in_order;
  }
  respond-IsSound s (some (entry l, dup)) waits ok h = record {
    open_queue = h.open_queue;
    in_order = h.in_order;
  }
  respond-IsSound s (some (sync, dup)) ends_nil ok h = h
  respond-IsSound s (some (sync, dup)) ends_error ok h = h
  respond-IsSound s (some (sync, dup)) silent ok h = h
  respond-IsSound s (some (entry l, dup)) ends_nil ok h = h
  respond-IsSound s (some (entry l, dup)) ends_error ok h = h
  respond-IsSound s (some (entry l, dup)) silent ok h = h

  pub stream_step-IsSound :
      (s : Streaming Q) (step : Step)
      → IsSound x s
      → IsSound x (stream_step k client covers size s step)
  unfolding stream_step
  stream_step-IsSound s (stores l n) h = record { open_queue = h.open_queue; in_order = h.in_order }
  stream_step-IsSound s (deletes l e n) h = record {
    open_queue = h.open_queue;
    in_order = h.in_order;
  }
  stream_step-IsSound s (sends_on l) h = record {
    open_queue = ground arith;
    in_order = λ b. ground (arith, h.in_order);
  }
  stream_step-IsSound s runs h = run_buffer-IsSound s s.buffer h
  stream_step-IsSound s registers h = record { open_queue = h.open_queue; in_order = λ b. refl }
  stream_step-IsSound s begins h = begin_walk-IsSound s s.walk h
  stream_step-IsSound s ends_walk h = end_walk-IsSound s s.walk refl h
  stream_step-IsSound s (visits l) h = visit_leaf-IsSound s s.walk l refl h
  stream_step-IsSound s asks h = ask-IsSound s s.hand s.end h
  stream_step-IsSound s (responds ok) h = respond-IsSound s s.hand s.end ok h
