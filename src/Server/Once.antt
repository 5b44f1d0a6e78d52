-- ===== src/Server/Once.antt =====
-- gateway/server/server.go: a whole call of `Subscribe` for ONCE. The goroutine that calls
-- `processSubscription` and then closes the queue, `sendStreamingResults`, and `Subscribe` itself, which
-- waits for the first value on `errC`, interleave. What `processSubscription` inserts is a list (that of
-- Server/Process), a leaf is a number whose value is read when it is sent, and the queue is the record of
-- Server/Streaming. `errC` has room for three values, and no goroutine sends more than one. The
-- timer of a send is left out.
pub mod Measure
pub mod Shorter
pub mod Sound
pub mod Returns
pub mod Answered
pub mod Kept
pub mod Complete
mod Example
use gnmi_gateway.Prelude.{
  ℕ, Bool, true, false, not, Option, none, some, List, [], ◌∷◌, ◌++◌, if◌then◌else◌,
}
use gnmi_gateway.Proto.{Notification}
use gnmi_gateway.Server.Process.{Entry, entry, sync}
use gnmi_gateway.Server.Stream.{
  next, leaf, sync_marker, Sent, End, waits, ends_nil, ends_error, silent, Client, send_round,
}
use gnmi_gateway.Server.Streaming.{Answer, got, nothing_yet, closed_now, Queue}

-- A round of the sender: what the queue returned, what was sent for it, and how the round ended.
pub record SenderRound : Type 0 where
  pub item : Entry ℕ
  pub responses : List Sent
  pub end : End

-- The rounds are kept newest first. `complete` says that `processSubscription` meets no error of
-- the cache, and `failing` that it has closed the queue because of an error and is still to send the error;
-- a value on `errC` is true for nil.
pub record Once (Q : Type 0) : Type 0 where
  pub todo : List (Entry ℕ)
  pub complete : Bool
  pub walking : Bool
  pub failing : Bool
  pub value : ℕ → Notification
  pub queue : Q
  pub hand : Option (Entry ℕ × ℕ)
  pub rounds : List SenderRound
  pub end : End
  pub err_c : List Bool
  pub returned : Option Bool

-- A step of the walk, of the sender or of `Subscribe`, the end of the call's context while the sender
-- waits for the queue, or values that the cache stores.
pub data Step : Type 0 where
  walks asks returns cancels : Step
  responds : Bool → Step
  stores : (ℕ → Notification) → Step

-- What the end of the sender puts on `errC`.
unfoldable pub result_of : End → List Bool
result_of waits = []
result_of silent = []
result_of ends_nil = true ∷ []
result_of ends_error = false ∷ []

module _ {Q : Type 0} (k : Queue Q) (client : Client) where
  -- After an insertion. After an error, as on a closed queue, the queue is closed; the error is passed on
  -- in a step of its own.
  unfoldable pub after_insert : Once Q → List (Entry ℕ) → Q → Bool → Once Q
  after_insert s todo queue true = record s { todo = todo; queue = queue }
  after_insert s todo queue false = record s {
    todo = [];
    walking = false;
    queue = k.close queue;
    failing = true;
  }

  -- The next insertion, or the end of `processSubscription` and `Close`: the one in its deferred function if the
  -- cache has answered with an error, and otherwise the one behind it.
  unfoldable pub walk_next : Once Q → List (Entry ℕ) → Once Q
  walk_next s [] = record s { walking = false; queue = k.close s.queue; failing = not s.complete }
  walk_next s (e ∷ todo) = let (queue, ok) = k.insert s.queue e in after_insert s todo queue ok

  -- `c.errC <- err` of the deferred function, and the `Close` behind it of a closed queue.
  unfoldable pub send_failure : Once Q → Bool → Once Q
  send_failure s true = record s { failing = false; err_c = s.err_c ++ false ∷ [] }
  send_failure s false = s

  unfoldable pub walk_on : Once Q → Bool → Once Q
  walk_on s true = walk_next s s.todo
  walk_on s false = send_failure s s.failing

  -- The sender ends, or goes on.
  unfoldable pub end_sender : Once Q → End → Once Q
  end_sender s end = record s { end = end; err_c = s.err_c ++ result_of end }

  unfoldable pub take_next : Once Q → Answer Q → Once Q
  take_next s nothing_yet = s
  take_next s closed_now = end_sender s ends_nil
  take_next s (got e dup queue) = record s { queue = queue; hand = some (e, dup) }

  unfoldable pub ask_next : Once Q → Option (Entry ℕ × ℕ) → End → Once Q
  ask_next s none waits = take_next s (k.next s.queue)
  ask_next s hand end = s

  -- The context of the call ends.
  unfoldable pub cancel : Once Q → Option (Entry ℕ × ℕ) → End → Once Q
  cancel s none waits = end_sender s ends_error
  cancel s hand end = s

  unfoldable pub add_round : Once Q → SenderRound → Once Q
  add_round s r = end_sender (record s { hand = none; rounds = r ∷ s.rounds }) r.end

  unfoldable pub respond_to : Once Q → Option (Entry ℕ × ℕ) → End → Bool → Once Q
  respond_to s (some (sync, dup)) waits ok =
      let (responses, end) = send_round client (next sync_marker dup) ok in
      add_round s (record { item = sync; responses = responses; end = end })
  respond_to s (some (entry l, dup)) waits ok =
      let (responses, end) = send_round client (next (leaf (some (s.value l))) dup) ok in
      add_round s (record { item = entry l; responses = responses; end = end })
  respond_to s hand end ok = s

  -- `return <-errC`, which closes the queue.
  unfoldable pub return_first : Once Q → List Bool → Option Bool → Once Q
  return_first s (e ∷ _) none = record s { returned = some e; queue = k.close s.queue }
  return_first s err_c returned = s

  unfoldable pub once_step : Once Q → Step → Once Q
  once_step s walks = walk_on s s.walking
  once_step s asks = ask_next s s.hand s.end
  once_step s (responds ok) = respond_to s s.hand s.end ok
  once_step s cancels = cancel s s.hand s.end
  once_step s returns = return_first s s.err_c s.returned
  once_step s (stores value) = record s { value = value }

  unfoldable pub run_once : Once Q → List Step → Once Q
  run_once s [] = s
  run_once s (step ∷ steps) = run_once (once_step s step) steps

  -- The state in which `Subscribe` starts its goroutines, with a new queue.
  unfoldable pub start_once : List (Entry ℕ) × Bool → (ℕ → Notification) → Q → Once Q
  start_once (todo, complete) value queue = record {
    todo = todo;
    complete = complete;
    walking = true;
    failing = false;
    value = value;
    queue = queue;
    hand = none;
    rounds = [];
    end = waits;
    err_c = [];
    returned = none;
  }
