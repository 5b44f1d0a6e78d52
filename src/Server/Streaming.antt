-- ===== src/Server/Streaming.antt =====
-- A streaming subscription as it runs: gateway/server/server.go with the way of an update to it through
-- gateway/gateway.go. The cache of openconfig/gnmi stores a value in a leaf and then calls its client,
-- `sendUpdateToClients`, which puts the leaf into the buffer of the client `gnmi_server`; the goroutine
-- `run` takes it out and calls `Update` of the server. Meanwhile `Subscribe` registers the subscription,
-- `processSubscription` visits the leaves that the cache holds, and `sendStreamingResults` empties the
-- queue. All of these interleave; a step runs from one shared access to the next. A leaf is a number,
-- and what it holds is read when it is sent. The queue of openconfig/gnmi is a record of its calls.
pub mod Pending
pub mod Updates
pub mod Sending
pub mod Order
pub mod Freshness
mod Example
use gnmi_gateway.Prelude.{
  ℕ, Bool, true, false, not, ◌&&◌, Option, none, some, List, [], ◌∷◌, ◌++◌, any, keep, eqb, ltb,
  length, if◌then◌else◌,
}
use gnmi_gateway.Proto.{Notification}
use gnmi_gateway.Server.Process.{Entry, entry, sync}
use gnmi_gateway.Server.Stream.{
  Next, next, leaf, sync_marker, Sent, End, waits, ends_nil, Client, send_round,
}

-- What `Next` of a queue answers at once.
pub data Answer (Q : Type 0) : Type 0 where
  got : Entry ℕ → ℕ → Q → Answer Q
  nothing_yet closed_now : Answer Q

-- `Insert`, which says whether the queue was open, `Next` and `Close`.
pub record Queue (Q : Type 0) : Type 0 where
  pub insert : Q → Entry ℕ → Q × Bool
  pub next : Q → Answer Q
  pub close : Q → Q

-- The walk of `Query`: it visits in some order the leaves that the cache holds when it begins.
pub data Walk : Type 0 where
  not_begun finished : Walk
  visiting : List ℕ → Walk

pub record Streaming (Q : Type 0) : Type 0 where
  pub tree : List ℕ
  pub value : ℕ → Notification
  -- Leaves that are stored, of which the cache has not told its client yet.
  pub stored : List ℕ
  -- The channel of the `CacheClient`, oldest first.
  pub buffer : List ℕ
  pub registered : Bool
  pub walk : Walk
  pub queue : Q
  -- What `queue.Next` returned last, if it is not sent yet.
  pub hand : Option (Entry ℕ × ℕ)
  -- The responses with their leaves, newest first.
  pub sent : List (ℕ × Sent)
  pub end : End

pub data Step : Type 0 where
  -- The cache stores a value in a leaf, or deletes a leaf and stores the deletion in a new one.
  stores : ℕ → Notification → Step
  deletes : ℕ → ℕ → Notification → Step
  -- `Send` of the cache client, for a leaf that was stored.
  sends_on : ℕ → Step
  -- A round of `run`.
  runs : Step
  registers begins ends_walk : Step
  visits : ℕ → Step
  -- The sender asks the queue, and sends what it got.
  asks : Step
  responds : Bool → Step

-- Without the first occurrence.
unfoldable pub remove_one : ℕ → List ℕ → List ℕ
remove_one l [] = []
remove_one l (d ∷ ds) = let rest = remove_one l ds in if eqb l d then ds else d ∷ rest

unfoldable pub set_value : (ℕ → Notification) → ℕ → Notification → ℕ → Notification
set_value value l n d = if eqb l d then n else value d

unfoldable pub with_leaf : ℕ → List Sent → List (ℕ × Sent) → List (ℕ × Sent)
with_leaf l [] log = log
with_leaf l (r ∷ rs) log = (l, r) ∷ with_leaf l rs log

-- Subscribers are matched by the leaf's path: `covers`. The buffer has `size` places.
module _ {Q : Type 0} (k : Queue Q) (client : Client) (covers : ℕ → Bool) (size : ℕ) where
  -- `Update` of the server: a registered client that covers the leaf has it inserted.
  unfoldable pub server_update : Streaming Q → ℕ → Q
  server_update s l = if s.registered && covers l then (k.insert s.queue (entry l)).0 else s.queue

  unfoldable pub run_buffer : Streaming Q → List ℕ → Streaming Q
  run_buffer s [] = s
  run_buffer s (l ∷ rest) = record s { buffer = rest; queue = server_update s l }

  unfoldable pub visit_leaf : Streaming Q → Walk → ℕ → Streaming Q
  visit_leaf s not_begun l = s
  visit_leaf s finished l = s
  visit_leaf s (visiting todo) l =
      if any (eqb l) todo
      then record s { walk = visiting (remove_one l todo); queue = (k.insert s.queue (entry l)).0 }
      else s

  unfoldable pub end_walk : Streaming Q → Walk → Streaming Q
  end_walk s not_begun = s
  end_walk s finished = s
  end_walk s (visiting (_ ∷ _)) = s
  end_walk s (visiting []) = record s { walk = finished; queue = (k.insert s.queue sync).0 }

  unfoldable pub begin_walk : Streaming Q → Walk → Streaming Q
  begin_walk s finished = s
  begin_walk s (visiting _) = s
  begin_walk s not_begun =
      if s.registered then record s { walk = visiting (keep covers s.tree) } else s

  unfoldable pub take_answer : Streaming Q → Answer Q → Streaming Q
  take_answer s nothing_yet = s
  take_answer s closed_now = record s { end = ends_nil }
  take_answer s (got e dup queue) = record s { queue = queue; hand = some (e, dup) }

  -- `queue.Next`, for a sender that waits and has nothing in its hand.
  unfoldable pub ask : Streaming Q → Option (Entry ℕ × ℕ) → End → Streaming Q
  ask s none waits = take_answer s (k.next s.queue)
  ask s hand end = s

  -- The rest of a round of `sendStreamingResults`.
  unfoldable pub respond : Streaming Q → Option (Entry ℕ × ℕ) → End → Bool → Streaming Q
  respond s (some (sync, dup)) waits ok = record s {
    hand = none;
    end = (send_round client (next sync_marker dup) ok).1;
  }
  respond s (some (entry l, dup)) waits ok =
      let (responses, end) = send_round client (next (leaf (some (s.value l))) dup) ok in
      record s { hand = none; sent = with_leaf l responses s.sent; end = end }
  respond s hand end ok = s

  unfoldable pub stream_step : Streaming Q → Step → Streaming Q
  stream_step s (stores l n) = record s {
    tree = if any (eqb l) s.tree then s.tree else l ∷ s.tree;
    value = set_value s.value l n;
    stored = l ∷ s.stored;
  }
  stream_step s (deletes l d n) = record s {
    tree = keep (λ t. not (eqb l t)) s.tree;
    value = set_value s.value d n;
    stored = d ∷ s.stored;
  }
  stream_step s (sends_on l) =
      if any (eqb l) s.stored && ltb (length s.buffer) size
      then record s { stored = remove_one l s.stored; buffer = s.buffer ++ l ∷ [] }
      else s
  stream_step s runs = run_buffer s s.buffer
  stream_step s registers = record s { registered = true }
  stream_step s begins = begin_walk s s.walk
  stream_step s (visits l) = visit_leaf s s.walk l
  stream_step s ends_walk = end_walk s s.walk
  stream_step s asks = ask s s.hand s.end
  stream_step s (responds ok) = respond s s.hand s.end ok

  unfoldable pub run_stream : Streaming Q → List Step → Streaming Q
  run_stream s [] = s
  run_stream s (step ∷ steps) = run_stream (stream_step s step) steps
