-- ===== src/Server/Streaming/Example.antt =====
-- A list as the queue, and a subscription that a value overtakes.
use gnmi_gateway.Prelude.{
  ℕ, suc, pos, ◌+◌, Bool, true, false, ◌||◌, Option, none, some, List, [], ◌∷◌, codes, eqb,
  if◌then◌else◌, arith, ◌≡◌, refl, inl, inr, ◌⊎◌, any,
}
use gnmi_gateway.Proto.{Notification, empty_path}
use gnmi_gateway.Server.Process.{Entry, entry, sync}
use gnmi_gateway.Server.Stream.{Client, waits, update_sent, make_subscribe_response}
use gnmi_gateway.Server.Streaming.{
  Answer, got, nothing_yet, Queue, not_begun, Streaming, Step, stores, deletes, sends_on, runs,
  registers, begins, ends_walk, visits, asks, responds, run_stream, stream_step,
}
use gnmi_gateway.Server.Streaming.Pending.{IsQueue, on_its_way, IsUpToDate}
use gnmi_gateway.Server.Streaming.Freshness.{run_stream-IsFresh}

abbrev Items : Type 0
Items = List (Entry ℕ × ℕ)

abbrev same : Entry ℕ → Entry ℕ → Bool
same sync sync = true
same sync (entry d) = false
same (entry l) sync = false
same (entry l) (entry d) = eqb l d

-- An entry that is there is counted up.
abbrev put_item : Items → Entry ℕ → Items
put_item [] e = (e, 0) ∷ []
put_item ((d, dup) ∷ q) e =
    let rest = put_item q e in if same d e then (d, suc dup) ∷ q else (d, dup) ∷ rest

abbrev take_first : Items → Answer Items
take_first [] = nothing_yet
take_first ((e, dup) ∷ q) = got e dup q

abbrev holds : Items → ℕ → Bool
holds [] d = false
holds ((sync, _) ∷ q) d = holds q d
holds ((entry l, _) ∷ q) d = eqb l d || holds q d

abbrev items : Queue Items
items = record { insert = λ q e. (put_item q e, true); next = take_first; close = λ q. q }

put_entry : (q : Items) (l d : ℕ) → holds (put_item q (entry l)) d ≡ (eqb l d || holds q d)
put_entry [] l d = refl
put_entry ((sync, n) ∷ q) l d = put_entry q l d
put_entry ((entry e, n) ∷ q) l d = ground (arith, put_entry q l d)

put_sync : (q : Items) (d : ℕ) → holds (put_item q sync) d ≡ holds q d
put_sync [] d = refl
put_sync ((sync, n) ∷ q) d = refl
put_sync ((entry e, n) ∷ q) d = ground (arith, put_sync q d)

takes_entry :
    (q r : Items) (l dup d : ℕ)
    → take_first q ≡ got (entry l) dup r
    → (eqb l d || holds r d) ≡ holds q d
takes_entry [] r l dup d e = ground arith
takes_entry ((sync, n) ∷ q) r l dup d e = ground arith
takes_entry ((entry i, n) ∷ q) r l dup d e = ground arith

takes_mark : (q r : Items) (dup d : ℕ) → take_first q ≡ got sync dup r → holds r d ≡ holds q d
takes_mark [] r dup d e = ground arith
takes_mark ((sync, n) ∷ q) r dup d e = ground arith
takes_mark ((entry i, n) ∷ q) r dup d e = ground arith

items-IsQueue : IsQueue items
items-IsQueue = record {
  holds = holds;
  is_open = λ q. true;
  inserts = λ q l d o. put_entry q l d;
  inserts_sync = put_sync;
  stays_open = λ q e o. refl;
  takes = takes_entry;
  takes_sync = takes_mark;
  takes_open = λ q r e dup h. refl;
}

-- The ACL allows every target.
abbrev client : Client
client = record {
  target = codes "r1";
  check = λ _. true;
  cluster_member = false;
  forwardable = λ _. true;
  to_strings = λ p b. [];
}

abbrev report : ℕ → Notification
report time = record {
  timestamp = pos time;
  prefix = some (record empty_path { target = codes "r1" });
  alias = [];
  update = [];
  delete = [];
  atomic = false;
}

abbrev start : Streaming Items
start = record {
  tree = 5 ∷ [];
  value = λ _. report 1;
  stored = [];
  buffer = [];
  registered = false;
  walk = not_begun;
  queue = [];
  hand = none;
  sent = [];
  end = waits;
}

-- Leaf 5 gets a new value after it was visited and before it is sent, and then once more.
abbrev steps : List Step
steps =
    registers
    ∷ begins
    ∷ visits 5
    ∷ stores 5 (report 2)
    ∷ ends_walk
    ∷ asks
    ∷ sends_on 5
    ∷ responds true
    ∷ runs
    ∷ stores 5 (report 3)
    ∷ []

run_stream-IsFresh_example :
    let s = run_stream items client (λ _. true) 10 start steps in
    (on_its_way items-IsQueue s 5 ≡ true) ⊎ IsUpToDate client s 5
unfolding run_stream stream_step items-IsQueue gnmi_gateway.Server.Streaming.run_buffer
    gnmi_gateway.Server.Streaming.respond any gnmi_gateway.Server.Streaming.ask
    gnmi_gateway.Server.Streaming.end_walk gnmi_gateway.Server.Streaming.visit_leaf
    gnmi_gateway.Server.Streaming.begin_walk gnmi_gateway.Prelude.keep
    gnmi_gateway.Server.Streaming.remove_one gnmi_gateway.Server.Streaming.take_answer
    gnmi_gateway.Server.Stream.send_round gnmi_gateway.Server.Stream.is_blocked
    gnmi_gateway.Server.Stream.is_allowed gnmi_gateway.Server.Streaming.set_value
    gnmi_gateway.Server.Stream.is_target_delete
run_stream-IsFresh_example =
    run_stream-IsFresh items-IsQueue client (λ _. true) 10 start steps 5 refl refl refl refl refl

-- With every step done, the client has the response for the last value.
abbrev more : List Step
more = asks ∷ responds true ∷ sends_on 5 ∷ runs ∷ asks ∷ responds true ∷ []

catches_up :
    (run_stream items client
      (λ _. true)
      10
      (run_stream items client (λ _. true) 10 start steps)
      more).sent
    ≡ (5, update_sent (report 3)) ∷ (5, update_sent (report 2)) ∷ []
unfolding run_stream stream_step gnmi_gateway.Server.Streaming.respond
    gnmi_gateway.Server.Streaming.ask gnmi_gateway.Server.Streaming.run_buffer any
    gnmi_gateway.Server.Streaming.end_walk gnmi_gateway.Server.Streaming.visit_leaf
    gnmi_gateway.Server.Streaming.begin_walk gnmi_gateway.Prelude.keep
    gnmi_gateway.Server.Streaming.remove_one gnmi_gateway.Server.Streaming.take_answer
    gnmi_gateway.Server.Stream.send_round gnmi_gateway.Server.Stream.is_blocked
    gnmi_gateway.Server.Stream.is_allowed gnmi_gateway.Server.Streaming.set_value
    gnmi_gateway.Server.Stream.is_target_delete gnmi_gateway.Server.Streaming.server_update
    gnmi_gateway.Prelude.◌==◌ make_subscribe_response gnmi_gateway.Server.Streaming.with_leaf
catches_up = refl
