-- ===== src/Server/Once/Example.antt =====
-- A call for ONCE over two leaves, with a list as the queue.
use gnmi_gateway.Server.Once.Answered.{same, IsKeeping, is_answered, is_deleted}
use gnmi_gateway.Server.Once.Complete.{once_complete}
use gnmi_gateway.Prelude.{
  any, ◌||◌, ◌&&◌, true_not_false, sym, ap, ℕ, zero, suc, pos, ◌≤◌, ◌<◌, Bool, true, false, none,
  some, List, [], ◌∷◌, ◌++◌, codes, length, length-append, is_some, All, inl, inr, arith, ◌≡◌, refl,
}
use gnmi_gateway.Proto.{Notification, SubscriptionList, once, empty_path}
use gnmi_gateway.Server.Process.{Entry, entry, sync, Source, process_subscription}
use gnmi_gateway.Server.Stream.{Client}
use gnmi_gateway.Server.Streaming.{Answer, got, nothing_yet, closed_now, Queue}
use gnmi_gateway.Server.Once.{run_once, Step, walks, asks, returns, responds, stores, start_once}
use gnmi_gateway.Server.Once.Measure.{IsDraining}
use gnmi_gateway.Server.Once.Returns.{IsFair, run_rounds, once-returns}

-- The entries, and whether the queue is open.
abbrev Items : Type 0
Items = List (Entry ℕ) × Bool

abbrev put_item : Items → Entry ℕ → Items × Bool
put_item (q, true) e = ((q ++ e ∷ [], true), true)
put_item (q, false) e = ((q, false), false)

abbrev take_first : Items → Answer Items
take_first ([], true) = nothing_yet
take_first ([], false) = closed_now
take_first (e ∷ q, b) = got e 0 (q, b)

abbrev items : Queue Items
items = record { insert = put_item; next = take_first; close = λ q. (q.0, false) }

put_size : (q : Items) (e : Entry ℕ) → length (put_item q e).0.0 ≤ suc (length q.0)
put_size (q, true) e = omega (arith, length-append q (e ∷ []))
put_size (q, false) e = omega arith

put_ok : (q : Items) (e : Entry ℕ) → (put_item q e).1 ≡ q.1
put_ok (q, true) e = refl
put_ok (q, false) e = refl

put_open : (q : Items) (e : Entry ℕ) → (put_item q e).0.1 ≡ q.1
put_open (q, true) e = refl
put_open (q, false) e = refl

takes_one :
    (q r : Items) (e : Entry ℕ) (dup : ℕ)
    → take_first q ≡ got e dup r
    → (length r.0 < length q.0) × (r.1 ≡ q.1)
takes_one ([], true) r e dup h = absurd (ground arith)
takes_one ([], false) r e dup h = absurd (ground arith)
takes_one (d ∷ q, b) r e dup h = (ground arith, ground arith)

waits_while_open : (q : Items) → take_first q ≡ nothing_yet → q.1 ≡ true
waits_while_open ([], true) h = refl
waits_while_open ([], false) h = ground arith
waits_while_open (d ∷ q, b) h = ground arith

items-IsDraining : IsDraining items
items-IsDraining = record {
  size = λ q. length q.0;
  is_open = λ q. q.1;
  insert_size = put_size;
  insert_ok = put_ok;
  insert_open = put_open;
  close_size = λ q. refl;
  close_open = λ q. refl;
  takes = takes_one;
  waits_open = waits_while_open;
}

abbrev client : Client
client = record {
  target = codes "r1";
  check = λ _. true;
  cluster_member = false;
  forwardable = λ _. false;
  to_strings = λ p b. [];
}

-- The cache has two leaves with a value under the path, and one without.
abbrev cache : Source ℕ
cache = record {
  complete_path = λ prefix path. some [];
  query = λ target path. (some 1 ∷ none ∷ some 2 ∷ [], true);
}

abbrev list : SubscriptionList
list = record {
  prefix = some (record empty_path { target = codes "r1" });
  subscription = some empty_path ∷ [];
  mode = once;
  updates_only = false;
}

abbrev report : Notification
report = record {
  timestamp = pos 1;
  prefix = some (record empty_path { target = codes "r1" });
  alias = [];
  update = [];
  delete = [];
  atomic = false;
}

-- The sender asks first; its sends fail, or not.
abbrev round : Bool → List Step
round ok = asks ∷ responds ok ∷ stores (λ _. report) ∷ returns ∷ walks ∷ []

abbrev rounds : ℕ → List (List Step)
rounds zero = []
rounds (suc n) = round true ∷ rounds n

rounds-IsFair : (n : ℕ) → All IsFair (rounds n)
rounds-IsFair zero = tt
rounds-IsFair (suc n) = (
  (inr (inr (inr (inr (inl refl)))), inl refl, inr (inl (true, refl)), inr (inr (inr (inl refl)))),
  rounds-IsFair n,
)

once-returns_example :
    is_some
      (run_rounds items-IsDraining client
        (start_once items client
          (process_subscription cache (codes "r1") list [])
          (λ _. report)
          ([], true))
        (rounds 15)).returned
    ≡ true
unfolding items-IsDraining process_subscription gnmi_gateway.Server.Process.process_paths
    gnmi_gateway.Server.Process.visit
once-returns_example =
    once-returns items-IsDraining client (process_subscription cache (codes "r1") list [])
      (λ _. report) ([], true) (rounds 15) refl (rounds-IsFair 15) (omega arith)

put_item_holds :
    (q : Items) (e d : Entry ℕ)
    → q.1 ≡ true
    → any (same d) (put_item q e).0.0 ≡ (same d e || any (same d) q.0)
unfolding any
put_item_holds ([], true) e d o = ground arith
put_item_holds (i ∷ q, true) e d o = ground (arith, put_item_holds (q, true) e d refl)
put_item_holds (q, false) e d o = absurd (true_not_false (sym o))

takes_this :
    (q r : Items) (e d : Entry ℕ) (dup : ℕ)
    → take_first q ≡ got e dup r
    → (same d e || any (same d) r.0) ≡ any (same d) q.0
unfolding any
takes_this ([], true) r e d dup h = absurd (ground arith)
takes_this ([], false) r e d dup h = absurd (ground arith)
takes_this (i ∷ q, b) r e d dup h =
    let same_item : i ≡ e = ground (arith, h) in
    let rest : q ≡ r.0 = ground (arith, h) in rw (same_item, rest) refl

closed_empty :
    (q : Items) (d : Entry ℕ)
    → take_first q ≡ closed_now
    → (any (same d) q.0 ≡ false) × (q.1 ≡ false)
unfolding any
closed_empty ([], true) d h = absurd (ground arith)
closed_empty ([], false) d h = (refl, refl)
closed_empty (i ∷ q, b) d h = absurd (ground arith)

items-IsKeeping : IsKeeping items
items-IsKeeping = record {
  holds = λ q d. any (same d) q.0;
  is_open = λ q. q.1;
  insert_ok = put_ok;
  insert_open = put_open;
  insert_holds = put_item_holds;
  close_holds = λ q d. refl;
  takes_holds = takes_this;
  takes_open = λ q r e dup h. (takes_one q r e dup h).1;
  closed_holds = closed_empty;
}

-- The sender begins while the walk goes on.
abbrev steps : List Step
steps =
    walks
    ∷ asks
    ∷ walks
    ∷ responds true
    ∷ asks
    ∷ responds true
    ∷ walks
    ∷ asks
    ∷ walks
    ∷ responds true
    ∷ asks
    ∷ returns
    ∷ []

abbrev entries : List (Entry ℕ)
entries = entry 1 ∷ entry 2 ∷ sync ∷ []

once_complete_example :
    let s =
      run_once items client
        (start_once items client (entries, true) (λ _. report) ([], true))
        steps in
    (is_deleted s.rounds || is_answered s.rounds (entry 2)) ≡ true
unfolding items-IsKeeping run_once any start_once gnmi_gateway.Server.Once.once_step
    gnmi_gateway.Server.Once.return_first gnmi_gateway.Server.Once.ask_next
    gnmi_gateway.Server.Once.respond_to gnmi_gateway.Server.Once.walk_on
    gnmi_gateway.Server.Once.walk_next gnmi_gateway.Server.Once.after_insert
    gnmi_gateway.Server.Once.take_next gnmi_gateway.Server.Once.add_round
    gnmi_gateway.Server.Once.end_sender gnmi_gateway.Server.Once.result_of
    gnmi_gateway.Server.Stream.send_round gnmi_gateway.Server.Stream.is_blocked
    gnmi_gateway.Server.Stream.is_allowed gnmi_gateway.Server.Stream.is_target_delete
    gnmi_gateway.Server.Stream.make_subscribe_response gnmi_gateway.Prelude.◌==◌
once_complete_example =
    once_complete items-IsKeeping client entries true (λ _. report) ([], true) steps (entry 2) refl
      refl refl

-- The cache fails after the first leaf: the queue is closed, and the sender is first on the channel.
abbrev partial_steps : List Step
partial_steps = walks ∷ walks ∷ asks ∷ responds true ∷ asks ∷ walks ∷ returns ∷ []

returns_nil :
    (run_once items client
      (start_once items client (entry 1 ∷ [], false) (λ _. report) ([], true))
      partial_steps).returned
    ≡ some true
unfolding run_once start_once gnmi_gateway.Server.Once.once_step
    gnmi_gateway.Server.Once.return_first gnmi_gateway.Server.Once.ask_next
    gnmi_gateway.Server.Once.respond_to gnmi_gateway.Server.Once.walk_on
    gnmi_gateway.Server.Once.walk_next gnmi_gateway.Server.Once.after_insert
    gnmi_gateway.Server.Once.take_next gnmi_gateway.Server.Once.add_round
    gnmi_gateway.Server.Once.send_failure gnmi_gateway.Server.Once.end_sender
    gnmi_gateway.Server.Once.result_of gnmi_gateway.Server.Stream.send_round
    gnmi_gateway.Server.Stream.is_blocked gnmi_gateway.Server.Stream.is_allowed
    gnmi_gateway.Server.Stream.is_target_delete gnmi_gateway.Server.Stream.make_subscribe_response
    gnmi_gateway.Prelude.◌==◌
returns_nil = refl
