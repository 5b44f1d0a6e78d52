-- ===== src/Server/Examples.antt =====
-- The theorems about the server at concrete inputs.
use gnmi_gateway.Prelude.{
  pos, ℕ, Bool, true, false, not, ◌&&◌, Option, none, some, List, [], ◌∷◌, ◌++◌, Text, ◌==◌, codes,
  any, keep, map, all, All, if◌then◌else◌, ◌≡◌, refl, ◌⊎◌, inl, inr,
}
use gnmi_gateway.Proto.{Notification, SubscriptionList, stream, empty_path}
use gnmi_gateway.Server.{Call, Received, request, Started, Outcome, starts, subscribe}
use gnmi_gateway.Server.Stream.{
  Client, Next, next, leaf, Sent, update_sent, End, silent, waits, send_streaming_results,
  make_subscribe_response,
}
use gnmi_gateway.Server.Stream.Deliver.{
  IsSafe, send_streaming_results-IsSafe, send_streaming_results-taken, taken,
}
use gnmi_gateway.Server.Process.{Source, Entry, entry, sync, process_subscription}
use gnmi_gateway.Server.Process.Sync.{process_subscription_lem}

abbrev notification : Text → Notification
notification target = record {
  timestamp = pos 7;
  prefix = some (record { origin = []; target = target; elem = [] });
  alias = [];
  update = [];
  delete = [];
  atomic = false;
}

abbrev subscription : SubscriptionList
subscription = record {
  prefix = some (record { origin = []; target = codes "r1"; elem = [] });
  subscription = some empty_path ∷ [];
  mode = stream;
  updates_only = false;
}

-- A client that may only see r1, from the host of a member.
abbrev only_r1 : Text → Bool
only_r1 target = target == codes "r1"

abbrev call : Call
call = record {
  peer = codes "10.0.0.2:50123";
  acl = some (some only_r1);
  received = request (record { subscribe = some subscription });
  has_target = λ _. true;
  members = some (some (codes "10.0.0.2:9339" ∷ []));
}

abbrev started : Started
started = record {
  target = codes "r1";
  check = only_r1;
  cluster_member = true;
  list = subscription;
  mode = stream;
  marks_sync = false;
  registers = true;
  processes = true;
}

abbrev hosts : List (Text × Text)
hosts = (codes "10.0.0.1", codes "9339") ∷ (codes "10.0.0.2", codes "9339") ∷ []

-- A member of the cluster, on a gateway that forwards r1 only.
abbrev member : Client
member = record {
  target = codes "*";
  check = λ _. true;
  cluster_member = true;
  forwardable = only_r1;
  to_strings = λ _ _. [];
}

abbrev queue : List (Notification × ℕ)
queue =
    (notification (codes "r1"), 0)
    ∷ (notification (codes "r2"), 0)
    ∷ (notification (codes "r1"), 3)
    ∷ []

send_streaming_results-IsSafe_example :
    All (IsSafe member) (send_streaming_results member (taken queue)).0
send_streaming_results-IsSafe_example = send_streaming_results-IsSafe member (taken queue)

-- The notification of r2 ends the loop: the second one of r1 is not sent.
send_streaming_results-taken_example :
    send_streaming_results member (taken queue)
    ≡ (update_sent (notification (codes "r1")) ∷ [], silent)
unfolding any keep gnmi_gateway.Server.Stream.is_target_delete gnmi_gateway.Server.Stream.is_blocked
    ◌==◌ gnmi_gateway.Server.Stream.is_allowed make_subscribe_response
send_streaming_results-taken_example =
    send_streaming_results-taken member queue (refl, (refl, (refl, tt)))

-- A cache in which every query finds a leaf and an empty leaf.
abbrev one_leaf : Source Text
one_leaf = record {
  complete_path = λ _ _. some [];
  query = λ _ _. (some (codes "up") ∷ none ∷ [], true);
}

process_subscription_lem_example :
    (process_subscription one_leaf (codes "r1") subscription []).0 ≡ entry (codes "up") ∷ sync ∷ []
unfolding process_subscription gnmi_gateway.Server.Process.process_paths
    gnmi_gateway.Server.Process.visit
process_subscription_lem_example =
    (process_subscription_lem one_leaf (codes "r1") subscription []).1 refl
