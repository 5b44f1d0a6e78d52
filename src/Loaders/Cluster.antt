-- ===== src/Loaders/Cluster.antt =====
-- gateway/loaders/cluster/cluster.go: the members of the cluster as targets.
pub mod Follow
use gnmi_gateway.Prelude.{
  true, false, Option, none, some, List, [], ◌∷◌, Text, Map, insert, ◌==◌, codes, if◌then◌else◌,
}
use gnmi_gateway.Proto.{
  Target, SubscribeRequest, Configuration, SubscriptionList, GnmiPath, Mode, stream, empty_path,
}
use gnmi_gateway.Connections.Manager.{TargetConnectionControl}
use gnmi_gateway.Clustering.{Event, adds, removes}

-- The request "all": everything of every target.
abbrev pub all_request : SubscribeRequest
all_request = record {
  subscribe = some (record {
    prefix = some (record empty_path { target = codes "*" });
    subscription = some empty_path ∷ [];
    mode = stream;
    updates_only = false;
  });
}

abbrev pub member_target : Text → Map Text → Target
member_target member meta = record {
  addresses = member ∷ [];
  credentials = none;
  request = codes "all";
  meta = meta;
}

-- The loop of `GetConfiguration` over the members.
unfoldable pub member_targets : Map Target → List Text → Map Target
member_targets targets [] = targets
member_targets targets (member ∷ members) =
    member_targets (insert targets member (member_target member [])) members

-- `GetConfiguration`, from the answer of `MemberList`.
unfoldable pub get_configuration : Option (List Text) → Option Configuration
get_configuration none = none
get_configuration (some members) =
    some (record { request = (codes "all", all_request) ∷ []; target = member_targets [] members })

abbrev pub member_meta : Map Text
member_meta = (codes "NoLock", codes "yes") ∷ (codes "ClusterMember", codes "yes") ∷ []

abbrev pub add_message : Text → TargetConnectionControl
add_message member = record {
  insert = some (record {
    request = (codes "all", all_request) ∷ [];
    target = (member, member_target member member_meta) ∷ [];
  });
  remove = [];
}

abbrev pub remove_message : Text → TargetConnectionControl
remove_message member = record { insert = none; remove = member ∷ [] }

-- The callback of `WatchConfiguration`: the messages that it sends. Of the two names of a call, the
-- other one is empty.
unfoldable pub callback : Event → List TargetConnectionControl
callback (adds member) = if member == [] then [] else add_message member ∷ []
callback (removes member) = if member == [] then [] else remove_message member ∷ []
