-- ===== src/Server.antt =====
-- gateway/server/server.go: the gNMI server, up to the point where a subscription is set going.
-- `path.ToStrings`, the cache, the ACL and the peer's address are arguments.
pub mod Admission
pub mod Peers
pub mod Stream
pub mod Process
pub mod Matching
pub mod Streaming
pub mod Once
mod Examples
use gnmi_gateway.Prelude.{
  ℕ, Bool, true, false, not, ◌&&◌, ◌||◌, Option, none, some, List, [], ◌∷◌, ◌++◌, Text, ◌==◌, codes,
  split, any, if◌then◌else◌,
}
use gnmi_gateway.Proto.{
  SubscribeRequest, SubscriptionList, GnmiPath, Mode, once, poll, stream, unknown, get_target,
}

-- The first part of an address or of a member, up to a colon.
unfoldable pub first_part : Text → Text
first_part addr = elim (split addr b':') [ [] ↦ [] | part ∷ _ ↦ part ]

-- `memberAddressInMemberList`
unfoldable pub member_address_in_member_list : Text → List Text → Bool
member_address_in_member_list addr list =
    if first_part addr == []
    then false
    else any (λ v. not (first_part v == []) && first_part addr == first_part v) list

-- The status codes that `Subscribe` returns, and its plain errors.
pub data Code : Type 0 where
  unauthenticated invalid_argument not_found permission_denied internal recv_error : Code

pub data Received : Type 0 where
  eof errs : Received
  request : SubscribeRequest → Received

-- What `Subscribe` reads from its surroundings. `acl` is `none` without a server ACL, and `some none`
-- if `NewRPCACL` fails; `members` is `none` without a cluster, and `some none` if `MemberList` fails.
pub record Call : Type 0 where
  pub peer : Text
  pub acl : Option (Option (Text → Bool))
  pub received : Received
  pub has_target : Text → Bool
  pub members : Option (Option (List Text))

-- The goroutines and registrations with which a subscription starts.
pub record Started : Type 0 where
  pub target : Text
  pub check : Text → Bool
  pub cluster_member : Bool
  pub list : SubscriptionList
  pub mode : Mode
  pub marks_sync : Bool
  pub registers : Bool
  pub processes : Bool

pub data Outcome : Type 0 where
  returns : Outcome
  fails : Code → Outcome
  starts : Started → Outcome

-- The switch over the mode. A new queue accepts the sync marker.
unfoldable pub start_mode : Text → (Text → Bool) → Bool → SubscriptionList → Outcome
start_mode target check cluster_member list =
    let base : Started = record {
      target = target;
      check = check;
      cluster_member = cluster_member;
      list = list;
      mode = list.mode;
      marks_sync = false;
      registers = false;
      processes = true;
    } in
    elim list.mode [
      | once ↦ starts base
      | poll ↦ starts base
      | stream ↦ starts (record base {
        marks_sync = list.updates_only;
        registers = true;
        processes = not list.updates_only;
      })
      | unknown ↦ fails invalid_argument
    ]

-- The member list of the cluster; without a cluster there are no members.
unfoldable pub cluster_members : Option (Option (List Text)) → Option (List Text)
cluster_members none = some []
cluster_members (some members) = members

-- From the check of the cache on.
unfoldable pub subscribe_target : Call → (Text → Bool) → SubscriptionList → Text → Outcome
subscribe_target call check list target =
    if not (call.has_target target) then fails not_found else elim (cluster_members call.members) [
      | none ↦ fails internal
      | some members ↦
          let cluster_member = member_address_in_member_list call.peer members in
          if not (target == codes "*") && not (check target)
          then fails permission_denied
          else start_mode target check cluster_member list
    ]

unfoldable pub subscribe_request : Call → (Text → Bool) → SubscribeRequest → Outcome
subscribe_request call check sr = elim sr.subscribe [
  | none ↦ fails invalid_argument
  | some list ↦ elim list.prefix [
    | none ↦ fails invalid_argument
    | some prefix ↦
        if prefix.target == []
        then fails invalid_argument
        else subscribe_target call check list prefix.target
  ]
]

-- The ACL of the call: the stub allows everything.
unfoldable pub rpc_acl : Option (Option (Text → Bool)) → Option (Text → Bool)
rpc_acl none = some (λ _. true)
rpc_acl (some acl) = acl

-- `Subscribe`
unfoldable pub subscribe : Call → Outcome
subscribe call = elim (rpc_acl call.acl) [
  | none ↦ fails unauthenticated
  | some check ↦ elim call.received [
    | eof ↦ returns
    | errs ↦ fails recv_error
    | request sr ↦ subscribe_request call check sr
  ]
]
