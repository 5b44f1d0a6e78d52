-- ===== src/Clustering.antt =====
-- gateway/clustering/zookeeper.go: the members of a cluster as children of one Zookeeper node. What
-- Zookeeper answers is an argument of each function.
pub mod Members
pub mod Registration
mod Examples
use gnmi_gateway.Zookeeper.{Zk, created, no_node, node_exists, fails, create_parent_path}
use gnmi_gateway.Prelude.{
  ℕ, zero, suc, ◌+◌, Bool, true, false, not, ◌&&◌, ◌||◌, Option, none, some, List, [], ◌∷◌, ◌++◌,
  Text, ◌==◌, codes, is_slash, trim, any, keep, map, ltb, if◌then◌else◌,
}

-- `CleanPath`
unfoldable pub clean_path : Text → Text
clean_path path = b'/' ∷ trim is_slash path

abbrev pub cluster_member_path : Text
cluster_member_path = codes "/members"

-- The node that holds the members, and the node of one member.
unfoldable pub search_path : Text → Text
search_path prefix = clean_path prefix ++ clean_path cluster_member_path

unfoldable pub registration_path : Text → Text → Text
registration_path prefix member =
    clean_path prefix ++ (clean_path cluster_member_path ++ clean_path member)

-- `Register`: the ephemeral node of the member, created a second time if its parent was missing.
unfoldable pub register : {S : Type 0} → Zk S → S → Text → S × Bool
register zk s path =
    let (s1, answer) = zk.create s path true in
    elim answer [
      | created _ ↦ (s1, true)
      | no_node ↦
          let (s2, made) = create_parent_path zk s1 path in
          let (s3, again) = zk.create s2 path true in
          if made
          then elim again [
            | created _ ↦ (s3, true)
            | no_node ↦ (s3, false)
            | node_exists ↦ (s3, false)
            | fails ↦ (s3, false)
          ]
          else (s2, false)
      | node_exists ↦ (s1, false)
      | fails ↦ (s1, false)
    ]

-- `memberIDInSlice`
unfoldable pub member_id_in_slice : Text → List Text → Bool
member_id_in_slice s list = any (λ v. v == s) list

-- `MemberList`, from the children of the node.
unfoldable pub member_list : Text → List Text → List Text
member_list self = keep (λ m. not (m == []) && not (m == self))

-- A call of the callback.
pub data Event : Type 0 where
  adds removes : Text → Event

-- `callback(currentMember, "")` for each child that is new.
added_events : Text → List Text → List Text → List Event
added_events self previous children =
    map adds (keep (λ m. not (m == self) && not (member_id_in_slice m previous)) children)

current_members : Text → List Text → List Text
current_members self = keep (λ m. not (m == self))

-- `callback("", previousMember)` for each member that is gone.
removed_events : Text → List Text → List Text → List Event
removed_events self previous current =
    map removes (keep (λ m. not (m == self) && not (member_id_in_slice m current)) previous)

-- One round of the loop of `MemberListCallback` whose `ChildrenW` succeeded: the calls, and the new
-- `previousMembers`.
unfoldable pub watch_round : Text → List Text → List Text → List Event × List Text
unfolding added_events current_members removed_events
watch_round self previous children =
    let current = current_members self children in
    (added_events self previous children ++ removed_events self previous current, current)

-- What `ChildrenW`, and `CreatePath` after a missing node, may answer.
pub data Answer : Type 0 where
  children : List Text → Answer
  missing : Bool → Answer
  errs : Answer

-- `previousMembers` and `consecutiveErrors`; `none` is the panic at the head of the loop.
pub record Watch : Type 0 where
  pub previous : List Text
  pub errors : ℕ

unfoldable pub watch_step : Text → Watch → Answer → Option (Watch × List Event)
watch_step self w answer = if ltb 3 w.errors then none else elim answer [
  | children cs ↦
      let (events, current) = watch_round self w.previous cs in
      some (record { previous = current; errors = 0 }, events)
  | missing _ ↦ some (record w { errors = w.errors + 1 }, [])
  | errs ↦ some (record w { errors = w.errors + 1 }, [])
]

unfoldable pub watch_run : Text → Watch → List Answer → Option (Watch × List Event)
watch_run self w [] = some (w, [])
watch_run self w (a ∷ answers) = elim (watch_step self w a) [
  | none ↦ none
  | some (w', events) ↦ elim (watch_run self w' answers) [
    | none ↦ none
    | some (w'', later) ↦ some (w'', events ++ later)
  ]
]
