-- ===== src/Server/Stream.antt =====
-- gateway/server/server.go: what a subscription is sent. `path.ToStrings` is an argument, and so is
-- what the queue, the cache and the client answer.
pub mod Deliver
use gnmi_gateway.Prelude.{
  ℕ, suc, Bool, true, false, not, ◌&&◌, ◌||◌, Option, none, some, List, [], ◌∷◌, ◌++◌, Text, ◌==◌,
  codes, ltb, eqb, length, if◌then◌else◌,
}
use gnmi_gateway.Proto.{Notification, Update, GnmiPath, get_target}

-- An item of the queue: a sync marker, a cache leaf with a notification or another value, or
-- something else.
pub data Item : Type 0 where
  sync_marker : Item
  leaf : Option Notification → Item
  other : Item

-- What `queue.Next` answers: an item with the number of duplicates, or an error.
pub data Next : Type 0 where
  next : Item → ℕ → Next
  closed_queue errs : Next

-- What is sent on the stream.
pub data Sent : Type 0 where
  sync_sent : Sent
  update_sent : Notification → Sent

-- How `sendStreamingResults` ends: with nil or an error on `errC`, or with nothing on it. `waits`
-- means that it asks the queue again.
pub data End : Type 0 where
  ends_nil ends_error silent waits : End

set_duplicates : ℕ → List Update → List Update
set_duplicates dup [] = []
set_duplicates dup (u ∷ us) = record u { duplicates = dup } ∷ us

-- `MakeSubscribeResponse`, of a notification.
unfoldable pub make_subscribe_response : Notification → ℕ → Notification
unfolding set_duplicates
make_subscribe_response n dup =
    if ltb 0 dup && ltb 0 (length n.update)
    then record n { update = set_duplicates dup n.update }
    else n

-- `isTargetDelete`, of a notification.
unfoldable pub is_target_delete : (Option GnmiPath → Bool → List Text) → Notification → Bool
is_target_delete to_strings n = elim n.delete [
  | [] ↦ false
  | d ∷ ds ↦
      let origin : Text = elim n.prefix [ none ↦ [] | some p ↦ p.origin ] in
      let p = to_strings n.prefix false ++ to_strings (some d) false in
      elim ds [
        | [] ↦
            origin == [] && (elim p [ [] ↦ false | q ∷ qs ↦ eqb (length qs) 0 && q == codes "*" ])
        | _ ∷ _ ↦ false
      ]
]

-- The subscription: its target, its ACL, whether its peer is a member of the cluster, `Forwardable`,
-- and `path.ToStrings`.
pub record Client : Type 0 where
  pub target : Text
  pub check : Text → Bool
  pub cluster_member : Bool
  pub forwardable : Text → Bool
  pub to_strings : Option GnmiPath → Bool → List Text

-- The check in `sendSubscribeResponse`.
unfoldable pub is_allowed : Client → Notification → Bool
is_allowed c n = elim n.prefix [ none ↦ true | some p ↦ c.check p.target ]

-- The check of a cluster member's notification: it ends the loop.
unfoldable pub is_blocked : Client → Notification → Bool
is_blocked c n = c.cluster_member && not (c.forwardable (get_target n.prefix))

-- What a round of the loop does: what it sends, and how the loop goes on. The Boolean says whether
-- `stream.Send` succeeds.
unfoldable pub send_round : Client → Next → Bool → List Sent × End
send_round c closed_queue ok = ([], ends_nil)
send_round c errs ok = ([], ends_error)
send_round c (next sync_marker dup) ok = if ok then (sync_sent ∷ [], waits) else ([], ends_error)
send_round c (next other dup) ok = ([], ends_error)
send_round c (next (leaf none) dup) ok = ([], ends_error)
send_round c (next (leaf (some n)) dup) ok =
    if is_blocked c n
    then ([], silent)
    else (let after =
          if is_target_delete c.to_strings n && not (c.target == codes "*")
          then ends_nil
          else waits in
        if not (is_allowed c n)
        then ([], after)
        else if ok
        then (update_sent (make_subscribe_response n dup) ∷ [], after)
        else ([], ends_error))

-- `sendStreamingResults`, over the answers of the queue and of the client.
unfoldable pub send_streaming_results : Client → List (Next × Bool) → List Sent × End
send_streaming_results c [] = ([], waits)
send_streaming_results c ((answer, ok) ∷ answers) =
    let (sent, end) = send_round c answer ok in
    let (later, final) = send_streaming_results c answers in
    elim end [
      | waits ↦ (sent ++ later, final)
      | ends_nil ↦ (sent, ends_nil)
      | ends_error ↦ (sent, ends_error)
      | silent ↦ (sent, silent)
    ]
