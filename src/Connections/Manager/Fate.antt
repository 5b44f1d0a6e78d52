-- ===== src/Connections/Manager/Fate.antt =====
-- What a control message does to each target, and when it makes the manager panic.
use gnmi_gateway.Prelude.{
  Bool, true, false, ◌||◌, Option, none, some, List, ◌++◌, Text, Map, IsMap, lookup, arith, ◌≡◌,
  refl, sym, ap, ◌∙◌,
}
use gnmi_gateway.Proto.{Configuration}
use gnmi_gateway.Connections.State.{ConnectionState}
use gnmi_gateway.Connections.Manager.{
  Settings, TargetConnectionControl, Effect, Handled, before_all, remove_targets, insert_all,
  handle_target_control_msg,
}
use gnmi_gateway.Connections.Manager.Surviving.{
  Ends, is_named, is_changed, removing, inserting_all, handling, remove-Ends, insert_targets-Ends,
}
use gnmi_gateway.Connections.Manager.Reload.{about, fate, Targets, remove-lookup, handling-fate}

-- The message removes the target, or configures it anew and it differs.
abbrev pub is_touched : TargetConnectionControl → Text → ConnectionState → Bool
is_touched msg x c = is_named msg.remove x c || is_changed (Targets msg.insert) x c

insert_all-Ends :
    (s : Settings) (conns : Map ConnectionState) (config : Option Configuration)
    → IsMap (Targets config)
    → Ends conns
        (is_changed (Targets config))
        (inserting_all s conns config)
        (insert_all s conns config)
unfolding insert_all inserting_all lookup
insert_all-Ends s conns none maps = (refl, λ x c there touched. cc)
insert_all-Ends s conns (some config) maps =
    insert_targets-Ends s config.request conns config.target maps

abbrev Behind :
    Settings
    → TargetConnectionControl
    → Map ConnectionState × List Effect
    → Map ConnectionState × List Effect
Behind s msg (kept, closed) =
    let (conns', started) = inserting_all s kept msg.insert in (conns', closed ++ started)

Ends-both :
    (s : Settings) (conns : Map ConnectionState) (msg : TargetConnectionControl)
    (r : Map ConnectionState × List Effect) (o : Handled)
    → r ≡ removing conns msg.remove
    → ((x : Text) (c : ConnectionState)
        → lookup conns x ≡ some c
        → is_named msg.remove x c ≡ true
        → c.client ≡ true)
    → Ends r.0 (is_changed (Targets msg.insert)) (inserting_all s r.0 msg.insert) o
    → Ends conns (is_touched msg) (Behind s msg (removing conns msg.remove)) (before_all r.1 o)
Ends-both s conns msg r none same now (x, c, there, touched, bare) =
    (x, c, ground (arith, was, (remove-lookup conns msg.remove x).0), ground (arith, touched), bare)
  where
    was : lookup (removing conns msg.remove).0 x ≡ some c
    was = ap (λ q. lookup q.0 x) (sym same) ∙ there
Ends-both s conns msg r (some q) same now (rest, all_there) = (
  ap (λ p. (p.0, r.1 ++ p.1)) rest ∙ ap (Behind s msg) same,
  λ x c there touched.
      let kept : lookup r.0 x ≡ lookup (removing conns msg.remove).0 x =
        ap (λ p. lookup p.0 x) same in
      ground
        (arith, touched, now x c there, all_there x c, kept, (remove-lookup conns msg.remove x).0),
)

after_removal :
    (s : Settings) (conns : Map ConnectionState) (msg : TargetConnectionControl) (o : Handled)
    → IsMap (Targets msg.insert)
    → Ends conns (is_named msg.remove) (removing conns msg.remove) o
    → Ends conns (is_touched msg) (Behind s msg (removing conns msg.remove)) (elim o [
      | none ↦ none
      | some (kept, closed) ↦ before_all closed (insert_all s kept msg.insert)
    ])
after_removal s conns msg none maps (x, c, there, touched, bare) =
    (x, c, there, ground (arith, touched), bare)
after_removal s conns msg (some r) maps (same, now) =
    Ends-both s conns msg r (insert_all s r.0 msg.insert) same now
      (insert_all-Ends s r.0 msg.insert maps)

pub handle-Ends :
    (s : Settings) (conns : Map ConnectionState) (msg : TargetConnectionControl)
    → IsMap (Targets msg.insert)
    → Ends conns (is_touched msg) (handling s conns msg) (handle_target_control_msg s conns msg)
unfolding handle_target_control_msg handling
handle-Ends s conns msg maps =
    after_removal s conns msg (remove_targets conns msg.remove) maps (remove-Ends conns msg.remove)

-- The message has done to every target what is meant for it; or the manager has panicked, at a target that the
-- message touches while its connection has no client.
abbrev pub HasFate : Settings → Map ConnectionState → TargetConnectionControl → Handled → Type 0
HasFate s conns msg none =
    (x : Text) × (c : ConnectionState) × (lookup conns x ≡ some c)
    × (is_touched msg x c ≡ true)
    × (c.client ≡ false)
HasFate s conns msg (some r) =
    (x : Text)
    → ((c : ConnectionState)
        → lookup conns x ≡ some c
        → is_touched msg x c ≡ true
        → c.client ≡ true)
      × (lookup r.0 x ≡ (fate s msg x (lookup conns x)).0)
      × (about x r.1 ≡ (fate s msg x (lookup conns x)).1)

-- The manager panics exactly if the message removes a target, or configures it with a difference that `Equal` finds,
-- while the target's connection has no client yet. Otherwise the message acts on each target by itself,
-- whatever the order in which the maps are visited: a target named in `Remove` is closed and forgotten
-- first; a target of `Insert` is started if it is unknown then, reconnected under the new configuration if
-- `Equal` finds a difference, and otherwise left alone; every other target keeps its connection and has
-- no effect.
pub handle-fate :
    (s : Settings) (conns : Map ConnectionState) (msg : TargetConnectionControl)
    → IsMap (Targets msg.insert)
    → HasFate s conns msg (handle_target_control_msg s conns msg)
handle-fate s conns msg maps =
    of_ends (handle_target_control_msg s conns msg) (handle-Ends s conns msg maps)
  where
    of_ends :
        (o : Handled) → Ends conns (is_touched msg) (handling s conns msg) o → HasFate s conns msg o
    of_ends none e = e
    of_ends (some r) (same, all_there) = λ x.
        let (there, effects) = handling-fate s conns msg x maps in
        (all_there x, ap (λ q. lookup q.0 x) same ∙ there, ap (λ q. about x q.1) same ∙ effects)
