-- ===== src/Loaders/Cluster/Follow.antt =====
-- The cluster's members, the loader that turns them into targets, and the connection manager.
use gnmi_gateway.Prelude.{
  Bool, map, All, Option-cases, true, false, Option, none, some, List, [], ◌∷◌, Text, Map, lookup,
  has, any, arith, ◌≡◌, refl, ◌∙◌, ap, sym, ◌==◌, eq_iff, inl, inr, Bool-cases,
}
use gnmi_gateway.Connections.State.{ConnectionState, equal}
use gnmi_gateway.Connections.Manager.{
  Settings, TargetConnectionControl, handle_target_control_msg, new_connection, update_connection,
  forwards, Handled, make_clients,
}
use gnmi_gateway.Connections.Manager.Reload.{handling-has, handling-fate, fate}
use gnmi_gateway.Connections.Manager.Surviving.{Ends, handling}
use gnmi_gateway.Connections.Manager.Fate.{is_touched, handle-Ends}
use gnmi_gateway.Connections.Manager.Clients.{make_clients-lookup}
use gnmi_gateway.Connections.State.Equality.{equal_iff}
use gnmi_gateway.Proto.{Target}
use gnmi_gateway.Clustering.{Event, adds, removes, Answer, Watch, watch_run}
use gnmi_gateway.Clustering.Members.{follow, follow_all, latest, watch_run-follow}
use gnmi_gateway.Loaders.Cluster.{callback, add_message, remove_message, member_target, member_meta}

-- The manager handles the messages of a callback; `none` is a panic.
abbrev pub handles :
    Settings → Map ConnectionState → List TargetConnectionControl → Option (Map ConnectionState)
handles s conns [] = some conns
handles s conns (msg ∷ msgs) = elim (handle_target_control_msg s conns msg) [
  | none ↦ none
  | some r ↦ handles s r.0 msgs
]

-- Callbacks, each with the names of the connections whose clients `doConnect` has set by then.
abbrev pub told :
    Settings → Map ConnectionState → List (List Text × Event) → Option (Map ConnectionState)
told s conns [] = some conns
told s conns ((names, e) ∷ events) = elim (handles s (make_clients names conns) (callback e)) [
  | none ↦ none
  | some conns' ↦ told s conns' events
]

-- `doConnect` has set the client of every member by the time when it is removed.
abbrev pub IsReady : List Text × Event → Type 0
IsReady (names, adds m) = Unit
IsReady (names, removes m) = any (λ n. n == m) names ≡ true

-- The target of a member.
abbrev its_target : Text → Target
its_target x = member_target x member_meta

-- A connection to a member of the cluster: it takes no lock.
abbrev pub IsMemberConnection : Text → ConnectionState → Type 0
IsMemberConnection x c =
    (c.cluster_member ≡ true) × (c.use_lock ≡ false) × (equal c.target (its_target x) ≡ true)

abbrev AllMembers : Map ConnectionState → Type 0
AllMembers conns =
    (x : Text) (c : ConnectionState) → lookup conns x ≡ some c → IsMemberConnection x c

equal_refl : (t : Target) → equal t t ≡ true
equal_refl t = (equal_iff t t).1 (refl, refl)

fate-member :
    (s : Settings) (m x : Text) (o : Option ConnectionState) (c : ConnectionState)
    → ((d : ConnectionState) → o ≡ some d → IsMemberConnection x d)
    → (fate s (add_message m) x o).0 ≡ some c
    → IsMemberConnection x c
unfolding new_connection update_connection lookup any ◌==◌
fate-member s m x none c old e =
    (ground arith, ground arith, ground (arith, eq_iff m x, equal_refl (its_target m)))
fate-member s m x (some d) c old e = (
  ground (arith, old d refl),
  ground (arith, old d refl),
  ground (arith, eq_iff m x, equal_refl (its_target m), old d refl),
)

kept-member :
    (s : Settings) (m x : Text) (o : Option ConnectionState) (c : ConnectionState)
    → ((d : ConnectionState) → o ≡ some d → IsMemberConnection x d)
    → (fate s (remove_message m) x o).0 ≡ some c
    → IsMemberConnection x c
unfolding any
kept-member s m x none c old e = ground arith
kept-member s m x (some d) c old e = ground (arith, old d refl)

made-member :
    (names : List Text) (conns : Map ConnectionState)
    → AllMembers conns
    → AllMembers (make_clients names conns)
made-member names conns old x c e = elim (Option-cases (lookup conns x)) [
  | inl missing ↦ ground (arith, missing, make_clients-lookup names conns x)
  | inr (d, there) ↦ (
    ground (arith, there, old x d there, make_clients-lookup names conns x),
    ground (arith, there, old x d there, make_clients-lookup names conns x),
    ground (arith, there, old x d there, make_clients-lookup names conns x),
  )
]

-- What a callback leaves of a manager that knows members only: it panics only if the event is not ready, and
-- otherwise it follows the event.
abbrev Leaves : Map ConnectionState → List Text × Event → Option (Map ConnectionState) → Type 0
Leaves conns e none = IsReady e → ⊥
Leaves conns e (some conns') =
    AllMembers conns' × ((x : Text) → (x == []) ≡ false → has conns' x ≡ follow (has conns x) x e.1)

made-has :
    (names : List Text) (conns : Map ConnectionState) (x : Text)
    → has (make_clients names conns) x ≡ has conns x
made-has names conns x = ground (arith, make_clients-lookup names conns x)

-- The message of one member, if the event has one.
after_add :
    (s : Settings) (names : List Text) (conns : Map ConnectionState) (m : Text) (o : Handled)
    → (m == []) ≡ false
    → AllMembers conns
    → Ends
        (make_clients names conns)
        (is_touched (add_message m))
        (handling s (make_clients names conns) (add_message m))
        o
    → Leaves conns (names, adds m) (elim o [ none ↦ none | some r ↦ handles s r.0 [] ])
unfolding lookup any
after_add s names conns m none named old (x, c, there, touched, bare) =
    λ ready. ground (arith, touched, eq_iff m x, made-member names conns old x c there)
after_add s names conns m (some r) named old (same, all_there) = (
  (λ x c e.
      fate-member s m x (lookup (make_clients names conns) x) c (made-member names conns old x) (
        sym (handling-fate s (make_clients names conns) (add_message m) x (refl, tt)).0
        ∙ ap (λ q. lookup q.0 x) (sym same)
        ∙ e)),
  (λ x other.
      ap (λ q. has q.0 x) same
      ∙ ground (
        arith,
        eq_iff m x,
        made-has names conns x,
        handling-has s (make_clients names conns) (add_message m) x (refl, tt),
      )),
)

after_remove :
    (s : Settings) (names : List Text) (conns : Map ConnectionState) (m : Text) (o : Handled)
    → (m == []) ≡ false
    → AllMembers conns
    → Ends
        (make_clients names conns)
        (is_touched (remove_message m))
        (handling s (make_clients names conns) (remove_message m))
        o
    → Leaves conns (names, removes m) (elim o [ none ↦ none | some r ↦ handles s r.0 [] ])
unfolding lookup any
after_remove s names conns m none named old (x, c, there, touched, bare) = λ ready.
    ground (arith, touched, bare, ready, there, eq_iff m x, make_clients-lookup names conns x)
after_remove s names conns m (some r) named old (same, all_there) = (
  (λ x c e.
      kept-member s m x (lookup (make_clients names conns) x) c (made-member names conns old x) (
        sym (handling-fate s (make_clients names conns) (remove_message m) x tt).0
        ∙ ap (λ q. lookup q.0 x) (sym same)
        ∙ e)),
  (λ x other.
      ap (λ q. has q.0 x) same
      ∙ ground (
        arith,
        eq_iff m x,
        made-has names conns x,
        handling-has s (make_clients names conns) (remove_message m) x tt,
      )),
)

callback-Leaves :
    (s : Settings) (names : List Text) (conns : Map ConnectionState) (e : Event)
    → AllMembers conns
    → Leaves conns (names, e) (handles s (make_clients names conns) (callback e))
unfolding callback lookup
callback-Leaves s names conns (adds m) old = elim (Bool-cases (m == [])) [
  | inl empty ↦ rw empty (
    made-member names conns old,
    λ x other. ground (arith, eq_iff m x, eq_iff m [], made-has names conns x),
  )
  | inr named ↦ rw named (
      after_add s names conns m
        (handle_target_control_msg s (make_clients names conns) (add_message m)) named old
        (handle-Ends s (make_clients names conns) (add_message m) (refl, tt)))
]
callback-Leaves s names conns (removes m) old = elim (Bool-cases (m == [])) [
  | inl empty ↦ rw empty (
    made-member names conns old,
    λ x other. ground (arith, eq_iff m x, eq_iff m [], made-has names conns x),
  )
  | inr named ↦ rw named (
      after_remove s names conns m
        (handle_target_control_msg s (make_clients names conns) (remove_message m)) named old
        (handle-Ends s (make_clients names conns) (remove_message m) tt))
]

-- The manager has panicked although a member was not ready, or it knows whom the events leave.
abbrev pub HasFollowed :
    Text → Bool → List (List Text × Event) → Option (Map ConnectionState) → Type 0
HasFollowed x known events none = All IsReady events → ⊥
HasFollowed x known events (some conns) = has conns x ≡ follow_all known x (map (λ e. e.1) events)

told-has :
    (s : Settings) (conns : Map ConnectionState) (events : List (List Text × Event)) (x : Text)
    → (x == []) ≡ false
    → AllMembers conns
    → HasFollowed x (has conns x) events (told s conns events)
unfolding follow_all
told-has s conns [] x named old = refl
told-has s conns ((names, e) ∷ events) x named old =
    first (handles s (make_clients names conns) (callback e)) (callback-Leaves s names conns e old)
      (λ conns' old'. told-has s conns' events x named old')
  where
    behind :
        (conns' : Map ConnectionState) (o : Option (Map ConnectionState))
        → has conns' x ≡ follow (has conns x) x e
        → HasFollowed x (has conns' x) events o
        → HasFollowed x (has conns x) ((names, e) ∷ events) o
    behind conns' none same h = λ ready. h ready.1
    behind conns' (some c) same h = h ∙ ap (λ k. follow_all k x (map (λ e. e.1) events)) same

    first :
        (o : Option (Map ConnectionState))
        → Leaves conns (names, e) o
        → ((conns' : Map ConnectionState)
            → AllMembers conns'
            → HasFollowed x (has conns' x) events (told s conns' events))
        → HasFollowed x
            (has conns x)
            ((names, e) ∷ events)
            (elim o [ none ↦ none | some conns' ↦ told s conns' events ])
    first none h later = λ ready. h ready.0
    first (some conns') h later =
        behind conns' (told s conns' events) (h.1 x named) (later conns' h.0)

-- The manager has panicked although a member was not ready, or it has a connection for the target exactly if the
-- target is among the members.
abbrev pub IsLatest :
    Text → List Text → List (List Text × Event) → Option (Map ConnectionState) → Type 0
IsLatest x members events none = All IsReady events → ⊥
IsLatest x members events (some conns) = has conns x ≡ any (λ m. m == x) members

-- From Zookeeper's answers to the connections: while the watch does not panic, a manager that starts with no
-- connections and is told of the members by the cluster loader does not panic if `doConnect` has set the client
-- of every member by the time when it is removed; and if it does not panic, it has a connection for
-- another member than this one exactly if that member is among the children that Zookeeper answered last.
pub told-latest :
    (s : Settings) (self x : Text) (answers : List Answer) (w : Watch)
    (events : List (List Text × Event))
    → (x == []) ≡ false
    → (x == self) ≡ false
    → watch_run self (record { previous = []; errors = 0 }) answers
      ≡ some (w, map (λ e. e.1) events)
    → IsLatest x (latest [] answers) events (told s [] events)
unfolding lookup
told-latest s self x answers w events named other run =
    at_end (told s [] events) (told-has s [] events x named (λ _ _ n. ground arith))
  where
    at_end :
        (o : Option (Map ConnectionState))
        → HasFollowed x false events o
        → IsLatest x (latest [] answers) events o
    at_end none h = h
    at_end (some conns) h = h ∙ watch_run-follow self x answers w (map (λ e. e.1) events) other run

-- A connection to a member never takes a lock, and never makes the loop of `Forwardable` accept a target.
pub member-silent :
    (x target : Text) (c : ConnectionState)
    → IsMemberConnection x c
    → (c.use_lock ≡ false) × (forwards target (x, c) ≡ false)
unfolding forwards
member-silent x target c member = (member.1, ground (arith, member.0))
