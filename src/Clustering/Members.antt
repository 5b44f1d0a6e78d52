-- ===== src/Clustering/Members.antt =====
-- A listener that follows the callbacks knows exactly the other members of the cluster.
use gnmi_gateway.Prelude.{
  Bool, true, false, not, ◌&&◌, ◌||◌, some, List, [], ◌∷◌, ◌++◌, Text, ◌==◌, any, any-keep, keep,
  map, Option-cases, if◌then◌else◌, arith, ◌≡◌, refl, ◌∙◌, inl, inr,
}
use gnmi_gateway.Clustering.{
  Event, adds, removes, Answer, children, missing, errs, Watch, member_id_in_slice, watch_round,
  watch_step, watch_run, added_events, removed_events, current_members,
}

-- What a listener that keeps a set of members has after an event.
abbrev pub follow : Bool → Text → Event → Bool
follow known x (adds m) = if m == x then true else known
follow known x (removes m) = if m == x then false else known

unfoldable pub follow_all : Bool → Text → List Event → Bool
follow_all known x [] = known
follow_all known x (e ∷ es) = follow_all (follow known x e) x es

follow_all-append :
    (known : Bool) (x : Text) (es fs : List Event)
    → follow_all known x (es ++ fs) ≡ follow_all (follow_all known x es) x fs
unfolding follow_all
follow_all-append known x [] fs = refl
follow_all-append known x (e ∷ es) fs = follow_all-append (follow known x e) x es fs

follow_all-adds :
    (known : Bool) (x : Text) (ms : List Text)
    → follow_all known x (map adds ms) ≡ (known || any (λ m. m == x) ms)
unfolding follow_all any
follow_all-adds known x [] = ground arith
follow_all-adds known x (m ∷ ms) =
    ground (arith, follow_all-adds known x ms, follow_all-adds true x ms)

follow_all-removes :
    (known : Bool) (x : Text) (ms : List Text)
    → follow_all known x (map removes ms) ≡ (known && not (any (λ m. m == x) ms))
unfolding follow_all any
follow_all-removes known x [] = ground arith
follow_all-removes known x (m ∷ ms) =
    ground (arith, follow_all-removes known x ms, follow_all-removes false x ms)

-- What each part of a round contributes for another member.
added_events-follow :
    (self x : Text) (previous cs : List Text) (known : Bool)
    → (x == self) ≡ false
    → known ≡ any (λ m. m == x) previous
    → follow_all known x (added_events self previous cs)
      ≡ (any (λ m. m == x) previous || any (λ m. m == x) cs)
unfolding added_events member_id_in_slice
added_events-follow self x previous cs known other k = ground (
  arith,
  follow_all-adds known x (keep (λ m. not (m == self) && not (member_id_in_slice m previous)) cs),
  any-keep (λ m. not (m == self) && not (member_id_in_slice m previous)) x cs,
)

current_members-any :
    (self x : Text) (cs : List Text)
    → (x == self) ≡ false
    → any (λ m. m == x) (current_members self cs) ≡ any (λ m. m == x) cs
unfolding current_members
current_members-any self x cs other = ground (arith, any-keep (λ m. not (m == self)) x cs)

removed_events-follow :
    (self x : Text) (previous current : List Text) (known : Bool)
    → (x == self) ≡ false
    → follow_all known x (removed_events self previous current)
      ≡ (known && not (any (λ m. m == x) previous && not (any (λ m. m == x) current)))
unfolding removed_events member_id_in_slice
removed_events-follow self x previous current known other = ground (
  arith,
  follow_all-removes known x
      (keep (λ m. not (m == self) && not (member_id_in_slice m current)) previous),
  any-keep (λ m. not (m == self) && not (member_id_in_slice m current)) x previous,
)

watch_round-follow :
    (self x : Text) (previous cs : List Text) (known : Bool)
    → (x == self) ≡ false
    → known ≡ any (λ m. m == x) previous
    → (follow_all known x (watch_round self previous cs).0 ≡ any (λ m. m == x) cs)
      × (any (λ m. m == x) (watch_round self previous cs).1 ≡ any (λ m. m == x) cs)
unfolding watch_round added_events removed_events current_members
watch_round-follow self x previous cs known other k = (
  follow_all-append known x (added_events self previous cs)
        (removed_events self previous (current_members self cs))
      ∙ ground (
        arith,
        added_events-follow self x previous cs known other k,
        removed_events-follow self x previous (current_members self cs)
            (follow_all known x (added_events self previous cs)) other,
        current_members-any self x cs other,
      ),
  current_members-any self x cs other,
)

abbrev pub latest : List Text → List Answer → List Text
latest cs [] = cs
latest cs (children ds ∷ answers) = latest ds answers
latest cs (_ ∷ answers) = latest cs answers

-- A step that succeeds, for a listener that knows the previous members.
watch_step-follow :
    (self x : Text) (w w' : Watch) (a : Answer) (events : List Event) (known : Bool)
    → (x == self) ≡ false
    → known ≡ any (λ m. m == x) w.previous
    → watch_step self w a ≡ some (w', events)
    → (follow_all known x events ≡ any (λ m. m == x) w'.previous)
      × (any (λ m. m == x) w'.previous ≡ any (λ m. m == x) (latest w.previous (a ∷ [])))
unfolding watch_step follow_all
watch_step-follow self x w w' (children cs) events known other k step =
    ground (arith, watch_round-follow self x w.previous cs known other k)
watch_step-follow self x w w' (missing b) events known other k step = ground arith
watch_step-follow self x w w' errs events known other k step = ground arith

-- Whether a run knows a member depends on the previous members through that only.
latest-any :
    (x : Text) (olds news : List Text) (answers : List Answer)
    → any (λ m. m == x) olds ≡ any (λ m. m == x) news
    → any (λ m. m == x) (latest olds answers) ≡ any (λ m. m == x) (latest news answers)
latest-any x olds news [] e = e
latest-any x olds news (children cs ∷ answers) e = refl
latest-any x olds news (missing b ∷ answers) e = latest-any x olds news answers e
latest-any x olds news (fails ∷ answers) e = latest-any x olds news answers e

latest-cons :
    (cs : List Text) (a : Answer) (answers : List Answer)
    → latest cs (a ∷ answers) ≡ latest (latest cs (a ∷ [])) answers
latest-cons cs (children ds) answers = refl
latest-cons cs (missing b) answers = refl
latest-cons cs errs answers = refl

-- The rest of a run, for a listener that knows the previous members.
watch_run-follow_from :
    (self x : Text) (answers : List Answer) (w w' : Watch) (events : List Event) (known : Bool)
    → (x == self) ≡ false
    → known ≡ any (λ m. m == x) w.previous
    → watch_run self w answers ≡ some (w', events)
    → follow_all known x events ≡ any (λ m. m == x) (latest w.previous answers)
unfolding watch_run follow_all
watch_run-follow_from self x [] w w' events known other k run = ground arith
watch_run-follow_from self x (a ∷ answers) w w' events known other k run =
    elim (Option-cases (watch_step self w a)) [
      | inl e ↦ ground arith
      | inr ((v, es), e) ↦ elim (Option-cases (watch_run self v answers)) [
        | inl e' ↦ ground arith
        | inr ((v', later), e') ↦
            let step = watch_step-follow self x w v a es known other k e in
            let rest =
              watch_run-follow_from self x answers v v' later (follow_all known x es) other step.0
                e' in
            ground (
              arith,
              follow_all-append known x es later,
              rest,
              latest-any x v.previous (latest w.previous (a ∷ [])) answers step.1,
              latest-cons w.previous a answers,
            )
      ]
    ]

-- Over every run of the watch that does not panic, from its start with no members, a listener that
-- keeps the members it was told to add, less those it was told to remove, knows another member than
-- this one exactly if that member is among the children that Zookeeper answered last.
pub watch_run-follow :
    (self x : Text) (answers : List Answer) (w : Watch) (events : List Event)
    → (x == self) ≡ false
    → watch_run self (record { previous = []; errors = 0 }) answers ≡ some (w, events)
    → follow_all false x events ≡ any (λ m. m == x) (latest [] answers)
unfolding any
watch_run-follow self x answers w events other r =
    watch_run-follow_from self x answers (record { previous = []; errors = 0 }) w events false other
      refl r
