-- ===== src/Connections/State/Seen.antt =====
-- The callbacks of one connection in sequence: which targets count as seen, and what the flags mean.
use gnmi_gateway.Prelude.{
  Bool, true, false, Option, none, some, List, [], ◌∷◌, Text, Map, lookup, insert, lookup-insert,
  ◌==◌, eq_iff, All, if◌then◌else◌, arith, ◌≡◌, refl, ◌∙◌, ◌↔◌, ◌≢◌, ◌⊎◌, inl, inr, Bool-cases,
}
use gnmi_gateway.Proto.{GnmiPath, Notification, Response, PathElem}
use gnmi_gateway.Connections.Match.{reject_update}
use gnmi_gateway.Connections.State.{
  CacheApi, ConnectionState, Message, response, other, star, seen_target, accept_update,
  mark_connected, handle_update, disconnected, count_notification,
}

-- What the gNMI client reports: a message, or that the connection is lost.
pub data Event : Type 0 where
  receives : Message → Event
  loses : Event

module _ (api : CacheApi) (rejections : List (List PathElem)) where
  open api use {Cache}

  unfoldable pub step : ConnectionState × Cache → Event → ConnectionState × Cache
  step (t, cache) (receives msg) =
      let r = handle_update api rejections t cache msg in (r.state, r.cache)
  step (t, cache) loses = disconnected api t cache

  unfoldable pub run : ConnectionState × Cache → List Event → ConnectionState × Cache
  run s [] = s
  run s (e ∷ es) = run (step s e) es

-- The event is a notification for the named target that is not rejected.
abbrev pub Names : List (List PathElem) → Text → Event → Type 0
Names rejections x (receives (response (Response.update n))) =
    (reject_update rejections n ≡ false) × (p : GnmiPath) × (n.prefix ≡ some p) × (p.target ≡ x)
Names rejections x _ = ⊥

abbrev pub Survives : Event → Type 0
Survives loses = ⊥
Survives (receives _) = Unit

-- Some notification names the target, and the connection is not lost after it.
abbrev pub NamedSince : List (List PathElem) → Text → List Event → Type 0
NamedSince rejections x [] = ⊥
NamedSince rejections x (e ∷ es) =
    (Names rejections x e × All Survives es) ⊎ NamedSince rejections x es

abbrev sees : Map Bool → Text → Bool
sees m x = elim (lookup m x) [ none ↦ false | some b ↦ b ]

sees-insert :
    (m : Map Bool) (k x : Text) → sees (insert m k true) x ≡ (if k == x then true else sees m x)
sees-insert m k x = ground (arith, lookup-insert m k true x)

seen_target-sees :
    (t : ConnectionState) (m : Map Bool) (x : Text) → t.seen ≡ m → seen_target t x ≡ sees m x
unfolding seen_target
seen_target-sees t m x e = ground arith

-- What an accepted notification with this prefix adds.
abbrev add_prefix : Option GnmiPath → Map Bool → Map Bool
add_prefix none m = m
add_prefix (some p) m = insert m p.target true

add_prefix-sees :
    (o : Option GnmiPath) (m : Map Bool) (x : Text)
    → (sees (add_prefix o m) x ≡ true)
      ↔ (((p : GnmiPath) × (o ≡ some p) × (p.target ≡ x)) ⊎ (sees m x ≡ true))
add_prefix-sees none m x = ((λ h. inr h), (λ h. ground arith))
add_prefix-sees (some p) m x = rw (sees-insert m p.target x) (elim (Bool-cases (p.target == x)) [
  | inl same ↦ ((λ _. inl (p, refl, (eq_iff p.target x).0 same)), (λ _. rw same))
  | inr differs ↦ rw differs (
    (λ h. inr h),
    (λ h. elim h [ inl (p', e, at_x) ↦ ground (arith, eq_iff p.target x) | inr old ↦ old ]),
  )
])

module _ (api : CacheApi) (rejections : List (List PathElem)) where
  open api use {Cache}

  -- The parts of the state that a step never writes.
  abbrev Keeps : ConnectionState → ConnectionState → Type 0
  Keeps t u = (u.query_target ≡ t.query_target) × (u.name ≡ t.name)

  step-Keeps :
      (t : ConnectionState) (cache : Cache) (e : Event)
      → Keeps t (step api rejections (t, cache) e).0
  unfolding step handle_update disconnected
  step-Keeps t cache (receives other) = ground arith
  step-Keeps t cache (receives (response (Response.update n))) = ground arith
  step-Keeps t cache (receives (response r)) = ground arith
  step-Keeps t cache loses = ground arith

  -- An accepted notification with a prefix adds its target.
  seen-accept :
      (t : ConnectionState) (cache : Cache) (n : Notification)
      → t.query_target ≡ star
      → (accept_update api t cache n).state.seen ≡ add_prefix n.prefix t.seen
  unfolding accept_update
  seen-accept t cache n q = ground (arith, eq_iff t.query_target star)

  seen-update :
      (t : ConnectionState) (cache : Cache) (n : Notification)
      → t.query_target ≡ star
      → (step api rejections (t, cache) (receives (response (Response.update n)))).0.seen
        ≡ (if reject_update rejections n then t.seen else add_prefix n.prefix t.seen)
  unfolding step handle_update
  seen-update t cache n q = ground (
    arith,
    seen-accept (mark_connected api (count_notification t) cache).0
        (mark_connected api (count_notification t) cache).1 n,
  )

  seen-other :
      (t : ConnectionState) (cache : Cache) (m : Message)
      → ((n : Notification) → m ≢ response (Response.update n))
      → (step api rejections (t, cache) (receives m)).0.seen ≡ t.seen
  unfolding step handle_update
  seen-other t cache other h = ground arith
  seen-other t cache (response (Response.update n)) h = absurd (h n refl)
  seen-other t cache (response r) h = ground arith

  step-seen_other :
      (t : ConnectionState) (cache : Cache) (m : Message) (x : Text)
      → ((n : Notification) → m ≢ response (Response.update n))
      → (seen_target (step api rejections (t, cache) (receives m)).0 x ≡ true)
        ↔ (⊥ ⊎ (Unit {0} × (seen_target t x ≡ true)))
  step-seen_other t cache m x h =
      rw
        (
          seen_target-sees (step api rejections (t, cache) (receives m)).0 t.seen x
              (seen-other t cache m h),
          seen_target-sees t t.seen x refl,
        )
        ((λ h. inr (tt, h)), (λ h. elim h [ inl f ↦ absurd f | inr g ↦ g.1 ]))

  -- On a connection for every target, one step makes a target seen or forgets it.
  step-seen :
      (t : ConnectionState) (cache : Cache) (e : Event) (x : Text)
      → t.query_target ≡ star
      → (seen_target (step api rejections (t, cache) e).0 x ≡ true)
        ↔ (Names rejections x e ⊎ (Survives e × (seen_target t x ≡ true)))
  step-seen t cache loses x q =
      unfold step disconnected seen_target lookup in
      ((λ h. cc), (λ h. elim h [ inl f ↦ absurd f | inr g ↦ absurd g.0 ]))
  step-seen t cache (receives (response (Response.update n))) x q =
      rw
        (
          seen_target-sees
              (step api rejections (t, cache) (receives (response (Response.update n)))).0 _ x
              (seen-update t cache n q),
          seen_target-sees t t.seen x refl,
        )
        (elim (Bool-cases (reject_update rejections n)) [
          | inl dropped ↦
              rw dropped ((λ h. inr (tt, h)), (λ h. elim h [ inl f ↦ cc f.0 | inr g ↦ g.1 ]))
          | inr kept ↦ rw kept (
            (λ h. elim ((add_prefix-sees n.prefix t.seen x).0 h) [
              | inl f ↦ inl (refl, f.0, f.1, f.2)
              | inr g ↦ inr (tt, g)
            ]),
            (λ h.
                (add_prefix-sees n.prefix t.seen x).1
                  (elim h [ inl f ↦ inl (f.1, f.2, f.3) | inr g ↦ inr g.1 ])),
          )
        ])
  step-seen t cache (receives other) x q = step-seen_other t cache other x (λ n e. cc)
  step-seen t cache (receives (response Response.sync_response)) x q =
      step-seen_other t cache _ x (λ n e. cc)
  step-seen t cache (receives (response Response.error)) x q =
      step-seen_other t cache _ x (λ n e. cc)
  step-seen t cache (receives (response Response.unset)) x q =
      step-seen_other t cache _ x (λ n e. cc)

  -- On a connection that asks for every target, a target counts as seen after a sequence of callbacks
  -- exactly if a notification for it that is not rejected came and the connection was not lost since,
  -- or it was seen at the start and the connection was never lost.
  pub run-seen :
      (t : ConnectionState) (cache : Cache) (es : List Event) (x : Text)
      → t.query_target ≡ star
      → (seen_target (run api rejections (t, cache) es).0 x ≡ true)
        ↔ (NamedSince rejections x es ⊎ (All Survives es × (seen_target t x ≡ true)))
  unfolding run
  run-seen t cache [] x q = ((λ h. inr (tt, h)), (λ h. elim h [ inl f ↦ absurd f | inr g ↦ g.1 ]))
  run-seen t cache (e ∷ es) x q =
      let s = step api rejections (t, cache) e in
      let rest = run-seen s.0 s.1 es x ((step-Keeps t cache e).0 ∙ q) in
      let now = step-seen t cache e x q in
      (
        (λ h. elim (rest.0 h) [
          | inl f ↦ inl (inr f)
          | inr g ↦ elim (now.0 g.1) [
            | inl named ↦ inl (inl (named, g.0))
            | inr kept ↦ inr ((kept.0, g.0), kept.1)
          ]
        ]),
        (λ h. rest.1 (elim h [
          | inl f ↦ elim f [
            | inl named ↦ inr (named.1, now.1 (inl named.0))
            | inr later ↦ inl later
          ]
          | inr g ↦ inr (g.0.1, now.1 (inr (g.0.0, g.1)))
        ])),
      )
