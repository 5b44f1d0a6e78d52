-- ===== src/Server/Matching/Routing.antt =====
-- Which clients are offered an update.
use gnmi_gateway.Prelude.{
  ℕ, Bool, true, false, Option, none, some, List, [], ◌∷◌, ◌++◌, Text, map, Any, any, eqb, inl, inr,
  ◌⊎◌, ◌↔◌, arith, ◌≡◌, refl, sym, subst, ◌∙◌,
}
use gnmi_gateway.Proto.{GnmiPath, SubscriptionList}
use gnmi_gateway.Server.Matching.{
  Match, subscribed_names, held_query, appended_cells, cells_of, add_queries, remove_queries,
  add_subscription, remove_subscription,
}

-- One of the queries is this one.
abbrev pub Among : List Text → List (List Text) → Type 0
Among q qs = Any (λ r. q ≡ r) qs

-- What is documented of the structure: it holds the queries of every client, adds and removes the one
-- that is named, and calls the clients with a query that matches.
pub record IsMatch {M : Type 0} (k : Match M) (matches : List Text → List Text → Bool)
    : Type 0 where
  pub registered : M → ℕ → List (List Text)
  pub adds :
      (m : M) (q r : List Text) (c : ℕ)
      → Among r (registered (k.add_query m q c) c) ↔ ((r ≡ q) ⊎ Among r (registered m c))
  pub adds_only :
      (m : M) (q : List Text) (c d : ℕ)
      → eqb c d ≡ false
      → registered (k.add_query m q c) d ≡ registered m d
  pub removes :
      (m : M) (q r : List Text) (c : ℕ)
      → Among r (registered (k.remove_query m q c) c)
      → Among r (registered m c) × (r ≡ q → ⊥)
  pub removes_only :
      (m : M) (q : List Text) (c d : ℕ)
      → eqb c d ≡ false
      → registered (k.remove_query m q c) d ≡ registered m d
  pub calls :
      (m : M) (p : List Text) (c : ℕ)
      → (any (λ d. eqb c d) (k.clients m p) ≡ true) ↔ Any (λ q. matches q p ≡ true) (registered m c)

witness_of :
    {P : List Text → Type 0} (qs : List (List Text)) → Any P qs → (r : List Text) × Among r qs × P r
witness_of [] h = absurd h
witness_of (q ∷ qs) (inl here) = (q, inl refl, here)
witness_of (q ∷ qs) (inr there) = let (r, among, p) = witness_of qs there in (r, inr among, p)

-- The prefix with the path of a subscription, if it has one, matches.
abbrev pub Covers :
    (List Text → List Text → Bool)
    → (Option GnmiPath → Bool → List Text)
    → Option GnmiPath
    → List Text
    → Option GnmiPath
    → Type 0
Covers matches to_strings prefix p none = ⊥
Covers matches to_strings prefix p (some path) =
    matches (to_strings prefix true ++ to_strings (some path) false) p ≡ true

any_among :
    (P : List Text → Type 0) (qs : List (List Text)) (r : List Text) → Among r qs → P r → Any P qs
any_among P [] r h p = absurd h
any_among P (q ∷ qs) r (inl here) p = inl (subst P here p)
any_among P (q ∷ qs) r (inr there) p = inr (any_among P qs r there p)

subscribed_names-Any :
    (matches : List Text → List Text → Bool) (to_strings : Option GnmiPath → Bool → List Text)
    (prefix : Option GnmiPath) (p : List Text) (paths : List (Option GnmiPath))
    → Any
        (λ q. matches q p ≡ true)
        (map (λ names. to_strings prefix true ++ names) (subscribed_names to_strings paths))
      ↔ Any (Covers matches to_strings prefix p) paths
unfolding subscribed_names
subscribed_names-Any matches to_strings prefix p [] = ((λ h. h), λ h. h)
subscribed_names-Any matches to_strings prefix p (none ∷ paths) =
    let (there, back) = subscribed_names-Any matches to_strings prefix p paths in
    ((λ h. inr (there h)), λ h. elim h [ inl a ↦ absurd a | inr b ↦ back b ])
subscribed_names-Any matches to_strings prefix p (some path ∷ paths) =
    let (there, back) = subscribed_names-Any matches to_strings prefix p paths in
    (
      (λ h. elim h [ inl a ↦ inl a | inr b ↦ inr (there b) ]),
      λ h. elim h [ inl a ↦ inl a | inr b ↦ inr (back b) ],
    )

-- Without cells to spare every slice is of its own.
held_query-own :
    (cells prefix names : List Text) → held_query 0 cells prefix names ≡ prefix ++ names
unfolding held_query cells_of
held_query-own cells prefix [] = refl
held_query-own cells prefix (name ∷ names) = ground arith

held_queries-own :
    (cells prefix : List Text) (all : List (List Text))
    → map (held_query 0 cells prefix) all ≡ map (λ names. prefix ++ names) all
held_queries-own cells prefix [] = refl
held_queries-own cells prefix (names ∷ all) =
    rw (held_query-own cells prefix names, held_queries-own cells prefix all) refl

module _ {M : Type 0} (k : Match M) (matches : List Text → List Text → Bool)
    (x : IsMatch k matches) where
  add_queries-Among :
      (r : List Text) (m : M) (c : ℕ) (qs : List (List Text))
      → Among r (x.registered (add_queries k m c qs) c) ↔ (Among r (x.registered m c) ⊎ Among r qs)
  unfolding add_queries
  add_queries-Among r m c [] = ((λ h. inl h), λ h. elim h [ inl a ↦ a | inr b ↦ absurd b ])
  add_queries-Among r m c (q ∷ qs) =
      let (there, back) = add_queries-Among r (k.add_query m q c) c qs in
      let (was, now) = x.adds m q r c in
      (
        (λ h. elim (there h) [
          | inr later ↦ inr (inr later)
          | inl sooner ↦ elim (was sooner) [ inl first ↦ inr (inl first) | inr before ↦ inl before ]
        ]),
        λ h. elim h [
          | inl before ↦ back (inl (now (inr before)))
          | inr (inl first) ↦ back (inl (now (inl first)))
          | inr (inr later) ↦ back (inr later)
        ],
      )

  -- A client that had no queries has those that are added.
  add_queries-fresh :
      (P : List Text → Type 0) (m : M) (c : ℕ) (qs : List (List Text))
      → x.registered m c ≡ []
      → Any P (x.registered (add_queries k m c qs) c) ↔ Any P qs
  add_queries-fresh P m c qs fresh = (
    (λ h.
        let (r, among, p) = witness_of (x.registered (add_queries k m c qs) c) h in
        elim ((add_queries-Among r m c qs).0 among) [
          | inl before ↦ absurd (subst (λ rs. Among r rs) fresh before)
          | inr new ↦ any_among P qs r new p
        ]),
    λ h.
        let (r, among, p) = witness_of qs h in
        any_among P (x.registered (add_queries k m c qs) c) r
          ((add_queries-Among r m c qs).1 (inr among)) p,
  )

  add_queries-other :
      (m : M) (c d : ℕ) (qs : List (List Text))
      → eqb c d ≡ false
      → x.registered (add_queries k m c qs) d ≡ x.registered m d
  unfolding add_queries
  add_queries-other m c d [] e = refl
  add_queries-other m c d (q ∷ qs) e =
      add_queries-other (k.add_query m q c) c d qs e ∙ x.adds_only m q c d e

  remove_queries-other :
      (m : M) (c d : ℕ) (qs : List (List Text))
      → eqb c d ≡ false
      → x.registered (remove_queries k m c qs) d ≡ x.registered m d
  unfolding remove_queries
  remove_queries-other m c d [] e = refl
  remove_queries-other m c d (q ∷ qs) e =
      remove_queries-other (k.remove_query m q c) c d qs e ∙ x.removes_only m q c d e

  remove_queries-Among :
      (m : M) (c : ℕ) (qs : List (List Text)) (r : List Text)
      → Among r (x.registered (remove_queries k m c qs) c)
      → Among r (x.registered m c) × (Among r qs → ⊥)
  unfolding remove_queries
  remove_queries-Among m c [] r h = (h, λ a. a)
  remove_queries-Among m c (q ∷ qs) r h =
      let (rest, later) = remove_queries-Among (k.remove_query m q c) c qs r h in
      let (before, first) = x.removes m q r c rest in
      (before, λ a. elim a [ inl same ↦ first same | inr there ↦ later there ])

  -- The client is offered what has the path.
  abbrev pub IsOffered : M → List Text → ℕ → Type 0
  IsOffered m p c = any (λ d. eqb c d) (k.clients m p) ≡ true

  same_offers :
      (m n : M) (p : List Text) (d : ℕ)
      → x.registered m d ≡ x.registered n d
      → IsOffered m p d ↔ IsOffered n p d
  same_offers m n p d same = (
    (λ h.
        (x.calls n p d).1
          (subst (λ rs. Any (λ q. matches q p ≡ true) rs) same ((x.calls m p d).0 h))),
    λ h.
        (x.calls m p d).1
          (subst (λ rs. Any (λ q. matches q p ≡ true) rs) (sym same) ((x.calls n p d).0 h)),
  )

  -- A client that had no queries and subscribes is offered an update exactly if the prefix with one of
  -- the paths of its list matches it; a subscription without a path counts for nothing. If the slice of
  -- the prefix has no cells to spare, the client is offered nothing once it has removed its queries.
  -- What other clients are offered stays the same.
  pub add_subscription_lem :
      (to_strings : Option GnmiPath → Bool → List Text) (m : M) (list : SubscriptionList) (c : ℕ)
      (p : List Text)
      → x.registered m c ≡ []
      → let m1 = add_subscription to_strings k m list c in
        let m2 = remove_subscription to_strings 0 k m1 list c in
        (IsOffered m1 p c ↔ Any (Covers matches to_strings list.prefix p) list.subscription)
        × (IsOffered m2 p c → ⊥)
        × ((d : ℕ)
            → eqb c d ≡ false
            → (IsOffered m1 p d ↔ IsOffered m p d) × (IsOffered m2 p d ↔ IsOffered m p d))
  add_subscription_lem to_strings m list c p fresh =
      let names = subscribed_names to_strings list.subscription in
      let prefix = to_strings list.prefix true in
      let qs = map (λ ns. prefix ++ ns) names in
      let held = map (held_query 0 (appended_cells 0 [] names) prefix) names in
      let m1 = add_subscription to_strings k m list c in
      let m2 = remove_queries k m1 c held in
      let (there, back) = add_queries-fresh (λ q. matches q p ≡ true) m c qs fresh in
      let (covers, covered) =
        subscribed_names-Any matches to_strings list.prefix p list.subscription in
      (
        ((λ h. covers (there ((x.calls m1 p c).0 h))), λ h. (x.calls m1 p c).1 (back (covered h))),
        (λ h.
            let (r, left, _) = witness_of (x.registered m2 c) ((x.calls m2 p c).0 h) in
            let (kept, gone) = remove_queries-Among m1 c held r left in
            let new = (add_queries-fresh (λ q. r ≡ q) m c qs fresh).0 kept in
            gone (
              subst (λ rs. Among r rs)
                (sym (held_queries-own (appended_cells 0 [] names) prefix names)) new)),
        λ d apart.
            let same1 = add_queries-other m c d qs apart in
            let same2 = remove_queries-other m1 c d held apart ∙ same1 in
            (same_offers m1 m p d same1, same_offers m2 m p d same2),
      )
