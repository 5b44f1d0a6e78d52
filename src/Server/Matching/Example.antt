-- ===== src/Server/Matching/Example.antt =====
-- A structure that matches whole paths, and a client that subscribes to one.
use gnmi_gateway.Prelude.{
  ℕ, Bool, true, false, ◌&&◌, Option, none, some, List, [], ◌∷◌, Text, codes, ◌==◌, eq_iff, Any,
  any, any_iff, map, eqb, eqb_iff, Bool-cases, inl, inr, ◌⊎◌, ◌↔◌, if◌then◌else◌, arith, ◌≡◌, refl,
  sym, ◌∙◌, true_not_false,
}
use gnmi_gateway.Proto.{GnmiPath, SubscriptionList, stream, empty_path}
use gnmi_gateway.Server.Matching.{Match, subscribed_names, add_subscription, remove_subscription}
use gnmi_gateway.Server.Matching.Routing.{Among, IsMatch, IsOffered, add_subscription_lem}

-- Two paths are the same.
same_path : List Text → List Text → Bool
same_path [] [] = true
same_path [] (t ∷ q) = false
same_path (s ∷ p) [] = false
same_path (s ∷ p) (t ∷ q) = s == t && same_path p q

same_path_iff : (p q : List Text) → (same_path p q ≡ true) ↔ (p ≡ q)
unfolding same_path
same_path_iff [] [] = ground arith
same_path_iff [] (t ∷ q) = ground arith
same_path_iff (s ∷ p) [] = ground arith
same_path_iff (s ∷ p) (t ∷ q) = ground (arith, eq_iff s t, same_path_iff p q)

abbrev Table : Type 0
Table = List (ℕ × List Text)

abbrev queries : Table → ℕ → List (List Text)
queries [] c = []
queries ((d, q) ∷ m) c = let rest = queries m c in if eqb d c then q ∷ rest else rest

abbrev without : Table → List Text → ℕ → Table
without [] q c = []
without ((d, r) ∷ m) q c =
    let rest = without m q c in if eqb d c && same_path r q then rest else (d, r) ∷ rest

abbrev called : Table → List Text → List ℕ
called [] p = []
called ((d, q) ∷ m) p = let rest = called m p in if same_path q p then d ∷ rest else rest

abbrev table : Match Table
table = record { add_query = λ m q c. (c, q) ∷ m; remove_query = without; clients = called }

adds_one :
    (m : Table) (q r : List Text) (c : ℕ)
    → Among r (queries ((c, q) ∷ m) c) ↔ ((r ≡ q) ⊎ Among r (queries m c))
adds_one m q r c = rw ((eqb_iff c c).1 refl) ((λ h. h), λ h. h)

removes_only :
    (m : Table) (q : List Text) (c d : ℕ)
    → eqb c d ≡ false
    → queries (without m q c) d ≡ queries m d
removes_only [] q c d e = refl
removes_only ((b, r) ∷ m) q c d e = ground (arith, removes_only m q c d e)

removes_one :
    (m : Table) (q r : List Text) (c : ℕ)
    → Among r (queries (without m q c) c)
    → Among r (queries m c) × (r ≡ q → ⊥)
removes_one [] q r c h = absurd h
removes_one ((d, s) ∷ m) q r c h = elim (Bool-cases (eqb d c)) [
  | inr other ↦
      let rest : Among r (queries (without m q c) c) = rw (other, other) at h in
      rw other (removes_one m q r c rest)
  | inl own ↦ elim (Bool-cases (same_path s q)) [
    | inl same ↦
        let rest : Among r (queries (without m q c) c) = rw (own, same) at h in
        let (kept, apart) = removes_one m q r c rest in rw own (inr kept, apart)
    | inr apart ↦
        let rest : Among r (s ∷ queries (without m q c) c) = rw (own, apart, own) at h in
        elim rest [
          | inl here ↦
              rw own
                (inl here, λ e. true_not_false (sym ((same_path_iff s q).1 (sym here ∙ e)) ∙ apart))
          | inr there ↦
              let (kept, differs) = removes_one m q r c there in rw own (inr kept, differs)
        ]
  ]
]

calls_any :
    (m : Table) (p : List Text) (c : ℕ)
    → any (λ d. eqb c d) (called m p) ≡ any (λ q. same_path q p) (queries m c)
unfolding any
calls_any [] p c = refl
calls_any ((d, q) ∷ m) p c = ground (arith, calls_any m p c, eqb_iff c d, eqb_iff d c)

calls_those :
    (m : Table) (p : List Text) (c : ℕ)
    → (any (λ d. eqb c d) (called m p) ≡ true) ↔ Any (λ q. same_path q p ≡ true) (queries m c)
calls_those m p c =
    let (there, back) =
      any_iff (λ q. same_path q p ≡ true) (λ q. same_path q p) (λ q. ((λ h. h), λ h. h))
        (queries m c) in
    ((λ h. there (sym (calls_any m p c) ∙ h)), λ h. calls_any m p c ∙ back h)

table-IsMatch : IsMatch table same_path
table-IsMatch = record {
  registered = queries;
  adds = adds_one;
  adds_only = λ m q c d e. rw e refl;
  removes = removes_one;
  removes_only = removes_only;
  calls = calls_those;
}

-- The names of the elements, behind the target of a prefix.
abbrev to_strings : Option GnmiPath → Bool → List Text
to_strings none is_prefix = []
to_strings (some p) true = p.target ∷ map (λ e. e.name) p.elem
to_strings (some p) false = map (λ e. e.name) p.elem

abbrev octets : GnmiPath
octets = record {
  origin = [];
  target = [];
  elem = record { name = codes "octets"; key = none } ∷ [];
}

abbrev list : SubscriptionList
list = record {
  prefix = some (record empty_path { target = codes "r1" });
  subscription = none ∷ some octets ∷ [];
  mode = stream;
  updates_only = false;
}

abbrev path : List Text
path = codes "r1" ∷ codes "octets" ∷ []

-- Client 7 is registered already, and client 8 subscribes.
abbrev others : Table
others = (7, path) ∷ []

add_subscription_lem_example :
    let m1 = add_subscription to_strings table others list 8 in
    IsOffered table same_path table-IsMatch m1 path 8
unfolding table-IsMatch subscribed_names same_path ◌==◌
add_subscription_lem_example =
    (add_subscription_lem table same_path table-IsMatch to_strings others list 8 path refl).0.1
      (inr (inl refl))

abbrev packets : GnmiPath
packets = record octets { elem = record { name = codes "packets"; key = none } ∷ [] }

abbrev two : SubscriptionList
two = record list { subscription = some octets ∷ some packets ∷ [] }

-- With a cell to spare the second path is appended_cells over the first, whose query is then never removed:
-- the client is still offered updates of it.
left_behind :
    let m1 = add_subscription to_strings table others two 8 in
    called (remove_subscription to_strings 1 table m1 two 8) path ≡ 8 ∷ 7 ∷ []
unfolding subscribed_names gnmi_gateway.Server.Matching.remove_queries
    gnmi_gateway.Server.Matching.add_queries same_path gnmi_gateway.Server.Matching.held_query ◌==◌
    gnmi_gateway.Server.Matching.cells_of gnmi_gateway.Server.Matching.appended_cells
    gnmi_gateway.Server.Matching.overwrite
left_behind = refl
