-- ===== src/Loaders/Simple/Parse.antt =====
-- What the simple loader makes of its file.
use gnmi_gateway.Prelude.{
  some_inj, split, true, false, Bool-cases, ◌==◌, if◌then◌else◌, Bool, Option, none, some, List, [],
  ◌∷◌, Text, Map, IsMap, lookup, insert, insert-IsMap, lookup-insert, all, arith, ◌≡◌, refl, subst,
  eq_iff, is_some, inl, inr, Option-cases,
}
use gnmi_gateway.Proto.{Target, SubscribeRequest, Configuration, GnmiPath, stream}
use gnmi_gateway.Loaders.Simple.{
  origin_and_path, ConnectionConfig, RequestConfig, TargetConfig, parse_path, parse_paths,
  make_request, make_target, add_requests, add_targets, yaml_to_targets,
}

add_targets-lookup :
    (targets : Map Target) (cs : Map ConnectionConfig) (x : Text)
    → IsMap cs
    → lookup (add_targets targets cs) x
      ≡ elim (lookup cs x) [ none ↦ lookup targets x | some c ↦ some (make_target c) ]
unfolding add_targets lookup
add_targets-lookup targets [] x h = refl
add_targets-lookup targets ((name, c) ∷ cs) x h = ground (
  arith,
  eq_iff name x,
  h.0,
  add_targets-lookup (insert targets name (make_target c)) cs x h.1,
  lookup-insert targets name (make_target c) x,
)

add_targets-IsMap :
    (targets : Map Target) (cs : Map ConnectionConfig)
    → IsMap targets
    → IsMap (add_targets targets cs)
unfolding add_targets
add_targets-IsMap targets [] h = h
add_targets-IsMap targets ((name, c) ∷ cs) h =
    add_targets-IsMap (insert targets name (make_target c)) cs
      (insert-IsMap targets name (make_target c) h)

-- The request that a configured request becomes, if its paths are read.
abbrev pub converted : (Text → Option GnmiPath) → RequestConfig → Option SubscribeRequest
converted to_path r = elim (parse_paths to_path r.paths) [
  | none ↦ none
  | some subs ↦ some (make_request r.target subs)
]

add_requests-lookup :
    (to_path : Text → Option GnmiPath) (requests out : Map SubscribeRequest)
    (rs : Map RequestConfig) (x : Text)
    → IsMap rs
    → add_requests to_path requests rs ≡ some out
    → lookup out x ≡ elim (lookup rs x) [ none ↦ lookup requests x | some r ↦ converted to_path r ]
unfolding add_requests lookup
add_requests-lookup to_path requests out [] x h e = ground arith
add_requests-lookup to_path requests out ((name, r) ∷ rs) x h e =
    elim (Option-cases (parse_paths to_path r.paths)) [
      | inl failed ↦ ground arith
      | inr (subs, parsed) ↦ ground (
        arith,
        parsed,
        eq_iff name x,
        h.0,
        add_requests-lookup to_path (insert requests name (make_request r.target subs)) out rs x
            h.1,
        lookup-insert requests name (make_request r.target subs) x,
      )
    ]

abbrev pub are_paths : (Text → Option GnmiPath) → List Text → Bool
are_paths to_path = all (λ p. is_some (parse_path to_path p))

parse_paths-is_some :
    (to_path : Text → Option GnmiPath) (xs : List Text)
    → is_some (parse_paths to_path xs) ≡ are_paths to_path xs
unfolding parse_paths all
parse_paths-is_some to_path [] = refl
parse_paths-is_some to_path (x ∷ xs) = ground (arith, parse_paths-is_some to_path xs)

add_requests-is_some :
    (to_path : Text → Option GnmiPath) (requests : Map SubscribeRequest) (rs : Map RequestConfig)
    → is_some (add_requests to_path requests rs) ≡ all (λ e. are_paths to_path e.1.paths) rs
unfolding add_requests all
add_requests-is_some to_path requests [] = refl
add_requests-is_some to_path requests ((name, r) ∷ rs) =
    elim (Option-cases (parse_paths to_path r.paths)) [
      | inl failed ↦ ground (arith, failed, parse_paths-is_some to_path r.paths)
      | inr (subs, parsed) ↦ ground (
        arith,
        parsed,
        parse_paths-is_some to_path r.paths,
        add_requests-is_some to_path (insert requests name (make_request r.target subs)) rs,
      )
    ]

-- A file that parses is refused exactly if one of its paths is: `yamlToTargets` returns a
-- configuration if and only if `ToGNMIPath` reads every path of every request.
pub yaml_to_targets-is_some :
    (unmarshal : Text → Option TargetConfig) (to_path : Text → Option GnmiPath) (yaml : Text)
    (config : TargetConfig)
    → unmarshal yaml ≡ some config
    → is_some (yaml_to_targets unmarshal to_path yaml)
      ≡ all (λ e. are_paths to_path e.1.paths) config.request
unfolding yaml_to_targets
yaml_to_targets-is_some unmarshal to_path yaml config read =
    ground (arith, read, add_requests-is_some to_path [] config.request)

add_requests-IsMap :
    (to_path : Text → Option GnmiPath) (requests out : Map SubscribeRequest)
    (rs : Map RequestConfig)
    → IsMap requests
    → add_requests to_path requests rs ≡ some out
    → IsMap out
unfolding add_requests
add_requests-IsMap to_path requests out [] h e = subst IsMap (some_inj e) h
add_requests-IsMap to_path requests out ((name, r) ∷ rs) h e =
    elim (Option-cases (parse_paths to_path r.paths)) [
      | inl failed ↦ ground (arith, failed)
      | inr (subs, parsed) ↦
          add_requests-IsMap to_path (insert requests name (make_request r.target subs)) out rs
            (insert-IsMap requests name (make_request r.target subs) h)
            (rw (parsed, add_requests) at e)
    ]

-- A path as it is read: what stands before its first colon is its origin, and what stands between that and
-- the next one is the path; without a colon, or with nothing before it, `ToGNMIPath` decides the origin.
abbrev pub IsPath : (Text → Option GnmiPath) → Text → GnmiPath → Type 0
IsPath to_path x p = elim (split x b':') [
  | [] ↦ to_path x ≡ some p
  | origin ∷ rest ↦ elim rest [
    | [] ↦ to_path x ≡ some p
    | path ∷ _ ↦
        (q : GnmiPath) × (to_path path ≡ some q)
        × (p ≡ record {
          origin = if origin == [] then q.origin else origin;
          target = q.target;
          elem = q.elem;
        })
  ]
]

abbrev pub ArePaths : (Text → Option GnmiPath) → List Text → List (Option GnmiPath) → Type 0
ArePaths to_path [] [] = Unit
ArePaths to_path [] (p ∷ ps) = ⊥
ArePaths to_path (x ∷ xs) [] = ⊥
ArePaths to_path (x ∷ xs) (none ∷ ps) = ⊥
ArePaths to_path (x ∷ xs) (some p ∷ ps) = IsPath to_path x p × ArePaths to_path xs ps

parse_path-IsPath :
    (to_path : Text → Option GnmiPath) (x : Text) (p : GnmiPath)
    → parse_path to_path x ≡ some p
    → IsPath to_path x p
unfolding parse_path origin_and_path
parse_path-IsPath to_path x p e = parts (split x b':') refl
  where
    parts : (ps : List Text) → split x b':' ≡ ps → IsPath to_path x p
    parts [] s = rw (s, IsPath) (ground (arith, s, e, eq_iff [] []))
    parts (origin ∷ []) s = rw (s, IsPath) (ground (arith, s, e, eq_iff [] []))
    parts (origin ∷ path ∷ rest) s = elim (Option-cases (to_path path)) [
      | inl failed ↦ ground (arith, s, e, failed)
      | inr (q, read) ↦ rw (s, IsPath) (q, read, ground (arith, s, e, read, eq_iff origin []))
    ]

parse_paths-ArePaths :
    (to_path : Text → Option GnmiPath) (xs : List Text) (ps : List (Option GnmiPath))
    → parse_paths to_path xs ≡ some ps
    → ArePaths to_path xs ps
unfolding parse_paths
parse_paths-ArePaths to_path [] ps e = subst (ArePaths to_path []) (some_inj e) tt
parse_paths-ArePaths to_path (x ∷ xs) ps e = elim (Option-cases (parse_path to_path x)) [
  | inl failed ↦ ground (arith, failed)
  | inr (p, read) ↦ elim (Option-cases (parse_paths to_path xs)) [
    | inl failed ↦ ground (arith, read, failed)
    | inr (rest, e') ↦
        let all_read : some p ∷ rest ≡ ps = ground (arith, read, e') in
        subst (ArePaths to_path (x ∷ xs)) all_read
          (parse_path-IsPath to_path x p read, parse_paths-ArePaths to_path xs rest e')
  ]
]

abbrev pub target_of : ConnectionConfig → Target
target_of c = record {
  addresses = c.addresses;
  credentials = some c.credentials;
  request = c.request;
  meta = c.meta;
}

-- The request of a configured one, over the paths that are read.
abbrev pub request_of : RequestConfig → List (Option GnmiPath) → SubscribeRequest
request_of r paths = record {
  subscribe = some (record {
    prefix = some (record { origin = []; target = r.target; elem = [] });
    subscription = paths;
    mode = stream;
    updates_only = false;
  });
}

abbrev pub Requests :
    (Text → Option GnmiPath) → Option RequestConfig → Option SubscribeRequest → Type 0
Requests to_path none out = out ≡ none
Requests to_path (some r) out =
    (paths : List (Option GnmiPath)) × ArePaths to_path r.paths paths
    × (out ≡ some (request_of r paths))

-- The paths of the configured requests are read.
add_requests-read :
    (to_path : Text → Option GnmiPath) (requests out : Map SubscribeRequest)
    (rs : Map RequestConfig) (x : Text) (c : RequestConfig)
    → add_requests to_path requests rs ≡ some out
    → lookup rs x ≡ some c
    → is_some (parse_paths to_path c.paths) ≡ true
unfolding add_requests lookup
add_requests-read to_path requests out [] x c e there = ground arith
add_requests-read to_path requests out ((name, r) ∷ rs) x c e there =
    elim (Option-cases (parse_paths to_path r.paths)) [
      | inl failed ↦ ground (arith, failed)
      | inr (subs, parsed) ↦ elim (Bool-cases (name == x)) [
        | inl same ↦ ground (arith, same, parsed)
        | inr other ↦
            add_requests-read to_path (insert requests name (make_request r.target subs)) out rs x c
              (rw (parsed, add_requests) at e) (rw other at there)
      ]
    ]

-- A configured request of a configuration that is read.
converted-Requests :
    (to_path : Text → Option GnmiPath) (r : Option RequestConfig) (out : Option SubscribeRequest)
    → out ≡ elim r [ none ↦ none | some r ↦ converted to_path r ]
    → ((c : RequestConfig) → r ≡ some c → is_some (parse_paths to_path c.paths) ≡ true)
    → Requests to_path r out
unfolding make_request
converted-Requests to_path none out e read = e
converted-Requests to_path (some r) out e read = elim (Option-cases (parse_paths to_path r.paths)) [
  | inl failed ↦ ground (arith, failed, read r refl)
  | inr (paths, parsed) ↦
      (paths, parse_paths-ArePaths to_path r.paths paths parsed, ground (arith, e, parsed))
]

abbrev pub Converts : (Text → Option GnmiPath) → TargetConfig → Configuration → Text → Type 0
Converts to_path config out x =
    (lookup out.target x
      ≡ elim (lookup config.connection x) [ none ↦ none | some c ↦ some (target_of c) ])
    × Requests to_path (lookup config.request x) (lookup out.request x)
    × IsMap out.target
    × IsMap out.request

-- The configuration that the file becomes has exactly its connections as targets and exactly its
-- requests, each under its own name and with its own content, and no name twice.
pub yaml_to_targets-lookup :
    (unmarshal : Text → Option TargetConfig) (to_path : Text → Option GnmiPath) (yaml : Text)
    (config : TargetConfig) (out : Configuration) (x : Text)
    → unmarshal yaml ≡ some config
    → IsMap config.connection
    → IsMap config.request
    → yaml_to_targets unmarshal to_path yaml ≡ some out
    → Converts to_path config out x
unfolding yaml_to_targets lookup make_target
yaml_to_targets-lookup unmarshal to_path yaml config out x read maps requests e =
    elim (Option-cases (add_requests to_path [] config.request)) [
      | inl failed ↦ ground (arith, read, failed)
      | inr (rs, built) ↦
          let made : record { request = rs; target = add_targets [] config.connection } ≡ out =
            ground (arith, read, built) in
          subst (λ o. Converts to_path config o x) made
            (
              add_targets-lookup [] config.connection x maps,
              converted-Requests to_path (lookup config.request x) (lookup rs x)
                  (add_requests-lookup to_path [] rs config.request x requests built)
                  (λ c there. add_requests-read to_path [] rs config.request x c built there),
              add_targets-IsMap [] config.connection tt,
              add_requests-IsMap to_path [] rs config.request tt built,
            )
    ]
