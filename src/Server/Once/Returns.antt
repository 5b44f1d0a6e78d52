-- ===== src/Server/Once/Returns.antt =====
-- A call for ONCE returns.
use gnmi_gateway.Prelude.{
  ℕ, ◌+◌, ◌*◌, ◌≤◌, ◌<◌, Bool, true, false, none, some, List, [], ◌∷◌, length, is_some, Bool-cases,
  inl, inr, ◌⊎◌, arith, ◌≡◌, refl, sym, ap, subst, ◌∙◌, true_not_false, Option-cases, All, Any,
  All-mono,
}
use gnmi_gateway.Proto.{Notification}
use gnmi_gateway.Server.Process.{Entry}
use gnmi_gateway.Server.Stream.{End, waits, ends_nil, ends_error, silent, Client}
use gnmi_gateway.Server.Streaming.{Queue}
use gnmi_gateway.Server.Once.{
  after_insert, add_round, Once, Step, walks, asks, returns, cancels, responds, stores, walk_next,
  send_failure, walk_on, end_sender, take_next, ask_next, respond_to, cancel, return_first,
  once_step, run_once, start_once,
}
use gnmi_gateway.Server.Once.Measure.{IsDraining, is_waiting, has_some, left, IsSound}
use gnmi_gateway.Server.Once.Shorter.{
  Change, changed, unchanged, walk_next-Shortens, take_next-Shortens, respond_to-left,
  once_step-Shortens,
}
use gnmi_gateway.Server.Once.Sound.{once_step-IsSound}

picks :
    {P R : Step → Type 0} (steps : List Step) → All P steps → Any R steps → (t : Step) × R t × P t
picks [] h a = absurd a
picks (t ∷ steps) h (inl r) = (t, r, h.0)
picks (t ∷ steps) h (inr a) = picks steps h.1 a

picked :
    (P : Step → Type 0) (steps : List Step) (t : Step) → All P steps → Any (λ u. u ≡ t) steps → P t
picked P steps t h a = let (u, e, p) = picks steps h a in subst P e p

is_waiting-waits : (e : End) → is_waiting e ≡ true → e ≡ waits
is_waiting-waits waits h = refl
is_waiting-waits ends_nil h = cc
is_waiting-waits ends_error h = cc
is_waiting-waits silent h = cc

-- Each of the three processes makes a step: the sender two of them.
abbrev pub IsFair : List Step → Type 0
IsFair steps =
    Any (λ t. t ≡ walks) steps
    × Any (λ t. t ≡ asks) steps
    × Any (λ t. (ok : Bool) × (t ≡ responds ok)) steps
    × Any (λ t. t ≡ returns) steps

module _ {Q : Type 0} {k : Queue Q} (x : IsDraining k) (client : Client) where
  walks-shorter :
      (s : Once Q) (v : Change x client s)
      → s.walking ≡ true
      → left x (once_step k client (changed x client s v) walks) < left x s
  unfolding once_step walk_on
  walks-shorter s v e =
      subst (λ b. left x (walk_on k client (changed x client s v) b) < left x s) (sym e)
        (walk_next-Shortens x client (changed x client s v) s.todo e refl)

  asks-shorter :
      (s : Once Q) (v : Change x client s)
      → s.hand ≡ none
      → s.end ≡ waits
      → x.is_open s.queue ≡ false
      → left x (once_step k client (changed x client s v) asks) < left x s
  unfolding once_step ask_next
  asks-shorter s v free on shut =
      subst (λ h. left x (ask_next k client (changed x client s v) h s.end) < left x s) (sym free)
        (subst (λ e. left x (ask_next k client (changed x client s v) none e) < left x s) (sym on)
          (elim (take_next-Shortens x client (changed x client s v) (k.next s.queue) refl free on) [
            | inl nothing ↦ absurd (true_not_false (sym (x.waits_open s.queue nothing) ∙ shut))
            | inr less ↦ less
          ]))

  responds-shorter :
      (s : Once Q) (v : Change x client s) (d : Entry ℕ × ℕ) (ok : Bool)
      → s.hand ≡ some d
      → s.end ≡ waits
      → left x (once_step k client (changed x client s v) (responds ok)) < left x s
  unfolding once_step
  responds-shorter s v (d, dup) ok held on =
      subst (λ h. left x (respond_to k client (changed x client s v) h s.end ok) < left x s)
        (sym held)
        (subst
          (λ e. left x (respond_to k client (changed x client s v) (some (d, dup)) e ok) < left x s)
          (sym on) (respond_to-left x client (changed x client s v) d dup ok held on))

  returns-shorter :
      (s : Once Q) (v : Change x client s)
      → has_some s.err_c ≡ true
      → s.returned ≡ none
      → left x (once_step k client (changed x client s v) returns) < left x s
  unfolding once_step return_first
  returns-shorter s v found none_yet = found_in v.2 refl
    where
      found_in :
          (rs : List Bool)
          → v.2 ≡ rs
          → left x (return_first k client (changed x client s v) rs s.returned) < left x s
      found_in [] e = absurd (true_not_false (sym (v.3 found) ∙ ap has_some e))
      found_in (r ∷ rs) e = ground (arith, none_yet, x.close_size s.queue)

  -- A step that leaves as many steps as before, after some change without progress.
  abbrev Stalls : Once Q → Step → Type 0
  Stalls s step =
      (v : Change x client s) × (left x s ≤ left x (once_step k client (changed x client s v) step))

  -- While `Subscribe` has not returned, one of its three processes can make a step.
  goes_on :
      (s : Once Q) (ok : Bool)
      → IsSound x s
      → s.returned ≡ none
      → Stalls s walks
      → Stalls s asks
      → Stalls s (responds ok)
      → Stalls s returns
      → ⊥
  goes_on s ok h none_yet (v1, w) (v2, a) (v3, r) (v4, c) = elim (Bool-cases s.walking) [
    | inl on ↦ absurd (omega (arith, walks-shorter s v1 on, w))
    | inr off ↦ elim (Bool-cases (is_waiting s.end)) [
      | inr over ↦ absurd (omega (arith, returns-shorter s v4 (h.answers over) none_yet, c))
      | inl on ↦
          let waits_on : s.end ≡ waits = is_waiting-waits s.end on in
          elim (Option-cases s.hand) [
            | inl free ↦ absurd (omega (arith, asks-shorter s v2 free waits_on (h.closes off), a))
            | inr (d, held) ↦ absurd (omega (arith, responds-shorter s v3 d ok held waits_on, r))
          ]
    ]
  ]

  run_once-IsSound :
      (s : Once Q) (steps : List Step)
      → client.cluster_member ≡ false
      → IsSound x s
      → IsSound x (run_once k client s steps)
  unfolding run_once
  run_once-IsSound s [] alone h = h
  run_once-IsSound s (step ∷ steps) alone h =
      run_once-IsSound (once_step k client s step) steps alone
        (once_step-IsSound x client s step alone h)

  -- A step that stalls after a change stalls before it.
  Stalls-before :
      (s : Once Q) (v : Change x client s) (t : Step) → Stalls (changed x client s v) t → Stalls s t
  Stalls-before s v t (w, stalls) = ((w.0, w.1, w.2, λ h. w.3 (v.3 h)), stalls)

  -- A run leaves fewer steps, or each of its steps stalls.
  run_once-Stalls :
      (s : Once Q) (steps : List Step)
      → ((v : Change x client s) × (run_once k client s steps ≡ changed x client s v)
          × All (Stalls s) steps)
        ⊎ (left x (run_once k client s steps) < left x s)
  unfolding run_once
  run_once-Stalls s [] = inl (unchanged x client s, refl, tt)
  run_once-Stalls s (step ∷ steps) = elim (once_step-Shortens x client s step) [
    | inr less ↦ elim (run_once-Stalls (once_step k client s step) steps) [
      | inl (v, same, _) ↦ inr (omega (arith, less, ap (left x) same))
      | inr later ↦ inr (omega (arith, less, later))
    ]
    | inl (v, same) ↦
        let stalls : Stalls s step = (unchanged x client s, omega (arith, ap (left x) same)) in
        elim (run_once-Stalls (changed x client s v) steps) [
          | inl (w, e, rest) ↦ inl (
            (w.0, w.1, w.2, λ h. w.3 (v.3 h)),
            ap (λ u. run_once k client u steps) same ∙ e,
            (
              stalls,
              All-mono (Stalls (changed x client s v)) (Stalls s) steps (λ t. Stalls-before s v t)
                  rest,
            ),
          )
          | inr less ↦ inr (omega (arith, less, ap (λ u. left x (run_once k client u steps)) same))
        ]
  ]

  once_step-returned :
      (s : Once Q) (step : Step)
      → is_some s.returned ≡ true
      → is_some (once_step k client s step).returned ≡ true
  unfolding once_step walk_on send_failure walk_next after_insert ask_next take_next respond_to
      add_round end_sender cancel return_first
  once_step-returned s walks h = ground (arith, h)
  once_step-returned s asks h = ground (arith, h)
  once_step-returned s (responds ok) h = ground (arith, h)
  once_step-returned s cancels h = ground (arith, h)
  once_step-returned s returns h = ground (arith, h)
  once_step-returned s (stores v) h = h

  -- A value that `Subscribe` returned stays.
  run_once-returned :
      (s : Once Q) (steps : List Step)
      → is_some s.returned ≡ true
      → is_some (run_once k client s steps).returned ≡ true
  unfolding run_once
  run_once-returned s [] h = h
  run_once-returned s (step ∷ steps) h =
      run_once-returned (once_step k client s step) steps (once_step-returned s step h)

  -- A round in which `Subscribe` does not return leaves fewer steps.
  round-shorter :
      (s : Once Q) (steps : List Step)
      → IsSound x s
      → s.returned ≡ none
      → IsFair steps
      → left x (run_once k client s steps) < left x s
  round-shorter s steps h none_yet (w, a, r, c) = elim (run_once-Stalls s steps) [
    | inr less ↦ less
    | inl (v, same, stalls) ↦
        let (t, (ok, e), stalled) = picks steps stalls r in
        absurd (
          goes_on s ok h none_yet (picked (Stalls s) steps walks stalls w)
            (picked (Stalls s) steps asks stalls a) (subst (λ u. Stalls s u) e stalled)
            (picked (Stalls s) steps returns stalls c))
  ]

  abbrev pub run_rounds : Once Q → List (List Step) → Once Q
  run_rounds s [] = s
  run_rounds s (steps ∷ rounds) = run_rounds (run_once k client s steps) rounds

  rounds-returned :
      (s : Once Q) (rounds : List (List Step))
      → is_some s.returned ≡ true
      → is_some (run_rounds s rounds).returned ≡ true
  rounds-returned s [] h = h
  rounds-returned s (steps ∷ rounds) h =
      rounds-returned (run_once k client s steps) rounds (run_once-returned s steps h)

  rounds-return :
      (s : Once Q) (rounds : List (List Step))
      → client.cluster_member ≡ false
      → IsSound x s
      → All IsFair rounds
      → left x s ≤ length rounds
      → is_some (run_rounds s rounds).returned ≡ true
  rounds-return s [] alone h fair few = elim (Option-cases s.returned) [
    | inl none_yet ↦ absurd (ground (arith, few, none_yet))
    | inr (r, e) ↦ ap is_some e
  ]
  rounds-return s (steps ∷ rounds) alone h fair few = elim (Option-cases s.returned) [
    | inr (r, e) ↦
        rounds-returned (run_once k client s steps) rounds
          (run_once-returned s steps (ap is_some e))
    | inl none_yet ↦
        rounds-return (run_once k client s steps) rounds alone (run_once-IsSound s steps alone h)
          fair.1 (omega (arith, few, round-shorter s steps h none_yet fair.0))
  ]

  -- A call for ONCE of a client that is no member of the cluster returns, whether the cache and the client
  -- answer with errors or not, and however its three goroutines and the values that are stored meanwhile
  -- interleave: after at most three rounds, four more for every entry and two for what the queue holds
  -- before, if every goroutine makes a step in each round, and the sender two.
  pub once-returns :
      (entries : List (Entry ℕ) × Bool) (value : ℕ → Notification) (queue : Q)
      (rounds : List (List Step))
      → client.cluster_member ≡ false
      → All IsFair rounds
      → 4 * length entries.0 + (2 * x.size queue + 3) ≤ length rounds
      → is_some (run_rounds (start_once k client entries value queue) rounds).returned ≡ true
  unfolding start_once
  once-returns entries value queue rounds alone fair enough =
      rounds-return (start_once k client entries value queue) rounds alone
        (record { closes = λ off. cc; answers = λ over. cc; speaks = refl }) fair
        (omega (arith, enough))
