-- ===== src/Server/Streaming/Updates.antt =====
-- The cache and the way of a leaf into the queue keep every leaf fresh.
use gnmi_gateway.Prelude.{
  ℕ, Bool, true, false, not, ◌&&◌, ◌||◌, Option, List, [], ◌∷◌, ◌++◌, any, keep, eqb, eqb_iff, ltb,
  length, Bool-cases, inl, inr, arith, ◌≡◌, ap, subst,
}
use gnmi_gateway.Proto.{Notification}
use gnmi_gateway.Server.Process.{Entry, entry, sync}
use gnmi_gateway.Server.Stream.{Client}
use gnmi_gateway.Server.Streaming.{
  Queue, Walk, not_begun, finished, visiting, Streaming, stores, deletes, sends_on, remove_one,
  set_value, server_update, run_buffer, visit_leaf, end_walk, begin_walk, stream_step,
}
use gnmi_gateway.Server.Streaming.Pending.{
  IsQueue, to_visit, in_hand, not_begun-to_visit, any-remove_one, any-last, any-keep, on_its_way,
  IsSound, IsFresh,
}

module _ {Q : Type 0} {k : Queue Q} (x : IsQueue k) (client : Client) (covers : ℕ → Bool)
    (size : ℕ) where
  pub stores-IsFresh :
      (s : Streaming Q) (l : ℕ) (n : Notification) (d : ℕ)
      → IsFresh x client s d
      → IsFresh x client (stream_step k client covers size s (stores l n)) d
  unfolding stream_step any set_value
  stores-IsFresh s l n d h going here = elim (Bool-cases (eqb d l)) [
    | inl same ↦ inl (ground (arith, same))
    | inr apart ↦
        let apart' : eqb l d ≡ false = ground (arith, apart) in
        elim (h going (ground (arith, apart, here))) [
          | inl way ↦ inl (ground (arith, apart, way))
          | inr up ↦ inr (rw apart' up)
        ]
  ]

  pub deletes-IsFresh :
      (s : Streaming Q) (l e : ℕ) (n : Notification) (d : ℕ)
      → IsFresh x client s d
      → IsFresh x client (stream_step k client covers size s (deletes l e n)) d
  unfolding stream_step any set_value
  deletes-IsFresh s l e n d h going here = elim (Bool-cases (eqb d e)) [
    | inl same ↦ inl (ground (arith, same))
    | inr apart ↦
        let apart' : eqb e d ≡ false = ground (arith, apart) in
        elim (h going (ground (arith, here, any-keep (λ t. not (eqb l t)) d s.tree))) [
          | inl way ↦ inl (ground (arith, apart, way))
          | inr up ↦ inr (rw apart' up)
        ]
  ]

  -- A state with the same cache and the same responses stays fresh if what was on its way still is.
  pub keeps-IsFresh :
      (s : Streaming Q) (stored buffer : List ℕ) (registered : Bool) (walk : Walk) (queue : Q)
      (hand : Option (Entry ℕ × ℕ)) (d : ℕ)
      → let s' = record s {
        stored = stored;
        buffer = buffer;
        registered = registered;
        walk = walk;
        queue = queue;
        hand = hand;
      } in
        IsFresh x client s d
        → (any (eqb d) s.tree ≡ true → on_its_way x s d ≡ true → on_its_way x s' d ≡ true)
        → IsFresh x client s' d
  keeps-IsFresh s stored buffer registered walk queue hand d h kept going here =
      elim (h going here) [ inl way ↦ inl (kept here way) | inr up ↦ inr up ]

  pub sends_on-IsFresh :
      (s : Streaming Q) (l d : ℕ)
      → IsFresh x client s d
      → IsFresh x client (stream_step k client covers size s (sends_on l)) d
  unfolding stream_step
  sends_on-IsFresh s l d h =
      elim (Bool-cases (any (eqb l) s.stored && ltb (length s.buffer) size)) [
        | inr waits_on ↦ rw waits_on h
        | inl sent_on ↦ rw sent_on (
            keeps-IsFresh s (remove_one l s.stored) (s.buffer ++ l ∷ []) s.registered s.walk s.queue
              s.hand d h
              (λ here way. elim (Bool-cases (eqb l d)) [
                | inl same ↦ ground (arith, same, way, any-last d l s.buffer)
                | inr apart ↦
                    ground (arith, way, any-last d l s.buffer, any-remove_one l d s.stored apart)
              ]))
      ]

  pub run_buffer-IsFresh :
      (s : Streaming Q) (d : ℕ) (buffer : List ℕ)
      → s.buffer ≡ buffer
      → covers d ≡ true
      → IsSound x s
      → IsFresh x client s d
      → IsFresh x client (run_buffer k client covers size s buffer) d
  unfolding run_buffer server_update any
  run_buffer-IsFresh s d [] e covered sound h = h
  run_buffer-IsFresh s d (l ∷ rest) e covered sound h =
      keeps-IsFresh s s.stored rest s.registered s.walk (server_update k client covers size s l)
        s.hand d h
        (λ here way. elim (Bool-cases s.registered) [
          | inr unknown_yet ↦
              ground (arith, not_begun-to_visit s.walk d (ground (arith, sound.in_order)))
          | inl known ↦
              let before : (any (eqb d) s.stored
                    || (any (eqb d) (l ∷ rest)
                        || (to_visit s.walk d || (x.holds s.queue d || in_hand s.hand d))))
                  ≡ true =
                subst
                  (λ b.
                    (any (eqb d) s.stored
                      || (any (eqb d) b
                          || (to_visit s.walk d || (x.holds s.queue d || in_hand s.hand d))))
                    ≡ true)
                  e way in
              elim (Bool-cases (eqb l d)) [
                | inl same ↦
                    let e' : l ≡ d = (eqb_iff l d).0 same in
                    ground (
                      arith,
                      known,
                      covered,
                      ap covers e',
                      same,
                      x.inserts s.queue l d sound.open_queue,
                    )
                | inr apart ↦
                    ground (arith, known, before, apart, x.inserts s.queue l d sound.open_queue)
              ]
        ])

  pub visit_leaf-IsFresh :
      (s : Streaming Q) (l d : ℕ) (walk : Walk)
      → s.walk ≡ walk
      → IsSound x s
      → IsFresh x client s d
      → IsFresh x client (visit_leaf k client covers size s walk l) d
  unfolding visit_leaf
  visit_leaf-IsFresh s l d not_begun e sound h = h
  visit_leaf-IsFresh s l d finished e sound h = h
  visit_leaf-IsFresh s l d (visiting todo) e sound h = elim (Bool-cases (any (eqb l) todo)) [
    | inr visited ↦ rw visited h
    | inl found ↦ rw found (
        keeps-IsFresh s s.stored s.buffer s.registered (visiting (remove_one l todo))
          (k.insert s.queue (entry l)).0 s.hand d h
          (λ here way.
            let before : (any (eqb d) s.stored
                  || (any (eqb d) s.buffer
                      || (any (eqb d) todo || (x.holds s.queue d || in_hand s.hand d))))
                ≡ true =
              subst
                (λ w.
                  (any (eqb d) s.stored
                    || (any (eqb d) s.buffer
                        || (to_visit w d || (x.holds s.queue d || in_hand s.hand d))))
                  ≡ true)
                e way in
            elim (Bool-cases (eqb l d)) [
              | inl same ↦ ground (arith, same, x.inserts s.queue l d sound.open_queue)
              | inr apart ↦ ground (
                arith,
                before,
                apart,
                any-remove_one l d todo apart,
                x.inserts s.queue l d sound.open_queue,
              )
            ]))
  ]

  pub end_walk-IsFresh :
      (s : Streaming Q) (d : ℕ) (walk : Walk)
      → s.walk ≡ walk
      → IsFresh x client s d
      → IsFresh x client (end_walk k client covers size s walk) d
  unfolding end_walk any
  end_walk-IsFresh s d not_begun e h = h
  end_walk-IsFresh s d finished e h = h
  end_walk-IsFresh s d (visiting (l ∷ todo)) e h = h
  end_walk-IsFresh s d (visiting []) e h =
      keeps-IsFresh s s.stored s.buffer s.registered finished (k.insert s.queue sync).0 s.hand d h
        (λ here way. ground (arith, way, ap (λ w. to_visit w d) e, x.inserts_sync s.queue d))

  pub begin_walk-IsFresh :
      (s : Streaming Q) (d : ℕ) (walk : Walk)
      → s.walk ≡ walk
      → covers d ≡ true
      → IsFresh x client s d
      → IsFresh x client (begin_walk k client covers size s walk) d
  unfolding begin_walk
  begin_walk-IsFresh s d finished e covered h = h
  begin_walk-IsFresh s d (visiting todo) e covered h = h
  begin_walk-IsFresh s d not_begun e covered h = elim (Bool-cases s.registered) [
    | inr unknown_yet ↦ rw unknown_yet h
    | inl known ↦ rw known (
        keeps-IsFresh s s.stored s.buffer s.registered (visiting (keep covers s.tree)) s.queue
          s.hand d h (λ here way. ground (arith, here, covered, any-keep covers d s.tree)))
  ]
