-- ===== src/Server/Streaming/Freshness.antt =====
-- No update is missed between the walk of the cache and the updates that come meanwhile.
use gnmi_gateway.Prelude.{ℕ, Bool, true, List, [], ◌∷◌, any, eqb, inl, ◌⊎◌, arith, ◌≡◌, refl, ap}
use gnmi_gateway.Server.Stream.{waits, Client}
use gnmi_gateway.Server.Streaming.{
  Queue, not_begun, Streaming, Step, stores, deletes, sends_on, runs, registers, begins, ends_walk,
  visits, asks, responds, stream_step, run_stream,
}
use gnmi_gateway.Server.Streaming.Pending.{
  IsQueue, is_begun, not_begun-to_visit, on_its_way, IsSound, IsUpToDate, IsFresh,
}
use gnmi_gateway.Server.Streaming.Updates.{
  stores-IsFresh, deletes-IsFresh, sends_on-IsFresh, run_buffer-IsFresh, visit_leaf-IsFresh,
  end_walk-IsFresh, begin_walk-IsFresh,
}
use gnmi_gateway.Server.Streaming.Sending.{ask-IsFresh, respond-IsFresh}
use gnmi_gateway.Server.Streaming.Order.{stream_step-IsSound}

module _ {Q : Type 0} {k : Queue Q} (x : IsQueue k) (client : Client) (covers : ℕ → Bool)
    (size : ℕ) where
  stream_step-IsFresh :
      (s : Streaming Q) (step : Step) (d : ℕ)
      → covers d ≡ true
      → IsSound x s
      → IsFresh x client s d
      → IsFresh x client (stream_step k client covers size s step) d
  unfolding stream_step
  stream_step-IsFresh s (stores l n) d covered sound h =
      stores-IsFresh x client covers size s l n d h
  stream_step-IsFresh s (deletes l e n) d covered sound h =
      deletes-IsFresh x client covers size s l e n d h
  stream_step-IsFresh s (sends_on l) d covered sound h =
      sends_on-IsFresh x client covers size s l d h
  stream_step-IsFresh s runs d covered sound h =
      run_buffer-IsFresh x client covers size s d s.buffer refl covered sound h
  stream_step-IsFresh s registers d covered sound h = h
  stream_step-IsFresh s begins d covered sound h =
      begin_walk-IsFresh x client covers size s d s.walk refl covered h
  stream_step-IsFresh s ends_walk d covered sound h =
      end_walk-IsFresh x client covers size s d s.walk refl h
  stream_step-IsFresh s (visits l) d covered sound h =
      visit_leaf-IsFresh x client covers size s l d s.walk refl sound h
  stream_step-IsFresh s asks d covered sound h =
      ask-IsFresh x client covers size s d s.hand s.end refl h
  stream_step-IsFresh s (responds ok) d covered sound h =
      respond-IsFresh x client covers size s d s.hand s.end ok refl refl h

  -- From before a subscription walks the cache, with any values stored and any leaves under way: at any
  -- time while the stream goes on, and however the steps interleave, every leaf of the cache that the
  -- subscription covers is on its way to the client, or the client was last sent the response for what
  -- the leaf holds now, unless its ACL denies that.
  pub run_stream-IsFresh :
      (s : Streaming Q) (steps : List Step) (d : ℕ)
      → s.walk ≡ not_begun
      → x.is_open s.queue ≡ true
      → covers d ≡ true
      → let s' = run_stream k client covers size s steps in
        s'.end ≡ waits
        → any (eqb d) s'.tree ≡ true
        → (on_its_way x s' d ≡ true) ⊎ IsUpToDate client s' d
  unfolding run_stream
  run_stream-IsFresh s steps d unbegun opened covered =
      runs_on s steps
        (record { open_queue = opened; in_order = λ b. ground (arith, ap is_begun unbegun) })
        (λ going here. inl (ground (arith, not_begun-to_visit s.walk d (ap is_begun unbegun))))
    where
      runs_on :
          (s : Streaming Q) (steps : List Step)
          → IsSound x s
          → IsFresh x client s d
          → IsFresh x client (run_stream k client covers size s steps) d
      runs_on s [] sound h = h
      runs_on s (step ∷ steps) sound h =
          runs_on (stream_step k client covers size s step) steps
            (stream_step-IsSound x client covers size s step sound)
            (stream_step-IsFresh s step d covered sound h)
