-- ===== src/Server/Once/Complete.antt =====
-- A call for ONCE that returns nil has answered everything that was read.
use gnmi_gateway.Prelude.{
  ℕ, Bool, true, ◌||◌, some, List, any, arith, ◌≡◌, sym, true_not_false, none_not_some,
}
use gnmi_gateway.Proto.{Notification}
use gnmi_gateway.Server.Process.{Entry}
use gnmi_gateway.Server.Stream.{Client}
use gnmi_gateway.Server.Streaming.{Queue}
use gnmi_gateway.Server.Once.{Step, run_once, start_once}
use gnmi_gateway.Server.Once.Answered.{same, IsKeeping, is_answered, is_deleted}
use gnmi_gateway.Server.Once.Kept.{run_once-IsKept}

-- If a call for ONCE returns nil, however its goroutines interleave, then the sender had in its hand every
-- entry that `processSubscription` inserts, the sync marker included if it comes to that; or the only target
-- of the call was deleted.
pub once_complete :
    {Q : Type 0} {k : Queue Q} (x : IsKeeping k) (client : Client) (entries : List (Entry ℕ))
    (complete : Bool) (value : ℕ → Notification) (queue : Q) (steps : List Step) (d : Entry ℕ)
    → x.is_open queue ≡ true
    → any (same d) entries ≡ true
    → let s = run_once k client (start_once k client (entries, complete) value queue) steps in
      s.returned ≡ some true → (is_deleted s.rounds || is_answered s.rounds d) ≡ true
unfolding start_once
once_complete {k = k} x client entries complete value queue steps d opened wanted returned =
    (run_once-IsKept x client d (start_once k client (entries, complete) value queue) steps
        (record {
          open_walk = λ r w. opened;
          tracks = λ r. ground (arith, wanted);
          over = λ w. absurd (true_not_false w);
          first = λ r f. absurd (true_not_false (sym f));
          after = λ r. absurd (none_not_some r);
        })).after
      returned
