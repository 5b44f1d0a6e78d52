-- ===== src/Server/Once/Measure.antt =====
-- How many steps a call for ONCE has left at most, and what holds throughout.
use gnmi_gateway.Prelude.{
  ℕ, suc, ◌+◌, ◌*◌, ◌≤◌, ◌<◌, Bool, true, false, List, [], ◌∷◌, length, if◌then◌else◌, is_some, ◌≡◌,
}
use gnmi_gateway.Server.Process.{Entry}
use gnmi_gateway.Server.Stream.{End, waits, ends_nil, ends_error, silent}
use gnmi_gateway.Server.Streaming.{got, nothing_yet, Queue}
use gnmi_gateway.Server.Once.{Once}

-- What is documented of the queue: an open one takes at most one more entry; a closed one takes none and
-- stays closed; `Next` takes an entry out, and answers without one only if none is left, which depends
-- on whether the queue is closed.
pub record IsDraining {Q : Type 0} (k : Queue Q) : Type 0 where
  pub size : Q → ℕ
  pub is_open : Q → Bool
  pub insert_size : (q : Q) (e : Entry ℕ) → size (k.insert q e).0 ≤ suc (size q)
  pub insert_ok : (q : Q) (e : Entry ℕ) → (k.insert q e).1 ≡ is_open q
  pub insert_open : (q : Q) (e : Entry ℕ) → is_open (k.insert q e).0 ≡ is_open q
  pub close_size : (q : Q) → size (k.close q) ≡ size q
  pub close_open : (q : Q) → is_open (k.close q) ≡ false
  pub takes :
      (q r : Q) (e : Entry ℕ) (dup : ℕ)
      → k.next q ≡ got e dup r
      → (size r < size q) × (is_open r ≡ is_open q)
  pub waits_open : (q : Q) → k.next q ≡ nothing_yet → is_open q ≡ true

abbrev pub is_waiting : End → Bool
is_waiting waits = true
is_waiting ends_nil = false
is_waiting ends_error = false
is_waiting silent = false

abbrev pub is_silent : End → Bool
is_silent silent = true
is_silent waits = false
is_silent ends_nil = false
is_silent ends_error = false

abbrev pub has_some : {A : Type 0} → List A → Bool
has_some [] = false
has_some (_ ∷ _) = true

module _ {Q : Type 0} {k : Queue Q} (x : IsDraining k) where
  -- The steps that are left at most.
  abbrev pub left : Once Q → ℕ
  left s =
      4 * length s.todo
      + ((if s.walking then 1 else 0)
          + (2 * x.size s.queue
              + ((if is_some s.hand then 1 else 0)
                  + ((if is_waiting s.end then 1 else 0) + (if is_some s.returned then 0 else 1)))))

  -- A walk that is over has closed the queue, and a sender that has ended has put its result on `errC`.
  pub record IsSound (s : Once Q) : Type 0 where
    pub closes : s.walking ≡ false → x.is_open s.queue ≡ false
    pub answers : is_waiting s.end ≡ false → has_some s.err_c ≡ true
    pub speaks : is_silent s.end ≡ false
