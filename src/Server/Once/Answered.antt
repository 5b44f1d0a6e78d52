-- ===== src/Server/Once/Answered.antt =====
-- What is documented of the queue, and how the sender has dealt with an entry.
use gnmi_gateway.Prelude.{
  ℕ, Bool, true, false, ◌||◌, Option, none, some, List, [], ◌∷◌, ◌++◌, any, eqb, inl, inr, ◌⊎◌, ◌≡◌,
  refl,
}
use gnmi_gateway.Server.Process.{Entry, entry, sync}
use gnmi_gateway.Server.Stream.{End, waits, ends_nil, ends_error, silent}
use gnmi_gateway.Server.Streaming.{got, closed_now, Queue}
use gnmi_gateway.Server.Once.{SenderRound, result_of}
use gnmi_gateway.Server.Once.Measure.{has_some}

abbrev pub same : Entry ℕ → Entry ℕ → Bool
same sync sync = true
same sync (entry m) = false
same (entry l) sync = false
same (entry l) (entry m) = eqb l m

-- What is documented of the queue: an open one has what is inserted, `Next` takes out the entry that it
-- returns, and it answers that the queue is closed only when nothing is left.
pub record IsKeeping {Q : Type 0} (k : Queue Q) : Type 0 where
  pub holds : Q → Entry ℕ → Bool
  pub is_open : Q → Bool
  pub insert_ok : (q : Q) (e : Entry ℕ) → (k.insert q e).1 ≡ is_open q
  pub insert_open : (q : Q) (e : Entry ℕ) → is_open (k.insert q e).0 ≡ is_open q
  pub insert_holds :
      (q : Q) (e d : Entry ℕ)
      → is_open q ≡ true
      → holds (k.insert q e).0 d ≡ (same d e || holds q d)
  pub close_holds : (q : Q) (d : Entry ℕ) → holds (k.close q) d ≡ holds q d
  pub takes_holds :
      (q r : Q) (e d : Entry ℕ) (dup : ℕ)
      → k.next q ≡ got e dup r
      → (same d e || holds r d) ≡ holds q d
  pub takes_open :
      (q r : Q) (e : Entry ℕ) (dup : ℕ) → k.next q ≡ got e dup r → is_open r ≡ is_open q
  pub closed_holds :
      (q : Q) (d : Entry ℕ) → k.next q ≡ closed_now → (holds q d ≡ false) × (is_open q ≡ false)

abbrev pub first_ok : List Bool → Bool
first_ok [] = false
first_ok (b ∷ bs) = b

pub first_ok-append : (xs ys : List Bool) → has_some xs ≡ true → first_ok (xs ++ ys) ≡ first_ok xs
first_ok-append [] ys e = cc
first_ok-append (b ∷ xs) ys e = refl

pub first_ok-false : (xs : List Bool) → first_ok (xs ++ false ∷ []) ≡ first_ok xs
first_ok-false [] = refl
first_ok-false (b ∷ xs) = refl

abbrev pub is_nil : End → Bool
is_nil ends_nil = true
is_nil ends_error = false
is_nil silent = false
is_nil waits = false

pub first_result :
    (xs : List Bool) (end : End)
    → first_ok (xs ++ result_of end) ≡ true
    → (first_ok xs ≡ true) ⊎ ((has_some xs ≡ false) × (is_nil end ≡ true))
unfolding result_of
first_result (b ∷ xs) end e = inl e
first_result [] ends_nil e = inr (refl, refl)
first_result [] ends_error e = cc
first_result [] silent e = cc
first_result [] waits e = cc

abbrev pub in_hand : Option (Entry ℕ × ℕ) → Entry ℕ → Bool
in_hand none d = false
in_hand (some (e, dup)) d = same d e

-- A round of the sender had the entry.
abbrev pub is_answered : List SenderRound → Entry ℕ → Bool
is_answered rounds d = any (λ r. same d r.item) rounds

-- A round of the sender ended the call: the only target was deleted.
abbrev pub is_deleted : List SenderRound → Bool
is_deleted rounds = any (λ r. is_nil r.end) rounds
