-- ===== src/Server/Streaming/Pending.antt =====
-- What is documented of the queue, and where a leaf of the cache stands on its way to the client.
use gnmi_gateway.Prelude.{
  ℕ, Bool, true, false, ◌&&◌, ◌||◌, Option, none, some, List, [], ◌∷◌, ◌++◌, any, keep, eqb,
  eqb_iff, Bool-cases, inl, inr, ◌⊎◌, if◌then◌else◌, arith, ◌≡◌, refl, ap,
}
use gnmi_gateway.Proto.{Notification}
use gnmi_gateway.Server.Process.{Entry, entry, sync}
use gnmi_gateway.Server.Stream.{
  next, leaf, Sent, update_sent, waits, Client, is_allowed, make_subscribe_response, send_round,
}
use gnmi_gateway.Server.Streaming.{
  got, Queue, Walk, not_begun, finished, visiting, Streaming, remove_one,
}

-- What is documented of the queue: while it is open it takes what is inserted and stays open, an entry
-- that it has may be counted up, and `Next` takes one entry out.
pub record IsQueue {Q : Type 0} (k : Queue Q) : Type 0 where
  pub holds : Q → ℕ → Bool
  pub is_open : Q → Bool
  pub inserts :
      (q : Q) (l d : ℕ)
      → is_open q ≡ true
      → holds (k.insert q (entry l)).0 d ≡ (eqb l d || holds q d)
  pub inserts_sync : (q : Q) (d : ℕ) → holds (k.insert q sync).0 d ≡ holds q d
  pub stays_open : (q : Q) (e : Entry ℕ) → is_open q ≡ true → is_open (k.insert q e).0 ≡ true
  pub takes :
      (q r : Q) (l dup d : ℕ) → k.next q ≡ got (entry l) dup r → (eqb l d || holds r d) ≡ holds q d
  pub takes_sync : (q r : Q) (dup d : ℕ) → k.next q ≡ got sync dup r → holds r d ≡ holds q d
  pub takes_open :
      (q r : Q) (e : Entry ℕ) (dup : ℕ) → k.next q ≡ got e dup r → is_open r ≡ is_open q

-- The response for a leaf that was sent last.
abbrev pub latest : ℕ → List (ℕ × Sent) → Option Sent
latest d [] = none
latest d ((l, r) ∷ log) = let older = latest d log in if eqb l d then some r else older

abbrev pub to_visit : Walk → ℕ → Bool
to_visit not_begun d = true
to_visit (visiting todo) d = any (eqb d) todo
to_visit finished d = false

abbrev pub in_hand : Option (Entry ℕ × ℕ) → ℕ → Bool
in_hand none d = false
in_hand (some (sync, dup)) d = false
in_hand (some (entry l, dup)) d = eqb l d

abbrev pub is_begun : Walk → Bool
is_begun not_begun = false
is_begun (visiting _) = true
is_begun finished = true

pub not_begun-to_visit : (walk : Walk) (d : ℕ) → is_begun walk ≡ false → to_visit walk d ≡ true
not_begun-to_visit not_begun d e = refl
not_begun-to_visit (visiting todo) d e = cc
not_begun-to_visit finished d e = cc

-- A round that goes on sends the response for the notification, unless the ACL denies it.
pub responded :
    (c : Client) (n : Notification) (dup : ℕ) (ok : Bool)
    → (send_round c (next (leaf (some n)) dup) ok).1 ≡ waits
    → ((is_allowed c n ≡ false) × ((send_round c (next (leaf (some n)) dup) ok).0 ≡ []))
      ⊎ ((send_round c (next (leaf (some n)) dup) ok).0
          ≡ update_sent (make_subscribe_response n dup) ∷ [])
unfolding send_round
responded c n dup ok again = elim (Bool-cases (is_allowed c n)) [
  | inr denied ↦ inl (denied, ground (arith, denied))
  | inl allowed ↦ inr (ground (arith, allowed))
]

pub any-remove_one :
    (l d : ℕ) (ds : List ℕ) → eqb l d ≡ false → any (eqb d) (remove_one l ds) ≡ any (eqb d) ds
unfolding any remove_one
any-remove_one l d [] apart = refl
any-remove_one l d (e ∷ ds) apart = ground (arith, any-remove_one l d ds apart)

pub any-last : (d l : ℕ) (ds : List ℕ) → any (eqb d) (ds ++ l ∷ []) ≡ (eqb d l || any (eqb d) ds)
unfolding any
any-last d l [] = ground arith
any-last d l (e ∷ ds) = ground (arith, any-last d l ds)

pub any-keep :
    (p : ℕ → Bool) (d : ℕ) (ds : List ℕ) → any (eqb d) (keep p ds) ≡ (p d && any (eqb d) ds)
unfolding any keep
any-keep p d [] = ground arith
any-keep p d (e ∷ ds) = elim (Bool-cases (eqb d e)) [
  | inl same ↦ let e' : d ≡ e = (eqb_iff d e).0 same in ground (arith, ap p e', any-keep p d ds)
  | inr apart ↦ ground (arith, apart, any-keep p d ds)
]

module _ {Q : Type 0} {k : Queue Q} (x : IsQueue k) where
  -- The leaf is stored but not told of, in the buffer, still to be visited, in the queue, or about to be
  -- sent.
  abbrev pub on_its_way : Streaming Q → ℕ → Bool
  on_its_way s d =
      any (eqb d) s.stored
      || (any (eqb d) s.buffer || (to_visit s.walk d || (x.holds s.queue d || in_hand s.hand d)))

  -- The queue is open, and the walk begins after the registration.
  pub record IsSound (s : Streaming Q) : Type 0 where
    pub open_queue : x.is_open s.queue ≡ true
    pub in_order : is_begun s.walk ≡ true → s.registered ≡ true

-- The client was last sent the response for what the leaf holds, unless its ACL denies that.
abbrev pub IsUpToDate : {Q : Type 0} → Client → Streaming Q → ℕ → Type 0
IsUpToDate client s d =
    (is_allowed client (s.value d) ≡ false)
    ⊎ ((dup : ℕ) × (latest d s.sent ≡ some (update_sent (make_subscribe_response (s.value d) dup))))

abbrev pub IsFresh : {Q : Type 0} {k : Queue Q} → IsQueue k → Client → Streaming Q → ℕ → Type 0
IsFresh x client s d =
    s.end ≡ waits → any (eqb d) s.tree ≡ true → (on_its_way x s d ≡ true) ⊎ IsUpToDate client s d
