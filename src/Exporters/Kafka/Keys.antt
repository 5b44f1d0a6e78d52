-- ===== src/Exporters/Kafka/Keys.antt =====
-- The keys by which Kafka partitions the messages.
use gnmi_gateway.Prelude.{ℕ, Option, some, List, Text, ◌≡◌, refl, sym, ◌∙◌}
use gnmi_gateway.Proto.{GnmiPath, Notification}
use gnmi_gateway.Utils.{path_to_xpath}
use gnmi_gateway.Utils.Order.{SamePath, path_to_xpath-same}
use gnmi_gateway.Exporters.Kafka.{written, export}

some_text : (p : GnmiPath) → (t : Text) × (path_to_xpath (some p) ≡ some t)
unfolding path_to_xpath
some_text p = (_, refl)

-- Two notifications that are marshalled and whose prefixes differ at most in the order of the keys of
-- their elements are both written, each with its own bytes, and under one key.
pub export-keys :
    (marshal : Notification → Option (List ℕ)) (n m : Notification) (p q : GnmiPath) (a b : List ℕ)
    → n.prefix ≡ some p
    → m.prefix ≡ some q
    → SamePath p q
    → marshal n ≡ some a
    → marshal m ≡ some b
    → (key : Text) × (export marshal n ≡ written (record { key = key; value = a }))
      × (export marshal m ≡ written (record { key = key; value = b }))
unfolding export
export-keys marshal n m p q a b at_n at_m same of_n of_m =
    let (key, e) = some_text p in
    (
      key,
      rw (export, of_n, at_n, e) refl,
      rw (export, of_m, at_m, sym (path_to_xpath-same p q same) ∙ e) refl,
    )
