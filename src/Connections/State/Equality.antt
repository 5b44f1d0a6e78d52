-- ===== src/Connections/State/Equality.antt =====
-- What `Equal` compares of two target configurations.
use gnmi_gateway.Prelude.{
  true, Option, none, some, List, [], ◌∷◌, Text, eq_iff, length, arith, ◌≡◌, refl, ap, ◌↔◌,
}
use gnmi_gateway.Proto.{Credentials, Target}
use gnmi_gateway.Connections.State.{equal, same_addresses, same_credentials}

same_addresses_iff :
    (xs ys : List Text) → length xs ≡ length ys → (same_addresses xs ys ≡ true) ↔ (xs ≡ ys)
unfolding same_addresses
same_addresses_iff [] [] e = (λ _. refl, λ _. refl)
same_addresses_iff [] (b ∷ bs) e = absurd (omega arith)
same_addresses_iff (a ∷ rest) [] e = absurd (omega arith)
same_addresses_iff (a ∷ rest) (b ∷ bs) e =
    ground (arith, eq_iff b a, same_addresses_iff rest bs (omega arith))

same_credentials_iff : (c d : Option Credentials) → (same_credentials c d ≡ true) ↔ (c ≡ d)
unfolding same_credentials
same_credentials_iff none none = (λ _. refl, λ _. refl)
same_credentials_iff none (some d) = (λ h. cc, λ h. cc)
same_credentials_iff (some c) none = (λ h. cc, λ h. cc)
same_credentials_iff (some c) (some d) =
    ground (arith, eq_iff c.username d.username, eq_iff c.password d.password)

-- `Equal` holds exactly if the addresses and the credentials of the two targets are the same; the
-- named request and the metadata play no part.
pub equal_iff :
    (t other : Target)
    → (equal t other ≡ true)
      ↔ ((t.addresses ≡ other.addresses) × (t.credentials ≡ other.credentials))
unfolding equal
equal_iff t other = (
  (λ h. (
    (same_addresses_iff t.addresses other.addresses (ground arith)).0 (ground arith),
    (same_credentials_iff t.credentials other.credentials).0 (ground arith),
  )),
  (λ e. ground (
    arith,
    ap length e.0,
    (same_addresses_iff t.addresses other.addresses (ap length e.0)).1 e.0,
    (same_credentials_iff t.credentials other.credentials).1 e.1,
  )),
)
