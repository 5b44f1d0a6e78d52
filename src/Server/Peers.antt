-- ===== src/Server/Peers.antt =====
-- Which peers the server takes for members of the cluster.
use gnmi_gateway.Prelude.{
  lacks, split-part, Bool, true, false, not, ◌&&◌, List, [], ◌∷◌, ◌++◌, Text, ◌==◌, eq_iff, any,
  All, map, arith, ◌≡◌, refl,
}
use gnmi_gateway.Server.{first_part, member_address_in_member_list}

-- A host without a colon: a name or an IPv4 address.
abbrev pub has_no_colon : Text → Bool
has_no_colon = lacks b':'

abbrev pub host_port : Text × Text → Text
host_port (host, port) = host ++ b':' ∷ port

first_part-host :
    (host port : Text) → has_no_colon host ≡ true → first_part (host ++ b':' ∷ port) ≡ host
unfolding first_part
first_part-host host port h = rw (split-part b':' host port h, first_part) refl

any-host :
    (host : Text) (members : List (Text × Text))
    → (host == []) ≡ false
    → All (λ m. has_no_colon m.0 ≡ true) members
    → any (λ v. not (first_part v == []) && host == first_part v) (map host_port members)
      ≡ any (λ m. m.0 == host) members
unfolding any
any-host host [] n h = refl
any-host host ((h, p) ∷ members) n hs =
    ground
      (arith, first_part-host h p hs.0, any-host host members n hs.1, eq_iff h host, eq_iff host h)

-- Among peers and members with hosts that have no colon, a peer counts as a member of the cluster
-- exactly if a member has the same host, whatever the ports are.
pub member_address-host :
    (host port : Text) (members : List (Text × Text))
    → (host == []) ≡ false
    → has_no_colon host ≡ true
    → All (λ m. has_no_colon m.0 ≡ true) members
    → member_address_in_member_list (host_port (host, port)) (map host_port members)
      ≡ any (λ m. m.0 == host) members
unfolding member_address_in_member_list
member_address-host host port members n h hs =
    rw (first_part-host host port h) (rw n (any-host host members n hs))
