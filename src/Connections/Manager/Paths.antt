-- ===== src/Connections/Manager/Paths.antt =====
-- The Zookeeper path of a target's lock.
use gnmi_gateway.Prelude.{[], ◌∷◌, ◌++◌, Text, codes, is_slash, trim_right, arith, ◌≡◌, refl}
use mathlib.Core.List.{append_cancel_left}
use gnmi_gateway.Connections.Manager.{make_target_lock_path}

trim_right-slash :
    (prefix : Text) → trim_right is_slash (prefix ++ b'/' ∷ []) ≡ trim_right is_slash prefix
unfolding trim_right
trim_right-slash [] = refl
trim_right-slash (c ∷ prefix) = ground (arith, trim_right-slash prefix)

-- Under one prefix different targets have different lock paths, and a slash at the end of the prefix
-- does not change the path.
pub make_target_lock_path_lem :
    (prefix : Text)
    → ((t u : Text) → make_target_lock_path prefix t ≡ make_target_lock_path prefix u → t ≡ u)
      × ((t : Text)
          → make_target_lock_path (prefix ++ b'/' ∷ []) t ≡ make_target_lock_path prefix t)
unfolding make_target_lock_path
make_target_lock_path_lem prefix = (
  (λ t u e.
      append_cancel_left (codes "/target/") t u
        (append_cancel_left (trim_right is_slash prefix) _ _ e)),
  (λ t. rw (trim_right-slash prefix)),
)
