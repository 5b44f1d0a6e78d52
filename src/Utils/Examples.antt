-- ===== src/Utils/Examples.antt =====
-- The theorems about texts at concrete inputs.
use gnmi_gateway.Prelude.{false, some, none, [], ◌∷◌, pos, all, is_some, codes, ◌≡◌}
use gnmi_gateway.Proto.{Notification, empty_path}
use gnmi_gateway.Utils.{notification_pretty_string}
use gnmi_gateway.Utils.Pretty.{notification_pretty_string-is_some}

-- An update without a path.
abbrev lost : Notification
lost = record {
  timestamp = pos 1;
  prefix = some empty_path;
  alias = [];
  update = record { path = none; val = none; duplicates = 0 } ∷ [];
  delete = [];
  atomic = false;
}

notification_pretty_string-is_some_example :
    is_some (notification_pretty_string (λ _. codes "1") (some lost)) ≡ false
unfolding all
notification_pretty_string-is_some_example =
    notification_pretty_string-is_some (λ _. codes "1") lost
