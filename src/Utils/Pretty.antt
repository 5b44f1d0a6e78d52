-- ===== src/Utils/Pretty.antt =====
-- When a notification has a text.
use gnmi_gateway.Prelude.{
  true, ◌&&◌, Option, none, some, List, [], ◌∷◌, Text, map, all, is_some, arith, ◌≡◌, refl, codes,
}
use gnmi_gateway.Proto.{GnmiPath, TypedValue, Update, Notification}
use gnmi_gateway.Utils.{
  path_to_xpath, update_pretty_string, spaced, listed, notification_pretty_string,
}

module _ (value_text : Option TypedValue → Text) where
  spaced-is_some : (texts : List (Option Text)) → is_some (spaced texts) ≡ all is_some texts
  unfolding spaced all
  spaced-is_some [] = refl
  spaced-is_some (none ∷ texts) = refl
  spaced-is_some (some t ∷ texts) = ground (arith, spaced-is_some texts)

  listed-is_some :
      (name : Text) (texts : List (Option Text)) → is_some (listed name texts) ≡ all is_some texts
  unfolding listed all
  listed-is_some name [] = refl
  listed-is_some name (t ∷ texts) = ground (arith, spaced-is_some (t ∷ texts))

  updates-is_some :
      (us : List Update)
      → all is_some (map (update_pretty_string value_text) us) ≡ all (λ u. is_some u.path) us
  unfolding update_pretty_string path_to_xpath all
  updates-is_some [] = refl
  updates-is_some (u ∷ us) = ground (arith, updates-is_some us)

  deletes-is_some : (ds : List GnmiPath) → all is_some (map (λ d. path_to_xpath (some d)) ds) ≡ true
  unfolding path_to_xpath all
  deletes-is_some [] = refl
  deletes-is_some (d ∷ ds) = deletes-is_some ds

  -- A notification has a text, and does not make the printer panic, exactly if its prefix and the paths
  -- of all its updates are there.
  pub notification_pretty_string-is_some :
      (n : Notification)
      → is_some (notification_pretty_string value_text (some n))
        ≡ (is_some n.prefix && all (λ u. is_some u.path) n.update)
  unfolding notification_pretty_string path_to_xpath
  notification_pretty_string-is_some n = ground (
    arith,
    listed-is_some (codes "update") (map (update_pretty_string value_text) n.update),
    updates-is_some n.update,
    listed-is_some (codes "delete") (map (λ d. path_to_xpath (some d)) n.delete),
    deletes-is_some n.delete,
  )
