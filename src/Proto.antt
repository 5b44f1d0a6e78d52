-- ===== src/Proto.antt =====
-- The messages of the gNMI and target protocols, with the fields that the gateway reads. Their Go
-- code is generated from openconfig/gnmi and is not part of the repository. A pointer that may be
-- nil is an `Option`, a `oneof` a data type. `float_val` keeps the bits of the number.
use gnmi_gateway.Prelude.{ℕ, ℤ, Bool, Option, none, some, List, [], Text, Map}

pub record PathElem : Type 0 where
  pub name : Text
  pub key : Option (Map Text)

pub record GnmiPath : Type 0 where
  pub origin : Text
  pub target : Text
  pub elem : List PathElem

pub data TypedValue : Type 0 where
  string_val bytes_val : Text → TypedValue
  int_val : ℤ → TypedValue
  uint_val float_val : ℕ → TypedValue
  bool_val : Bool → TypedValue
  leaflist_val other_val : TypedValue

pub record Update : Type 0 where
  pub path : Option GnmiPath
  pub val : Option TypedValue
  pub duplicates : ℕ

pub record Notification : Type 0 where
  pub timestamp : ℤ
  pub prefix : Option GnmiPath
  pub alias : Text
  pub update : List Update
  pub delete : List GnmiPath
  pub atomic : Bool

pub data Response : Type 0 where
  update : Notification → Response
  sync_response error unset : Response

pub data Mode : Type 0 where
  once poll stream unknown : Mode

pub record SubscriptionList : Type 0 where
  pub prefix : Option GnmiPath
  pub subscription : List (Option GnmiPath)
  pub mode : Mode
  pub updates_only : Bool

-- A request holds a subscription or something else.
pub record SubscribeRequest : Type 0 where
  pub subscribe : Option SubscriptionList

pub record Credentials : Type 0 where
  pub username : Text
  pub password : Text

pub record Target : Type 0 where
  pub addresses : List Text
  pub credentials : Option Credentials
  pub request : Text
  pub meta : Map Text

pub record Configuration : Type 0 where
  pub request : Map SubscribeRequest
  pub target : Map Target

abbrev pub empty_path : GnmiPath
empty_path = record { origin = []; target = []; elem = [] }

-- Getters, which read a nil message as the empty one.
abbrev pub get_elem : Option GnmiPath → List PathElem
get_elem none = []
get_elem (some p) = p.elem

abbrev pub get_target : Option GnmiPath → Text
get_target none = []
get_target (some p) = p.target

abbrev pub get_origin : Option GnmiPath → Text
get_origin none = []
get_origin (some p) = p.origin
