-- ===== src/Exporters/Kafka.antt =====
-- gateway/exporters/kafka/kafka.go: the message of `Export` and the checks of `Start`. `proto.Marshal`
-- is an argument, whose `none` is an error.
pub mod Keys
use gnmi_gateway.Prelude.{ℕ, Option, none, some, List, [], Text, length, ltb, ◌==◌, if◌then◌else◌}
use gnmi_gateway.Proto.{Notification}
use gnmi_gateway.Utils.{path_to_xpath}

-- What is handed to `WriteMessages`.
pub record Message : Type 0 where
  pub key : Text
  pub value : List ℕ

pub data Exported : Type 0 where
  written : Message → Exported
  not_marshalled panics : Exported

unfoldable pub export : (Notification → Option (List ℕ)) → Notification → Exported
export marshal n = elim (marshal n) [
  | none ↦ not_marshalled
  | some data_bytes ↦ elim (path_to_xpath n.prefix) [
    | none ↦ panics
    | some key ↦ written (record { key = key; value = data_bytes })
  ]
]

pub data StartError : Type 0 where
  no_topic no_brokers : StartError

-- The checks of `Start`, of the topic and the brokers that are configured. The second one is the
-- source's `len(brokers) < 0`.
unfoldable pub start : Text → List Text → Option StartError
start topic brokers =
    if topic == [] then some no_topic else if ltb (length brokers) 0 then some no_brokers else none
