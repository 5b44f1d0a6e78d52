-- ===== src/Configuration.antt =====
-- gateway/configuration/config.go: `PopulateGatewayConfigFromFile`. The file system and the JSON decoder
-- are arguments. A duration is an int64 of nanoseconds, whose product wraps around.
pub mod Durations
mod Examples
use gnmi_gateway.Prelude.{
  ℕ, suc, ◌+◌, ◌-◌, ◌*◌, ◌%◌, ◌^◌, ℤ, pos, negsuc, Bool, true, false, Option, none, some, Text, ltb,
  if◌then◌else◌,
}

-- The durations of the loaders.
pub record LoaderDurations : Type 0 where
  pub json_file_reload_interval : ℤ
  pub netbox_reload_interval : ℤ
  pub simple_file_reload_interval : ℤ

-- The durations of the configuration. The configurations of the exporters and of the loaders are pointers,
-- which may be nil; of the exporters there is `KafkaBatchTimeout`.
pub record GatewayConfig : Type 0 where
  pub target_dial_timeout : ℤ
  pub zookeeper_timeout : ℤ
  pub kafka_batch_timeout : Option ℤ
  pub target_loaders : Option LoaderDurations

-- `time.Second`
abbrev pub second : ℕ
second = 1000000000

-- The int64 with the bits of a word.
unfoldable pub to_int64 : ℕ → ℤ
to_int64 w =
    let bits = w % 2 ^ 64 in if ltb bits (2 ^ 63) then pos bits else negsuc (2 ^ 64 - (bits + 1))

-- `d *= time.Second`
unfoldable pub times_second : ℤ → ℤ
times_second (pos n) = to_int64 (n * second)
times_second (negsuc n) = to_int64 (2 ^ 64 - (suc n * second) % 2 ^ 64)

-- `if d < time.Second { d *= time.Second }`
unfoldable pub rescale : ℤ → ℤ
rescale (pos n) = if ltb n second then times_second (pos n) else pos n
rescale (negsuc n) = times_second (negsuc n)

pub data Populated : Type 0 where
  unreadable unparsable panics : Populated
  populated : GatewayConfig → Populated

-- `PopulateGatewayConfigFromFile`, given the contents of the file, if it is read, and the decoder,
-- which keeps what the file does not mention.
unfoldable pub populate :
    (GatewayConfig → Text → Option GatewayConfig) → GatewayConfig → Option Text → Populated
populate decode config none = unreadable
populate decode config (some text) = elim (decode config text) [
  | none ↦ unparsable
  | some c ↦ elim c.target_loaders [
    | none ↦ panics
    | some l ↦ populated (record c {
      target_dial_timeout = rescale c.target_dial_timeout;
      zookeeper_timeout = rescale c.zookeeper_timeout;
      target_loaders =
          some (record l { json_file_reload_interval = rescale l.json_file_reload_interval });
    })
  ]
]
