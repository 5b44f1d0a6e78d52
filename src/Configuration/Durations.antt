-- ===== src/Configuration/Durations.antt =====
-- The durations of a configuration file: of three of them seconds become nanoseconds, without overflow.
use gnmi_gateway.Prelude.{
  ℕ, ◌*◌, ◌^◌, ◌<◌, ℤ, pos, negsuc, Option, some, Text, ltb, if◌then◌else◌, arith, ◌≡◌, refl,
  Bool-cases, inl, inr,
}
use gnmi_gateway.Configuration.{
  GatewayConfig, LoaderDurations, second, to_int64, times_second, rescale, populated, populate,
}

-- A duration that is not negative and fits an int64.
abbrev pub IsDuration : ℤ → Type 0
IsDuration (pos n) = n < 2 ^ 63
IsDuration (negsuc n) = ⊥

-- The number of nanoseconds that is meant: below a second, a duration counts seconds.
abbrev pub nanoseconds : ℤ → ℤ
nanoseconds (pos n) = if ltb n second then pos (n * second) else pos n
nanoseconds (negsuc n) = negsuc n

to_int64-small : (n : ℕ) → n < 2 ^ 63 → to_int64 n ≡ pos n
unfolding to_int64
to_int64-small n h = ground arith

rescale-nanoseconds :
    (d : ℤ) → IsDuration d → (rescale d ≡ nanoseconds d) × IsDuration (nanoseconds d)
unfolding rescale times_second
rescale-nanoseconds (pos n) h = elim (Bool-cases (ltb n second)) [
  | inl short ↦
      let bound : n * second < 2 ^ 63 = ground arith in
      (rw short (to_int64-small (n * second) bound), rw short bound)
  | inr long ↦ (rw long refl, rw long h)
]
rescale-nanoseconds (negsuc n) h = absurd h

rescale-idempotent : (d : ℤ) → IsDuration d → rescale (nanoseconds d) ≡ nanoseconds d
unfolding rescale times_second to_int64
rescale-idempotent (pos n) h = elim (Bool-cases (ltb n second)) [
  | inl short ↦ rw short (elim (Bool-cases (ltb (n * second) second)) [
    | inl nought ↦ (let is_zero : n ≡ 0 = ground arith in rw is_zero refl)
    | inr long ↦ rw long refl
  ])
  | inr long ↦ rw (long, long) refl
]
rescale-idempotent (negsuc n) h = absurd h

-- The dial timeout, the Zookeeper timeout and the interval of the JSON file in nanoseconds, and the other
-- durations as they are.
abbrev pub in_nanoseconds : GatewayConfig → LoaderDurations → GatewayConfig
in_nanoseconds c l = record {
  target_dial_timeout = nanoseconds c.target_dial_timeout;
  zookeeper_timeout = nanoseconds c.zookeeper_timeout;
  kafka_batch_timeout = c.kafka_batch_timeout;
  target_loaders = some (record {
    json_file_reload_interval = nanoseconds l.json_file_reload_interval;
    netbox_reload_interval = l.netbox_reload_interval;
    simple_file_reload_interval = l.simple_file_reload_interval;
  });
}

-- If the file is decoded, the loaders are there, and the dial timeout, the Zookeeper timeout and the interval
-- of the JSON file are not negative, each of these three counts seconds if it is below a second, and stays
-- as it is otherwise. None of the three overflows, all other durations stay as they are decoded, and reading
-- a file that mentions none of them afterwards changes nothing.
pub populate_lem :
    (decode : GatewayConfig → Text → Option GatewayConfig) (config c : GatewayConfig)
    (l : LoaderDurations) (text : Text)
    → decode config text ≡ some c
    → c.target_loaders ≡ some l
    → IsDuration c.target_dial_timeout
    → IsDuration c.zookeeper_timeout
    → IsDuration l.json_file_reload_interval
    → (populate decode config (some text) ≡ populated (in_nanoseconds c l))
      × IsDuration (nanoseconds c.target_dial_timeout)
      × IsDuration (nanoseconds c.zookeeper_timeout)
      × IsDuration (nanoseconds l.json_file_reload_interval)
      × ((other : Text)
          → populate (λ old _. some old) (in_nanoseconds c l) (some other)
            ≡ populated (in_nanoseconds c l))
unfolding populate
populate_lem decode config c l text e loaders d z i =
    let (at_d, fits_d) = rescale-nanoseconds c.target_dial_timeout d in
    let (at_z, fits_z) = rescale-nanoseconds c.zookeeper_timeout z in
    let (at_i, fits_i) = rescale-nanoseconds l.json_file_reload_interval i in
    (
      rw (populate, e, loaders, at_d, at_z, at_i) refl,
      fits_d,
      fits_z,
      fits_i,
      λ other.
          rw
            (
              populate,
              rescale-idempotent c.target_dial_timeout d,
              rescale-idempotent c.zookeeper_timeout z,
              rescale-idempotent l.json_file_reload_interval i,
            )
            refl,
    )
