-- ===== src/Gateway/Main/Signal.antt =====
-- What is cleaned up at the end.
use gnmi_gateway.Prelude.{
  true, false, ◌&&◌, [], ◌∷◌, ◌==◌, codes, lookup, if◌then◌else◌, arith, ◌≡◌,
}
use gnmi_gateway.Gateway.Args.{ArgsConfig, parsed, text_of}
use gnmi_gateway.Gateway.Main.{
  stop_cpu_profile, Profiler, setup_debugging, bool_of, has_exited, main, on_signal,
  gateway_returns,
}

-- A gateway that was started is left at a signal with code 0, and a CPU profile that was started is stopped then,
-- but not if the gateway ends with an error, which leaves it with code 1.
pub main-signal :
    (w : Profiler) (c : ArgsConfig)
    → bool_of (lookup c.settings (codes "version")) ≡ false
    → let cpu_profile = text_of (lookup c.settings (codes "CPUProfile")) in
      let started = w.creates cpu_profile && w.starts in
      (on_signal (main w (parsed c)) ≡ (
        if cpu_profile == []
        then has_exited 0 []
        else if started
        then has_exited 0 (stop_cpu_profile ∷ [])
        else has_exited 1 []))
      × (gateway_returns true (main w (parsed c)) ≡ has_exited 1 [])
unfolding main on_signal gateway_returns setup_debugging
main-signal w c e = ground arith
