-- ===== src/Gateway/Main.antt =====
-- gateway/main.go: `Main` and `SetupDebugging`. Creating the file of the profile, starting the profile and
-- `StartGateway` are arguments; a signal and the end of the gateway are steps of their own.
pub mod Signal
use gnmi_gateway.Prelude.{
  ℕ, Bool, true, false, not, Option, none, some, List, [], ◌∷◌, Text, ◌==◌, codes, lookup,
  if◌then◌else◌,
}
use gnmi_gateway.Gateway.Args.{
  FlagValue, bool_value, text_value, int_value, duration_value, ArgsConfig, Parsed, bad_file,
  bad_environment, file_panics, parsed, text_of,
}

-- The functions that `SetupDebugging` defers.
pub data Cleanup : Type 0 where
  stop_cpu_profile : Cleanup

-- What is going on for debugging: the web server of pprof, and what to do at the end.
pub record Debugging : Type 0 where
  pub pprof_server : Bool
  pub deferred : List Cleanup

pub record Profiler : Type 0 where
  pub creates : Text → Bool
  pub starts : Bool

-- `SetupDebugging`; `none` is an error.
unfoldable pub setup_debugging : Profiler → Bool → Text → Option Debugging
setup_debugging w pprof cpu_profile =
    if cpu_profile == []
    then some (record { pprof_server = pprof; deferred = [] })
    else if not (w.creates cpu_profile)
    then none
    else if not w.starts
    then none
    else some (record { pprof_server = pprof; deferred = stop_cpu_profile ∷ [] })

-- The variable of a Boolean flag.
abbrev pub bool_of : Option FlagValue → Bool
bool_of (some (bool_value b)) = b
bool_of (some (text_value t)) = false
bool_of (some (int_value n)) = false
bool_of (some (duration_value d)) = false
bool_of none = false

-- `Main` has left the process with a code, after the functions it ran; or it panicked, returned, or waits for
-- the gateway, with the functions to run at a signal.
pub data MainState : Type 0 where
  has_exited : ℕ → List Cleanup → MainState
  has_panicked has_returned : MainState
  waits_for_gateway : List Cleanup → MainState

-- `Main` up to the call of `StartGateway`.
unfoldable pub main : Profiler → Parsed → MainState
main w bad_file = has_exited 1 []
main w bad_environment = has_exited 1 []
main w file_panics = has_panicked
main w (parsed c) =
    if bool_of (lookup c.settings (codes "version"))
    then has_exited 0 []
    else elim (setup_debugging w (bool_of (lookup c.settings (codes "PProf")))
        (text_of (lookup c.settings (codes "CPUProfile")))) [
          | none ↦ has_exited 1 []
          | some d ↦ waits_for_gateway d.deferred
        ]

-- An interrupt, or SIGTERM.
unfoldable pub on_signal : MainState → MainState
on_signal (waits_for_gateway deferred) = has_exited 0 deferred
on_signal (has_exited code ran) = has_exited code ran
on_signal has_panicked = has_panicked
on_signal has_returned = has_returned

-- `StartGateway` returns, with an error or without.
unfoldable pub gateway_returns : Bool → MainState → MainState
gateway_returns fails (waits_for_gateway deferred) = if fails then has_exited 1 [] else has_returned
gateway_returns fails (has_exited code ran) = has_exited code ran
gateway_returns fails has_panicked = has_panicked
gateway_returns fails has_returned = has_returned
