-- ===== src/Exporters/Prometheus/Serving.antt =====
-- gateway/exporters/prometheus/prometheus.go: `Start` and `runHttpServer`. Loading the models, and what
-- `http.ListenAndServe` returns each time, are arguments; `http.Handle` panics, as documented, on a
-- pattern that has a handler.
use gnmi_gateway.Prelude.{
  ℕ, Bool, true, false, Option, none, some, List, [], ◌∷◌, Text, ◌==◌, leb, if◌then◌else◌, ◌+◌, ◌≡◌,
  refl,
}

pub data StartResult : Type 0 where
  no_directory not_loaded serves : StartResult

-- `Start`
unfoldable pub start_prometheus : (Text → Bool) → Text → StartResult
start_prometheus loads_all_modules directory =
    if directory == []
    then no_directory
    else if loads_all_modules directory
    then serves
    else not_loaded

-- How the goroutine of the server ends: by the panic of a nil `lastError`, of `http.Handle`, or after
-- too many errors. `serving` means that `ListenAndServe` has not returned.
pub data ServerEnd : Type 0 where
  serving nil_last_error handled_twice too_many_errors : ServerEnd

-- The variables of the loop, and whether the pattern has its handler.
pub record HttpServer : Type 0 where
  pub handled : Bool
  pub err_count : ℕ
  pub last_error : Option Text

-- The counting of an error after another one; the Boolean says that there are too many.
unfoldable pub count_error : HttpServer → Text → Text → HttpServer × Bool
count_error s last e =
    if e == last
    then (record s { err_count = s.err_count + 1 }, leb 3 (s.err_count + 1))
    else (record s { err_count = 0; last_error = some e }, false)

-- `runHttpServer`, over what `ListenAndServe` returns each time.
unfoldable pub run_http_server : HttpServer → List (Option Text) → ServerEnd
run_http_server s [] = if s.handled then handled_twice else serving
run_http_server s (none ∷ answers) =
    let rest = run_http_server (record s { handled = true }) answers in
    if s.handled then handled_twice else rest
run_http_server s (some e ∷ answers) = if s.handled then handled_twice else elim s.last_error [
  | none ↦ nil_last_error
  | some last ↦
      let (s', many) = count_error s last e in
      let rest = run_http_server (record s' { handled = true }) answers in
      if many then too_many_errors else rest
]

abbrev pub fresh_server : HttpServer
fresh_server = record { handled = false; err_count = 0; last_error = none }

-- The server goroutine panics as soon as `ListenAndServe` returns: on an error at the nil error of
-- before, and otherwise when it handles the pattern again. The limit of three errors is never met.
pub run_http_server_lem :
    (answer : Option Text) (answers : List (Option Text))
    → run_http_server fresh_server (answer ∷ answers)
      ≡ (elim answer [ none ↦ handled_twice | some _ ↦ nil_last_error ])
unfolding run_http_server
run_http_server_lem (some e) answers = refl
run_http_server_lem none [] = refl
run_http_server_lem none (none ∷ answers) = refl
run_http_server_lem none (some e ∷ answers) = refl
