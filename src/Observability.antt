-- ===== src/Observability.antt =====
-- internal/observability/health.go and logging.go: the health checks and the choice of a logger.
-- `S` is what the checks look at.
pub mod Readiness
use azath.Prelude.{
  Result, ok, err, ◌==◌, if◌then◌else◌, is_some, text_eq, Text, codes, lookup, insert, Assoc, size,
  ℕ, Bool, true, false, not, Option, none, some, List, [], ◌∷◌,
}

pub data CheckResult : Type 0 where
  passes returns_error panics : CheckResult

abbrev pub CheckFunc : Type 0 → Type 0
CheckFunc S = S → CheckResult

-- The map of a HealthChecker.
abbrev pub HealthChecker : Type 0 → Type 0
HealthChecker S = Assoc (CheckFunc S)

pub data HealthStatus : Type 0 where
  status_ok status_fail : HealthStatus

-- The status code and the body of a handler's response.
pub record HealthResponse : Type 0 where
  pub code : ℕ
  pub body : HealthStatus

abbrev unavailable : HealthResponse
unavailable = record { code = 503; body = status_fail }

abbrev available : HealthResponse
available = record { code = 200; body = status_ok }

-- runCheck
unfoldable pub run_check : CheckResult → Bool
run_check passes = true
run_check returns_error = false
run_check panics = false

module _ {S : Type 0} where
  -- Register; none for the panic on a name that is there.
  unfoldable pub register : Text → CheckFunc S → HealthChecker S → Option (HealthChecker S)
  register name fn checks =
      if is_some (lookup name checks) then none else some (insert name fn checks)

  -- LivezHandler
  unfoldable pub livez : HealthChecker S → HealthResponse
  livez checks = available

  -- What `overall` is, whether still "ok", after the goroutines, in the order in which they write.
  unfoldable pub overall : S → List (Text × CheckFunc S) → Bool → Bool
  overall s [] fine = fine
  overall s ((n, f) ∷ rest) fine = overall s rest (if not (run_check (f s)) then false else fine)

  -- ReadyzHandler; `order` is the order in which the goroutines of the checks write.
  unfoldable pub readyz : HealthChecker S → S → List (Text × CheckFunc S) → HealthResponse
  readyz checks s order =
      if size checks == 0
      then unavailable
      else if overall s order true
      then available
      else unavailable

pub data Level : Type 0 where
  debug_level info_level warn_level error_level : Level

pub data Format : Type 0 where
  json_format text_format : Format

pub data LoggerError : Type 0 where
  unsupported_level unsupported_format : LoggerError

-- The level of a text in lower case.
unfoldable pub level_of : Text → Option Level
level_of level =
    if text_eq level (codes "debug")
    then some debug_level
    else if text_eq level (codes "info")
    then some info_level
    else if text_eq level (codes "warn")
    then some warn_level
    else if text_eq level (codes "error")
    then some error_level
    else none

unfoldable pub format_of : Text → Option Format
format_of format =
    if text_eq format (codes "json")
    then some json_format
    else if text_eq format (codes "text")
    then some text_format
    else none

with_level : Option Format → Option Level → Result LoggerError (Level × Format)
with_level format none = err unsupported_level
with_level none (some l) = err unsupported_format
with_level (some f) (some l) = ok (l, f)

-- NewLogger; `lower` is strings.ToLower.
unfoldable pub new_logger : (Text → Text) → Text → Text → Result LoggerError (Level × Format)
unfolding with_level
new_logger lower level format = with_level (format_of (lower format)) (level_of (lower level))
