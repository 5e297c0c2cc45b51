-- ===== src/Examples/Config.antt =====
-- The theorems on configurations, at a document that loads.
use nusa_launchd.Shared.{◌≡◌, refl, ◌↔◌}
use nusa_launchd.Util.{ok}
use nusa_launchd.Job.Config.{validate as acceptable, from_file}
use nusa_launchd.Job.Config.Laws.{Verdict, LoadsFrom, validate-Verdict, from_file_iff}
use nusa_launchd.Job.Validator.{elem, is_absolute, validate}
use nusa_launchd.Job.Validator.Checks.{IsValid}
use nusa_launchd.Job.Validator.Laws.{validator_iff}
use nusa_launchd.Text.{trim, contains, any_char, starts_with}
use nusa_launchd.Examples.Data.{web, disk}

validate-Verdict_example : Verdict web (acceptable web)
validate-Verdict_example = validate-Verdict web

from_file_iff_example : (from_file disk "web.toml" ≡ ok web) ↔ LoadsFrom disk "web.toml" web
from_file_iff_example = from_file_iff disk "web.toml" web

from_file_test : from_file disk "web.toml" ≡ ok web
unfolding from_file trim contains
from_file_test = refl

validator_iff_example : (validate web ≡ ok tt) ↔ IsValid web
validator_iff_example = validator_iff web

validate_test : validate web ≡ ok tt
unfolding validate trim any_char elem is_absolute starts_with contains
validate_test = refl
