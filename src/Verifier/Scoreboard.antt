-- ===== src/Verifier/Scoreboard.antt =====
-- verifier/scoreboard.py: `check_services`, the gates on the services that the scoreboard reports.
-- What the engine answers is a parameter: none for a request that raises. Output is not modelled.
pub mod Strict
use tezcatlipoca.Base.{
  ℕ, Bool, true, false, not, ◌&&◌, ◌||◌, Option, none, some, List, [], ◌∷◌, ◌++◌, map,
  if◌then◌else◌, contains, minus, is_empty, Text, text, text_eq,
}
use tezcatlipoca.Naming.{lower}
use tezcatlipoca.Tags.{strip}
use tezcatlipoca.Verifier.{Status, skip_unavailable, GateResult, gate_fail, gate_skip, bool_gate}

-- the `Result` of a check: a text, or a value that is no text, by its truth
pub data CheckResult : Type 0 where
  worded : (t : Text) → CheckResult
  valued : (truth : Bool) → CheckResult

unfoldable pub check_passed : CheckResult → Bool
unfolding contains strip
check_passed (worded t) = not (contains ([] ∷ text "0" ∷ text "false" ∷ []) (lower (strip t)))
check_passed (valued truth) = truth

-- a service of a team: its `Last10Rounds`, each with the results of its checks, none where the
-- round is no object
pub record Service : Type 0 where
  pub name : Option Text
  pub rounds : List (Option (List CheckResult))

service_name : Service → Text
service_name s = elim s.name [ none ↦ text "?" | some name ↦ name ]

first_checks : List (Option (List CheckResult)) → List CheckResult
first_checks [] = []
first_checks (none ∷ rounds) = []
first_checks (some checks ∷ rounds) = checks

all_passed : List CheckResult → Bool
unfolding check_passed
all_passed [] = true
all_passed (c ∷ cs) = check_passed c && all_passed cs

pub record Tally : Type 0 where
  pub query_ok : Bool
  pub all_up : Bool
  pub any_service : Bool
  pub any_scored : Bool
  pub actual_names : List Text

visit_checks : Text → List CheckResult → Tally × List Text → Tally × List Text
unfolding all_passed
visit_checks name checks (t, down) =
    if is_empty checks then (record t { any_service = true }, down) else (
      record t { any_service = true; any_scored = true },
      if all_passed checks then down else down ++ name ∷ [],
    )

visit_services : List Service → Tally × List Text → Tally × List Text
unfolding visit_checks first_checks service_name
visit_services [] state = state
visit_services (s ∷ ss) state =
    visit_services ss (visit_checks (service_name s) (first_checks s.rounds) state)

visit_team : Option (List Service) → Tally → Tally
unfolding visit_services
visit_team none t = record t { query_ok = false; all_up = false }
visit_team (some services) t =
    let (t', down) =
      visit_services services
        (record t { actual_names = t.actual_names ++ map service_name services }, []) in
    if is_empty down then t' else record t' { all_up = false }

visit_teams : List (Option (List Service)) → Tally → Tally
unfolding visit_team
visit_teams [] t = t
visit_teams (team ∷ teams) t = visit_teams teams (visit_team team t)

-- nothing reported, or nothing scored, is no pass under --strict-services
strict_up : Bool → Tally → Bool
strict_up strict t = t.all_up && not (strict && (not t.any_service || not t.any_scored))

-- the gate on the pins, if there are pins
pins_gate : List Text → GateResult → List GateResult
pins_gate expected gate = if is_empty expected then [] else gate ∷ []

services_name : Bool → Text
services_name strict = if strict then text "services(strict)" else text "services"

services_scored : Bool → List Text → Tally → List GateResult
unfolding strict_up pins_gate services_name minus bool_gate
services_scored strict expected t =
    bool_gate (services_name strict) (strict_up strict t) strict (text "services")
    ∷ pins_gate expected
        (bool_gate (text "pins_registered") (is_empty (minus expected t.actual_names)) true [])

-- with whether the login gave a session, and the answers for the teams, and for each its services
unfoldable pub check_services :
    Bool → List Text → Bool → Option (List (Option (List Service))) → List GateResult
unfolding pins_gate services_name services_scored visit_teams gate_skip gate_fail bool_gate
check_services strict expected false api =
    gate_skip (services_name strict) strict (text "services")
    ∷ pins_gate expected
        (record (bool_gate (text "pins_registered") false true []) { status = skip_unavailable })
check_services strict expected true none =
    gate_fail (services_name strict) strict (text "services")
    ∷ pins_gate expected (bool_gate (text "pins_registered") false true [])
check_services strict expected true (some teams) = services_scored strict expected (
    visit_teams teams (record {
      query_ok = true;
      all_up = true;
      any_service = false;
      any_scored = false;
      actual_names = [];
    }))
