-- ===== src/Verifier/Scoreboard/Strict.antt =====
-- What a pass under --strict-services says of the scoreboard.
use mathlib.Core.List.{append-nil, append_assoc}
use tezcatlipoca.Base.{
  Bool, true, false, not, ◌&&◌, ◌||◌, ◌≡◌, ◌↔◌, refl, sym, ap, ◌∙◌, Option, none, some, List, [],
  ◌∷◌, ◌++◌, map, arith, if◌then◌else◌, minus, subset, is_empty, any, Text, text_eq,
}
use tezcatlipoca.Verifier.{counts, all_count, gate_verdict, gate_skip, gate_fail, bool_gate}
use tezcatlipoca.Verifier.Scoreboard.{
  CheckResult, Service, service_name, first_checks, all_passed, Tally, visit_checks, visit_services,
  visit_team, visit_teams, strict_up, pins_gate, services_scored, check_services,
}

-- the last round of the service was scored
pub is_scored : Service → Bool
unfolding first_checks
is_scored s = not (is_empty (first_checks s.rounds))

-- all of its checks passed
pub is_up : Service → Bool
unfolding first_checks all_passed
is_up s = all_passed (first_checks s.rounds)

pub all_are_up : List Service → Bool
unfolding is_up
all_are_up [] = true
all_are_up (s ∷ ss) = is_up s && all_are_up ss

checks-down :
    (name : Text) (checks : List CheckResult) (t : Tally) (down : List Text)
    → is_empty (visit_checks name checks (t, down)).1 ≡ (is_empty down && all_passed checks)
unfolding visit_checks all_passed
checks-down name [] t down = ground arith
checks-down name (c ∷ cs) t [] = ground arith
checks-down name (c ∷ cs) t (d ∷ down) = ground arith

services-down :
    (ss : List Service) (state : Tally × List Text)
    → is_empty (visit_services ss state).1 ≡ (is_empty state.1 && all_are_up ss)
unfolding visit_services all_are_up is_up
services-down [] state = ground arith
services-down (s ∷ ss) (t, down) = ground (
  arith,
  checks-down (service_name s) (first_checks s.rounds) t down,
  services-down ss (visit_checks (service_name s) (first_checks s.rounds) (t, down)),
)

checks-fields :
    (name : Text) (checks : List CheckResult) (t : Tally) (down : List Text)
    → ((visit_checks name checks (t, down)).0.all_up ≡ t.all_up)
      × ((visit_checks name checks (t, down)).0.any_service ≡ true)
      × ((visit_checks name checks (t, down)).0.any_scored
          ≡ (t.any_scored || not (is_empty checks)))
      × ((visit_checks name checks (t, down)).0.actual_names ≡ t.actual_names)
unfolding visit_checks
checks-fields name [] t down = (refl, refl, ground arith, refl)
checks-fields name (c ∷ cs) t down = (refl, refl, ground arith, refl)

services-fields :
    (ss : List Service) (state : Tally × List Text)
    → ((visit_services ss state).0.all_up ≡ state.0.all_up)
      × ((visit_services ss state).0.any_service ≡ (state.0.any_service || not (is_empty ss)))
      × ((visit_services ss state).0.any_scored ≡ (state.0.any_scored || any is_scored ss))
      × ((visit_services ss state).0.actual_names ≡ state.0.actual_names)
unfolding visit_services any is_scored
services-fields [] state = (refl, ground arith, ground arith, refl)
services-fields (s ∷ ss) (t, down) =
    let first = checks-fields (service_name s) (first_checks s.rounds) t down in
    let later =
      services-fields ss (visit_checks (service_name s) (first_checks s.rounds) (t, down)) in
    (
      later.0 ∙ first.0,
      ground (arith, later.1, first.1),
      ground (arith, later.2, first.2),
      later.3 ∙ first.3,
    )

-- the services of the team were read, and none is down
pub team_up : Option (List Service) → Bool
unfolding all_are_up
team_up none = false
team_up (some ss) = all_are_up ss

pub team_scored : Option (List Service) → Bool
unfolding any is_scored
team_scored none = false
team_scored (some ss) = any is_scored ss

team_has : Option (List Service) → Bool
team_has none = false
team_has (some ss) = not (is_empty ss)

pub all_teams_up : List (Option (List Service)) → Bool
unfolding team_up
all_teams_up [] = true
all_teams_up (team ∷ teams) = team_up team && all_teams_up teams

team_names : Option (List Service) → List Text
team_names none = []
team_names (some ss) = map service_name ss

-- the names on the scoreboard
pub all_names : List (Option (List Service)) → List Text
unfolding team_names
all_names [] = []
all_names (team ∷ teams) = team_names team ++ all_names teams

same_names :
    (b : Bool) (t : Tally)
    → (if b then t else record t { all_up = false }).actual_names ≡ t.actual_names
same_names true t = refl
same_names false t = refl

team-fields :
    (team : Option (List Service)) (t : Tally)
    → ((visit_team team t).all_up ≡ (t.all_up && team_up team))
      × ((visit_team team t).any_service ≡ (t.any_service || team_has team))
      × ((visit_team team t).any_scored ≡ (t.any_scored || team_scored team))
      × ((visit_team team t).actual_names ≡ t.actual_names ++ team_names team)
unfolding visit_team team_up team_has team_scored team_names
team-fields none t = (ground arith, ground arith, ground arith, sym (append-nil t.actual_names))
team-fields (some ss) t =
    let start = record t { actual_names = t.actual_names ++ map service_name ss } in
    let fields = services-fields ss (start, []) in
    let downs = services-down ss (start, []) in
    (
      ground (arith, fields.0, downs),
      ground (arith, fields.1),
      ground (arith, fields.2),
      same_names (is_empty (visit_services ss (start, [])).1) (visit_services ss (start, [])).0
          ∙ fields.3,
    )

teams-fields :
    (teams : List (Option (List Service))) (t : Tally)
    → ((visit_teams teams t).all_up ≡ (t.all_up && all_teams_up teams))
      × ((visit_teams teams t).any_service ≡ (t.any_service || any team_has teams))
      × ((visit_teams teams t).any_scored ≡ (t.any_scored || any team_scored teams))
      × ((visit_teams teams t).actual_names ≡ t.actual_names ++ all_names teams)
unfolding visit_teams any all_teams_up all_names
teams-fields [] t = (ground arith, ground arith, ground arith, sym (append-nil t.actual_names))
teams-fields (team ∷ teams) t =
    let first = team-fields team t in
    let later = teams-fields teams (visit_team team t) in
    (
      ground (arith, later.0, first.0),
      ground (arith, later.1, first.1),
      ground (arith, later.2, first.2),
      later.3
          ∙ ap (λ l. l ++ all_names teams) first.3
          ∙ append_assoc t.actual_names (team_names team) (all_names teams),
    )

scored-has :
    (teams : List (Option (List Service)))
    → any team_scored teams ≡ true
    → any team_has teams ≡ true
unfolding any team_scored team_has
scored-has [] h = cc
scored-has (none ∷ teams) h = scored-has teams h
scored-has (some [] ∷ teams) h = scored-has teams h
scored-has (some (s ∷ ss) ∷ teams) h = refl

minus-subset : (xs ys : List Text) → is_empty (minus xs ys) ≡ subset xs ys
unfolding minus subset
minus-subset [] ys = refl
minus-subset (x ∷ xs) ys = ground (arith, minus-subset xs ys)

-- the two gates count as their tests
scored-all_count :
    (expected : List Text) (t : Tally)
    → all_count [] (services_scored true expected t)
      ≡ (strict_up true t && subset expected t.actual_names)
unfolding services_scored all_count counts pins_gate bool_gate strict_up subset
scored-all_count [] t = ground arith
scored-all_count (e ∷ es) t = ground (arith, minus-subset (e ∷ es) t.actual_names)

-- what the scoreboard has to show
abbrev pub IsUp : List Text → Bool → Option (List (Option (List Service))) → Type 0
IsUp expected session api =
    (session ≡ true)
    × (teams : List (Option (List Service))) × (api ≡ some teams)
    × (all_teams_up teams ≡ true)
    × (any team_scored teams ≡ true)
    × (subset expected (all_names teams) ≡ true)

empty_tally : Tally
empty_tally = record {
  query_ok = true;
  all_up = true;
  any_service = false;
  any_scored = false;
  actual_names = [];
}

teams-all_count :
    (expected : List Text) (teams : List (Option (List Service)))
    → all_count [] (services_scored true expected (visit_teams teams empty_tally))
      ≡ (all_teams_up teams && any team_scored teams && subset expected (all_names teams))
unfolding strict_up empty_tally
teams-all_count expected teams =
    let fields = teams-fields teams empty_tally in
    let names : subset expected (visit_teams teams empty_tally).actual_names
        ≡ subset expected (all_names teams) =
      ap (subset expected) fields.3 in
    ground (
      arith,
      scored-all_count expected (visit_teams teams empty_tally),
      fields.0,
      fields.1,
      fields.2,
      names,
      scored-has teams,
    )

-- With --strict-services and no gate waived, the gates of `check_services` pass exactly when there is
-- a session, the teams and the services of every team could be read, in every team each service
-- passed all checks of its last round, at least one service was scored, and every expected name is
-- on the scoreboard. A service whose last round has no checks counts as passing them.
pub check_services_iff :
    (expected : List Text) (session : Bool) (api : Option (List (Option (List Service))))
    → ((gate_verdict (check_services true expected session api) []).1 ≡ true)
      ↔ IsUp expected session api
unfolding gate_verdict check_services all_count counts gate_skip gate_fail empty_tally
check_services_iff expected false api = ((λ h. cc), λ h. cc)
check_services_iff expected true none = ((λ h. cc), λ h. cc)
check_services_iff expected true (some teams) = (
  (λ h.
      let all : (all_teams_up teams && any team_scored teams && subset expected (all_names teams))
          ≡ true =
        sym (teams-all_count expected teams) ∙ h in
      (refl, teams, refl, ground arith, ground arith, ground arith)),
  λ h.
      let same =
        ap {B = List (Option (List Service))} (λ o. elim o [ none ↦ [] | some l ↦ l ]) h.2 in
      let all : (all_teams_up h.1 && any team_scored h.1 && subset expected (all_names h.1))
          ≡ true =
        ground (arith, h.3, h.4, h.5) in
      teams-all_count expected teams
      ∙ ap (λ l. all_teams_up l && any team_scored l && subset expected (all_names l)) same
      ∙ all,
)
