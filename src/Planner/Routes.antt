-- ===== src/Planner/Routes.antt =====
-- multinode/placement_record.py: `satellite_routes_for`, the routes of the engine to the teams behind
-- the jumps.
pub mod Reach
use tezcatlipoca.Base.{
  ℕ, Bool, true, false, not, ◌&&◌, ◌||◌, ◌≡◌, refl, ◌⊎◌, inl, inr, Option, none, some, List, [],
  ◌∷◌, ◌++◌, if◌then◌else◌, arith, any, Text, text, text_beq, text_beq_iff, text_eq, Bool-cases,
  Option-cases,
}
use tezcatlipoca.Base.Dict.{lookup}
use tezcatlipoca.Planner.Compute.{SatelliteNode}

pub record Route : Type 0 where
  pub subnet : Text
  pub via : Text

unfoldable pub same_route : Route → Route → Bool
same_route a b = text_beq a.subnet b.subnet && text_beq a.via b.via

unfoldable pub route_to : Text → Text → Route
route_to identifier via = record {
  subnet = text "192.168." ++ identifier ++ text ".0/24";
  via = via;
}

-- `routes` with one more unless it is there
with_route : Route → List Route → List Route
unfolding any same_route
with_route r routes = if any (same_route r) routes then routes else routes ++ r ∷ []

-- an anchor that is none or empty has no route of its own
with_anchor : Option Text → Text → List Route → List Route
unfolding route_to
with_anchor none via routes = routes
with_anchor (some []) via routes = routes
with_anchor (some (c ∷ s)) via routes = routes ++ route_to (c ∷ s) via ∷ []

-- none where a team has no identifier
with_teams : List (Text × Text) → List Text → Text → List Route → Option (List Route)
unfolding lookup with_route route_to
with_teams identifiers [] via routes = some routes
with_teams identifiers (k ∷ ks) via routes = elim (lookup k identifiers) [
  | none ↦ none
  | some i ↦ with_teams identifiers ks via (with_route (route_to i via) routes)
]

routes_onto : List (Text × Text) → List SatelliteNode → List Route → Option (List Route)
unfolding with_teams with_anchor
routes_onto identifiers [] routes = some routes
routes_onto identifiers (s ∷ ss) routes =
    elim (with_teams identifiers s.teams s.jump_mgmt_ip
      (with_anchor s.anchor s.jump_mgmt_ip routes)) [
        | none ↦ none
        | some routes' ↦ routes_onto identifiers ss routes'
      ]

unfoldable pub satellite_routes : List (Text × Text) → List SatelliteNode → Option (List Route)
unfolding routes_onto
satellite_routes identifiers satellites = routes_onto identifiers satellites []
