-- ===== src/Planner/Routes/Reach.antt =====
-- multinode/placement_record.py: the routes of `satellite_routes_for` reach every team.
use tezcatlipoca.Base.{
  Bool, true, ◌||◌, ◌≡◌, refl, inl, inr, Option, none, some, List, [], ◌∷◌, ◌++◌, arith, any, Text,
  text_beq_iff, text_eq, All, All-map, Option-cases,
}
use tezcatlipoca.Base.Dict.{lookup}
use tezcatlipoca.Planner.Compute.{SatelliteNode}
use tezcatlipoca.Planner.Routes.{
  Route, same_route, route_to, with_route, with_anchor, with_teams, routes_onto, satellite_routes,
}

any-append :
    (test : Route → Bool) (xs ys : List Route) → any test (xs ++ ys) ≡ (any test xs || any test ys)
unfolding any
any-append test [] ys = refl
any-append test (x ∷ xs) ys = ground (arith, any-append test xs ys)

same_route_refl : (r : Route) → same_route r r ≡ true
unfolding same_route
same_route_refl r = ground (arith, text_beq_iff r.subnet r.subnet, text_beq_iff r.via r.via)

-- a route stays, and the one that is added is there
with_route-any :
    (test : Route → Bool) (r : Route) (routes : List Route)
    → any test routes ≡ true
    → any test (with_route r routes) ≡ true
unfolding with_route
with_route-any test r routes h = ground (arith, any-append test routes (r ∷ []))

with_route-there :
    (r : Route) (routes : List Route) → any (same_route r) (with_route r routes) ≡ true
unfolding with_route any
with_route-there r routes =
    ground (arith, any-append (same_route r) routes (r ∷ []), same_route_refl r)

with_anchor-any :
    (test : Route → Bool) (anchor : Option Text) (via : Text) (routes : List Route)
    → any test routes ≡ true
    → any test (with_anchor anchor via routes) ≡ true
unfolding with_anchor
with_anchor-any test none via routes m = m
with_anchor-any test (some []) via routes m = m
with_anchor-any test (some (c ∷ s)) via routes m =
    ground (arith, any-append test routes (route_to (c ∷ s) via ∷ []))

with_teams-any :
    (identifiers : List (Text × Text)) (test : Route → Bool) (ks : List Text) (via : Text)
    (routes routes' : List Route)
    → with_teams identifiers ks via routes ≡ some routes'
    → any test routes ≡ true
    → any test routes' ≡ true
unfolding with_teams
with_teams-any identifiers test [] via routes routes' h m =
    let same : routes ≡ routes' = cc in rw same at m
with_teams-any identifiers test (k ∷ ks) via routes routes' h m =
    elim (Option-cases (lookup k identifiers)) [
      | inl e ↦ let q = rw (with_teams, e) at h in cc
      | inr (i, e) ↦
          with_teams-any identifiers test ks via _ routes' (rw (with_teams, e) at h)
            (with_route-any test (route_to i via) routes m)
    ]

routes_onto-any :
    (identifiers : List (Text × Text)) (test : Route → Bool) (ss : List SatelliteNode)
    (routes routes' : List Route)
    → routes_onto identifiers ss routes ≡ some routes'
    → any test routes ≡ true
    → any test routes' ≡ true
unfolding routes_onto
routes_onto-any identifiers test [] routes routes' h m =
    let same : routes ≡ routes' = cc in rw same at m
routes_onto-any identifiers test (s ∷ ss) routes routes' h m =
    let start = with_anchor s.anchor s.jump_mgmt_ip routes in
    elim (Option-cases (with_teams identifiers s.teams s.jump_mgmt_ip start)) [
      | inl e ↦ let q = rw (routes_onto, e) at h in cc
      | inr (next, e) ↦
          routes_onto-any identifiers test ss next routes' (rw (routes_onto, e) at h) (
            with_teams-any identifiers test s.teams s.jump_mgmt_ip start next e
              (with_anchor-any test s.anchor s.jump_mgmt_ip routes m))
    ]

-- there is a route to the team through the address
pub IsReached : List (Text × Text) → List Route → Text → Text → Type 0
IsReached identifiers routes via k =
    (i : Text) × (lookup k identifiers ≡ some i) × (any (same_route (route_to i via)) routes ≡ true)

with_teams-IsReached :
    (identifiers : List (Text × Text)) (ks : List Text) (via : Text) (routes routes' : List Route)
    → with_teams identifiers ks via routes ≡ some routes'
    → All (IsReached identifiers routes' via) ks
unfolding with_teams IsReached
with_teams-IsReached identifiers [] via routes routes' h = tt
with_teams-IsReached identifiers (k ∷ ks) via routes routes' h =
    elim (Option-cases (lookup k identifiers)) [
      | inl e ↦ let q = rw (with_teams, e) at h in cc
      | inr (i, e) ↦
          let later = rw (with_teams, e) at h in
          let r = route_to i via in
          (
            (
              i,
              e,
              with_teams-any identifiers (same_route r) ks via _ routes' later
                  (with_route-there r routes),
            ),
            with_teams-IsReached identifiers ks via _ routes' later,
          )
    ]

routes_onto-IsReached :
    (identifiers : List (Text × Text)) (ss : List SatelliteNode) (routes routes' : List Route)
    → routes_onto identifiers ss routes ≡ some routes'
    → All (λ s. All (IsReached identifiers routes' s.jump_mgmt_ip) s.teams) ss
unfolding routes_onto IsReached
routes_onto-IsReached identifiers [] routes routes' h = tt
routes_onto-IsReached identifiers (s ∷ ss) routes routes' h =
    let start = with_anchor s.anchor s.jump_mgmt_ip routes in
    elim (Option-cases (with_teams identifiers s.teams s.jump_mgmt_ip start)) [
      | inl e ↦ let q = rw (routes_onto, e) at h in cc
      | inr (next, e) ↦
          let later = rw (routes_onto, e) at h in
          (
            All-map _ _
                (λ k found.
                  (found.0, found.1, routes_onto-any identifiers _ ss next routes' later found.2))
                s.teams (with_teams-IsReached identifiers s.teams s.jump_mgmt_ip start next e),
            routes_onto-IsReached identifiers ss next routes' later,
          )
    ]

-- When satellite_routes_for returns, each team of each satellite has an identifier and there is a
-- route to its network through the jump of that satellite.
pub satellite_routes-IsReached :
    (identifiers : List (Text × Text)) (satellites : List SatelliteNode) (routes : List Route)
    → satellite_routes identifiers satellites ≡ some routes
    → All (λ s. All (IsReached identifiers routes s.jump_mgmt_ip) s.teams) satellites
unfolding satellite_routes
satellite_routes-IsReached identifiers satellites routes h =
    routes_onto-IsReached identifiers satellites [] routes h
