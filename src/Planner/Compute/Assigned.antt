-- ===== src/Planner/Compute/Assigned.antt =====
-- multinode/placement_planner.py: where `compute_placement` puts the teams, and when it finds no node.
use tezcatlipoca.Base.{
  ℕ, ◌≤◌, ◌<◌, Bool, true, false, ◌≡◌, sym, inl, inr, List, [], arith, All, length, ltb, Text,
  text_beq, text_eq, Bool-cases,
}
use tezcatlipoca.Base.Actions.{ok, err, Result-cases}
use tezcatlipoca.Planner.{Node, Team, Box, Probe}
use tezcatlipoca.Planner.Place.{
  TeamNodes, no_node, node_names, teams_at, resolve_overrides, Ledger, fill_nodes, engine_node,
}
use tezcatlipoca.Planner.Place.Overrides.{AreTeams, resolve_overrides-AreTeams}
use tezcatlipoca.Planner.Place.Capacity.{HasOwnNames, capacity, fill_nodes_complete}
use tezcatlipoca.Planner.Compute.{Placed, build, after_fill, compute_placement}
use tezcatlipoca.Planner.Compute.Parts.{compute_placement-Built}
use tezcatlipoca.Planner.Place.Filled.{Assigned, fill_nodes-bound, fill_nodes-Assigned}
use tezcatlipoca.Planner.Compute.Raises.{
  Other, resolve_overrides-Other, is_no_node, engine_node-Other, build-Other,
}

module _ {W F : Type 0} (scaled : ℕ → ℕ → W → F) (float_ltb : F → F → Bool) where
  module _ (records : List (Node W)) (teams : List Team) (engine_vmid : ℕ) (prefer : List Text)
      (boxes : List Box) (probes : Text → Probe) (team_overrides : List (Text × Text))
      (engine_override : Text) where
    -- When the nodes have names of their own and `compute_placement` refuses because some teams have
    -- no node, the ready nodes, those whose probe is well and that have every template, have
    -- together fewer places than there are teams.
    pub compute_placement-capacity :
        HasOwnNames records
        → (skipped : List Text)
        → compute_placement scaled float_ltb records teams engine_vmid prefer boxes probes
            team_overrides engine_override
          ≡ err (no_node skipped)
        → capacity boxes probes records < length teams
    unfolding compute_placement after_fill Other is_no_node AreTeams
    compute_placement-capacity own skipped h =
        elim (Bool-cases (ltb (capacity boxes probes records) (length teams))) [
          | inl less ↦ ground arith
          | inr room ↦
              elim (Result-cases (resolve_overrides (node_names records) teams team_overrides [])) [
                | inr (x, e) ↦
                    let no : is_no_node x ≡ false =
                      rw e at
                        (resolve_overrides-Other (node_names records) teams team_overrides []) in
                    let h1 = rw (compute_placement, e) at h in ground arith
                | inl (overrides, e) ↦
                    let l : Ledger =
                      fill_nodes scaled float_ltb records prefer boxes probes teams overrides in
                    let are =
                      resolve_overrides-AreTeams (node_names records) teams team_overrides []
                        overrides tt tt e in
                    let all : l.skipped ≡ [] =
                      fill_nodes_complete scaled float_ltb records prefer boxes probes teams
                        overrides own (ground arith) are.0 are.1 in
                    let h1 : after_fill scaled float_ltb records teams engine_vmid prefer boxes
                          probes engine_override l
                        ≡ err (no_node skipped) =
                      rw (compute_placement, e) at h in
                    let h2 : build records teams engine_vmid prefer l.placed
                          (engine_node records prefer probes engine_override l.placed)
                        ≡ err (no_node skipped) =
                      rw (after_fill, all) at h1 in
                    let no : Other {A = Placed} (err (no_node skipped)) = rw h2 at (
                      build-Other records teams engine_vmid prefer l.placed _ (
                        engine_node-Other records teams engine_vmid prefer probes engine_override
                          l.placed)) in
                    cc
              ]
        ]

    -- When the overrides are resolved and `compute_placement` returns, each team has a node: the
    -- one that its override names, and without an override a node whose probe is well and that has
    -- every template.
    pub compute_placement-Assigned :
        (overrides : TeamNodes)
        → resolve_overrides (node_names records) teams team_overrides [] ≡ ok overrides
        → (p : Placed)
        → compute_placement scaled float_ltb records teams engine_vmid prefer boxes probes
            team_overrides engine_override
          ≡ ok p
        → All
            (λ t.
              Assigned scaled float_ltb records prefer boxes probes overrides p.team_nodes t.key)
            teams
    compute_placement-Assigned overrides e p h =
        let made =
          compute_placement-Built scaled float_ltb records teams engine_vmid prefer boxes probes
            team_overrides engine_override p h in
        let same : made.0 ≡ overrides = cc in
        let seated =
          fill_nodes-Assigned scaled float_ltb records prefer boxes probes teams made.0 made.2 in
        rw (made.3.teams_of, sym same) seated

    -- When the overrides are resolved and `compute_placement` returns, no name of a node has more
    -- teams than a bound that its teams among the overrides and the `max_teams` of the records of
    -- that name respect.
    pub compute_placement-bound :
        (overrides : TeamNodes)
        → resolve_overrides (node_names records) teams team_overrides [] ≡ ok overrides
        → (p : Placed)
        → compute_placement scaled float_ltb records teams engine_vmid prefer boxes probes
            team_overrides engine_override
          ≡ ok p
        → (name : Text) (m : ℕ) → All (λ r. text_beq r.name name ≡ true → r.max_teams ≤ m) records
        → teams_at name overrides ≤ m
        → teams_at name p.team_nodes ≤ m
    compute_placement-bound overrides e p h name m caps few =
        let made =
          compute_placement-Built scaled float_ltb records teams engine_vmid prefer boxes probes
            team_overrides engine_override p h in
        let same : made.0 ≡ overrides = cc in
        rw made.3.teams_of (
          fill_nodes-bound scaled float_ltb records prefer boxes probes teams made.0 name m caps
            (rw same few))
