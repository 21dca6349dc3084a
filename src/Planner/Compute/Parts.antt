-- ===== src/Planner/Compute/Parts.antt =====
-- multinode/placement_planner.py: what `compute_placement` has computed where it returns, and when it
-- finds no node.
use tezcatlipoca.Base.{
  ℕ, ◌≤◌, Bool, true, false, ◌≡◌, refl, sym, inl, inr, List, [], ◌∷◌, map, arith, is_empty, length,
  ltb, Text, text_eq, Bool-cases,
}
use tezcatlipoca.Base.Actions.{Result, ok, err, Result-cases}
use tezcatlipoca.Vmids.{BlockClash, max_satellites, check_team_blocks}
use tezcatlipoca.Planner.{Node, Team, Box, Probe}
use tezcatlipoca.Planner.Place.{
  TeamNodes, Refused, no_node, node_names, resolve_overrides, Ledger, fill_nodes, engine_node,
}
use tezcatlipoca.Planner.Compute.{
  Placed, SatelliteNode, to_record, number_from, other_nodes, satellites_from, checked, finish,
  build, after_fill, compute_placement,
}

-- the refusal for want of a node
is_no_node : Refused → Bool
is_no_node (no_node ts) = true
is_no_node r = false

module _ {W : Type 0} (records : List (Node W)) (teams : List Team) (engine_vmid : ℕ)
    (prefer : List Text) where
  -- the parts of a placement that is built from the nodes of the teams
  pub record Built (placed : TeamNodes) (engine : Result Refused Text) (p : Placed) : Type 0 where
    pub teams_of : p.team_nodes ≡ placed
    pub engine_of : engine ≡ ok p.engine_node
    pub few : length (other_nodes prefer p.engine_node placed) ≤ max_satellites
    pub slots_of : p.slots ≡ number_from 0 (p.engine_node ∷ other_nodes prefer p.engine_node placed)
    pub satellites_of :
        satellites_from records teams engine_vmid placed 1 []
          (other_nodes prefer p.engine_node placed)
        ≡ ok p.satellites
    pub blocks :
        check_team_blocks (to_record engine_vmid teams p) (map (λ t. (t.key, t.number)) teams)
        ≡ ok tt

  checked-eq-ok :
      (p q : Placed) (r : Result BlockClash (Unit {0})) → checked p r ≡ ok q → (p ≡ q) × (r ≡ ok tt)
  unfolding checked
  checked-eq-ok p q (ok tt) h = (cc, refl)
  checked-eq-ok p q (err c) h = cc

  finish-Built :
      (engine : Text) (placed : TeamNodes) (satellites : Result Refused (List SatelliteNode))
      (p : Placed)
      → length (other_nodes prefer engine placed) ≤ max_satellites
      → satellites_from records teams engine_vmid placed 1 [] (other_nodes prefer engine placed)
        ≡ satellites
      → finish records teams engine_vmid engine (other_nodes prefer engine placed) placed satellites
        ≡ ok p
      → Built placed (ok engine) p
  unfolding finish
  finish-Built engine placed (err e) p few made h = cc
  finish-Built engine placed (ok satellites) p few made h =
      let both = checked-eq-ok _ p _ h in
      rw (sym both.0) (record {
        teams_of = refl;
        engine_of = refl;
        few = few;
        slots_of = refl;
        satellites_of = made;
        blocks = both.1;
      })

  pub build-Built :
      (placed : TeamNodes) (engine : Result Refused Text) (p : Placed)
      → build records teams engine_vmid prefer placed engine ≡ ok p
      → Built placed engine p
  unfolding build
  build-Built placed (err e) p h = cc
  build-Built placed (ok engine) p h =
      let others = other_nodes prefer engine placed in
      elim (Bool-cases (ltb max_satellites (length others))) [
        | inl f ↦ let q = rw (build, f) at h in cc
        | inr f ↦ finish-Built engine placed _ p (ground arith) refl (rw (build, f) at h)
      ]

module _ {W F : Type 0} (scaled : ℕ → ℕ → W → F) (float_ltb : F → F → Bool) where
  module _ (records : List (Node W)) (teams : List Team) (engine_vmid : ℕ) (prefer : List Text)
      (boxes : List Box) (probes : Text → Probe) where
    -- What is returned comes from the overrides and the loop, which left no team.
    pub compute_placement-Built :
        (team_overrides : List (Text × Text)) (engine_override : Text) (p : Placed)
        → compute_placement scaled float_ltb records teams engine_vmid prefer boxes probes
            team_overrides engine_override
          ≡ ok p
        → (overrides : TeamNodes) × (resolve_overrides (node_names records) teams team_overrides []
            ≡ ok overrides)
          × (is_empty
                (fill_nodes scaled float_ltb records prefer boxes probes teams overrides).skipped
              ≡ true)
          × Built records teams engine_vmid prefer
              (fill_nodes scaled float_ltb records prefer boxes probes teams overrides).placed
              (engine_node records prefer probes engine_override
                (fill_nodes scaled float_ltb records prefer boxes probes teams overrides).placed)
              p
    unfolding compute_placement after_fill
    compute_placement-Built team_overrides engine_override p h =
        elim (Result-cases (resolve_overrides (node_names records) teams team_overrides [])) [
          | inr (x, e) ↦ let q = rw (compute_placement, e) at h in cc
          | inl (overrides, e) ↦
              let l : Ledger =
                fill_nodes scaled float_ltb records prefer boxes probes teams overrides in
              let h1 : after_fill scaled float_ltb records teams engine_vmid prefer boxes probes
                    engine_override l
                  ≡ ok p =
                rw (compute_placement, e) at h in
              elim (Bool-cases (is_empty l.skipped)) [
                | inr f ↦ let q = rw (after_fill, f) at h1 in cc
                | inl f ↦ (
                  overrides,
                  e,
                  f,
                  build-Built records teams engine_vmid prefer l.placed _ p
                      (rw (after_fill, f) at h1),
                )
              ]
        ]
