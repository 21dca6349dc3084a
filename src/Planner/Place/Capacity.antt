-- ===== src/Planner/Place/Capacity.antt =====
-- multinode/placement_planner.py: when the nodes have places for all teams, none is skipped.
use tezcatlipoca.Base.{
  ℕ, suc, ◌+◌, ◌≤◌, Bool, false, ◌≡◌, refl, inl, inr, List, [], ◌∷◌, map, arith, if◌then◌else◌, All,
  all_All, keep, length, contains, Text, text_beq_iff, text_eq,
}
use tezcatlipoca.Base.Dict.{put, keys, IsDict}
use tezcatlipoca.Planner.{Node, Team, Box, Probe}
use tezcatlipoca.Planner.Place.{
  TeamNodes, Ledger, node_names, teams_at, is_ready, eligible, place_team, place_teams, unplaced,
  fill_nodes, started,
}
use tezcatlipoca.Planner.Place.Overrides.{AreTeams, dict-teams, keep-split, length-map}
use tezcatlipoca.Planner.Place.Step.{place_team-cases}

module _ {W : Type 0} where
  -- no two records have one name
  unfoldable pub HasOwnNames : List (Node W) → Type 0
  HasOwnNames [] = Unit
  HasOwnNames (r ∷ rs) = (contains (node_names rs) r.name ≡ false) × HasOwnNames rs

  -- the teams on the nodes of the records
  loads : TeamNodes → List (Node W) → ℕ
  loads placed [] = 0
  loads placed (r ∷ rs) = teams_at r.name placed + loads placed rs

  loads-nil : (rs : List (Node W)) → loads [] rs ≡ 0
  unfolding loads teams_at keep
  loads-nil [] = refl
  loads-nil (r ∷ rs) = ground (arith, loads-nil rs)

  loads-cons :
      (key n : Text) (d : TeamNodes) (rs : List (Node W))
      → HasOwnNames rs
      → loads ((key, n) ∷ d) rs ≡ (if contains (node_names rs) n then 1 else 0) + loads d rs
  unfolding loads teams_at keep contains HasOwnNames
  loads-cons key n d [] h = refl
  loads-cons key n d (r ∷ rs) h =
      ground (arith, loads-cons key n d rs h.1, text_beq_iff r.name n, text_beq_iff n r.name)

  -- With names of their own the records count no team twice.
  loads-length : (rs : List (Node W)) (d : TeamNodes) → HasOwnNames rs → loads d rs ≤ length d
  loads-length rs [] h = ground (arith, loads-nil rs)
  loads-length rs ((key, n) ∷ d) h = ground (arith, loads-cons key n d rs h, loads-length rs d h)

  module _ (boxes : List Box) (probes : Text → Probe) where
    -- the places of the ready nodes
    unfoldable pub capacity : List (Node W) → ℕ
    capacity [] = 0
    capacity (r ∷ rs) = (if is_ready boxes probes r then r.max_teams else 0) + capacity rs

    full-loads :
        (placed : TeamNodes) (rs : List (Node W))
        → All (λ r. eligible boxes probes placed r ≡ false) rs
        → capacity rs ≤ loads placed rs
    unfolding loads capacity eligible
    full-loads placed [] h = ground arith
    full-loads placed (r ∷ rs) h = ground (arith, full-loads placed rs h.1, h.0)

length-put : (k v : Text) (d : TeamNodes) → length (put k v d) ≤ suc (length d)
unfolding put
length-put k v [] = ground arith
length-put k v ((j, w) ∷ d) = ground (arith, length-put k v d)

module _ {W F : Type 0} (scaled : ℕ → ℕ → W → F) (float_ltb : F → F → Bool) where
  module _ (records : List (Node W)) (prefer : List Text) (boxes : List Box)
      (probes : Text → Probe) where
    place_teams-capacity :
        (rest : List Text) (l : Ledger)
        → HasOwnNames records
        → length l.placed + length rest ≤ capacity boxes probes records
        → l.skipped ≡ []
        → (place_teams scaled float_ltb records prefer boxes probes rest l).skipped ≡ []
    unfolding place_teams
    place_teams-capacity [] l h room s = s
    place_teams-capacity (key ∷ rest) l h room s =
        elim (place_team-cases scaled float_ltb records prefer boxes probes (λ r. Unit) key l
          (all_All _ (λ r. tt) records)) [
            | inl (e, full) ↦ ground (
              arith,
              full-loads boxes probes l.placed records full,
              loads-length records l.placed h,
            )
            | inr (r, u, el, e) ↦
                place_teams-capacity rest
                  (place_team scaled float_ltb records prefer boxes probes key l) h
                  (rw e (ground (arith, length-put key r.name l.placed))) (rw e s)
          ]

    -- Records with names of their own whose ready nodes have a place for each team leave no team
    -- without a node.
    pub fill_nodes_complete :
        (teams : List Team) (placed : TeamNodes)
        → HasOwnNames records
        → length teams ≤ capacity boxes probes records
        → IsDict placed
        → AreTeams teams placed
        → (fill_nodes scaled float_ltb records prefer boxes probes teams placed).skipped ≡ []
    unfolding fill_nodes unplaced started
    fill_nodes_complete teams placed h room d a =
        place_teams-capacity (unplaced scaled float_ltb records prefer boxes probes teams placed) _
          h
          (ground (
            arith,
            dict-teams teams placed d a,
            keep-split (contains (keys placed)) (map (λ t. t.key) teams),
            length-map (λ t. t.key) teams,
          ))
          refl
