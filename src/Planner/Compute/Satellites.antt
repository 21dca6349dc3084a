-- ===== src/Planner/Compute/Satellites.antt =====
-- multinode/placement_planner.py: the satellites that `compute_placement` returns.
use tezcatlipoca.Base.{
  ℕ, suc, ◌≤◌, Bool, true, ◌&&◌, ◌||◌, ◌≡◌, refl, sym, ap, ◌∙◌, inl, inr, ◌⊎◌, none, List, [], ◌∷◌,
  map, arith, if◌then◌else◌, All, All-map, All-zip, any, keep, find, contains, length, Text,
  text_beq, text_beq_iff, text_eq, Bool-cases, Option-cases,
}
use tezcatlipoca.Base.Actions.{Result, ok, err}
use tezcatlipoca.Base.Dict.{lookup, IsDict}
use tezcatlipoca.Vmids.{max_satellites, reserved_vmids}
use tezcatlipoca.Vmids.Blocks.{IsFree, check_team_blocks_iff}
use tezcatlipoca.Planner.{Node, Team, Box, Probe}
use tezcatlipoca.Planner.Place.{TeamNodes, Refused}
use tezcatlipoca.Planner.Place.Overrides.{length-map}
use tezcatlipoca.Planner.Compute.{
  Placed, SatelliteNode, to_record, insert_preferred, other_nodes, jump_of, satellites_from,
  onto_satellites, compute_placement,
}
use tezcatlipoca.Planner.Compute.Parts.{compute_placement-Built}

contains-insert_preferred :
    (prefer : List Text) (n : Text) (ms : List Text) (m : Text)
    → contains (insert_preferred prefer n ms) m ≡ (text_beq n m || contains ms m)
unfolding insert_preferred contains
contains-insert_preferred prefer n [] m = refl
contains-insert_preferred prefer n (k ∷ ks) m =
    ground (arith, contains-insert_preferred prefer n ks m, text_beq_iff n k)

contains-other_nodes :
    (prefer : List Text) (engine key n : Text) (placed : TeamNodes) (m : Text)
    → contains (other_nodes prefer engine ((key, n) ∷ placed)) m ≡ (
        if text_beq n engine
        then contains (other_nodes prefer engine placed) m
        else text_beq n m || contains (other_nodes prefer engine placed) m)
unfolding other_nodes contains
contains-other_nodes prefer engine key n placed m =
    ground (arith, contains-insert_preferred prefer n (other_nodes prefer engine placed) m)

-- the nodes of the teams are the engine's and the others
other_nodes-All :
    (prefer : List Text) (engine : Text) (placed : TeamNodes)
    → All (λ q. (q.1 ≡ engine) ⊎ (contains (other_nodes prefer engine placed) q.1 ≡ true)) placed
other_nodes-All prefer engine [] = tt
other_nodes-All prefer engine ((key, n) ∷ placed) =
    let member = contains-other_nodes prefer engine key n placed in
    (
      elim (Bool-cases (text_beq n engine)) [
        | inl e ↦ inl ((text_beq_iff n engine).0 e)
        | inr e ↦ inr (ground (arith, member n, text_beq_iff n n))
      ],
      All-map _ _
          (λ q side. elim side [ inl own ↦ inl own | inr other ↦ inr (ground (arith, member q.1)) ])
          placed (other_nodes-All prefer engine placed),
    )

-- the keys of a node's teams
node_teams : TeamNodes → Text → List Text
unfolding keep
node_teams placed name = map (λ p. p.0) (keep (λ p. text_beq p.1 name) placed)

node_teams-All :
    (placed : TeamNodes) → All (λ q. contains (node_teams placed q.1) q.0 ≡ true) placed
unfolding node_teams contains keep
node_teams-All [] = tt
node_teams-All ((key, n) ∷ placed) = (
  ground (arith, text_beq_iff n n, text_beq_iff key key),
  All-map _ _ (λ q h. ground (arith, h)) placed (node_teams-All placed),
)

ips : List SatelliteNode → List (Text × Text)
ips = map (λ s. (s.jump_mgmt_ip, s.name))

ips-none :
    (ip name : Text) (seen : List (Text × Text)) (ss : List SatelliteNode)
    → All (λ s. lookup s.jump_mgmt_ip ((ip, name) ∷ seen) ≡ none) ss
    → lookup ip (ips ss) ≡ none
unfolding ips lookup
ips-none ip name seen [] h = refl
ips-none ip name seen (s ∷ ss) h = ground (
  arith,
  ips-none ip name seen ss h.1,
  h.0,
  text_beq_iff ip s.jump_mgmt_ip,
  text_beq_iff s.jump_mgmt_ip ip,
)

lookup_tail :
    (ip name other : Text) (seen : List (Text × Text))
    → lookup other ((ip, name) ∷ seen) ≡ none
    → lookup other seen ≡ none
unfolding lookup
lookup_tail ip name other seen h = ground arith

-- a name of the satellites is one's whose teams are those of the node
any-Made :
    (key n : Text) (placed : TeamNodes) (ss : List SatelliteNode)
    → All (λ s. s.teams ≡ node_teams placed s.name) ss
    → contains (map (λ s. s.name) ss) n ≡ true
    → contains (node_teams placed n) key ≡ true
    → any (λ s. text_beq s.name n && contains s.teams key) ss ≡ true
unfolding any contains
any-Made key n placed [] h m c = cc
any-Made key n placed (s ∷ ss) h m c = elim (Bool-cases (text_beq s.name n)) [
  | inl e ↦
      let same : s.teams ≡ node_teams placed n =
        h.0 ∙ ap (node_teams placed) ((text_beq_iff s.name n).0 e) in
      let has : contains s.teams key ≡ true = rw same c in ground arith
  | inr e ↦ ground (arith, any-Made key n placed ss h.1)
]

onto-eq-ok :
    (s : SatelliteNode) (r : Result Refused (List SatelliteNode)) (ss : List SatelliteNode)
    → onto_satellites s r ≡ ok ss
    → (rest : List SatelliteNode) × (r ≡ ok rest) × (ss ≡ s ∷ rest)
unfolding onto_satellites
onto-eq-ok s (ok rest) ss h = (rest, refl, cc)
onto-eq-ok s (err e) ss h = cc

module _ {W : Type 0} (records : List (Node W)) (teams : List Team) (engine_vmid : ℕ) where
  -- the satellites stand for the names, with addresses of their own and the teams of their nodes
  record Made (placed : TeamNodes) (seen : List (Text × Text)) (names : List Text)
      (ss : List SatelliteNode) : Type 0 where
    pub names_of : map (λ s. s.name) ss ≡ names
    pub own_ips : IsDict (ips ss)
    pub unseen : All (λ s. lookup s.jump_mgmt_ip seen ≡ none) ss
    pub their_teams : All (λ s. s.teams ≡ node_teams placed s.name) ss

  satellites_from-Made :
      (placed : TeamNodes) (slot : ℕ) (seen : List (Text × Text)) (names : List Text)
      (ss : List SatelliteNode)
      → satellites_from records teams engine_vmid placed slot seen names ≡ ok ss
      → Made placed seen names ss
  unfolding satellites_from ips node_teams
  satellites_from-Made placed slot seen [] ss h =
      let q : [] ≡ ss = cc in
      rw (sym q) (record { names_of = refl; own_ips = tt; unseen = tt; their_teams = tt })
  satellites_from-Made placed slot seen (name ∷ names) ss h =
      elim (Option-cases (find (λ r. text_beq r.name name) records)) [
        | inl e ↦ let q = rw (satellites_from, e) at h in cc
        | inr (rec, e) ↦ elim (Option-cases (jump_of rec.jump_mgmt_ip slot)) [
          | inl f ↦ let q = rw (satellites_from, e, f) at h in cc
          | inr (ip, f) ↦ elim (Option-cases (lookup ip seen)) [
            | inr (first, g) ↦ let q = rw (satellites_from, e, f, g) at h in cc
            | inl g ↦
                let parts = onto-eq-ok _ _ ss (rw (satellites_from, e, f, g) at h) in
                let rest =
                  satellites_from-Made placed (suc slot) ((ip, name) ∷ seen) names parts.0
                    parts.1 in
                rw parts.2 (record {
                  names_of = ap (λ ns. name ∷ ns) rest.names_of;
                  own_ips = (ips-none ip name seen parts.0 rest.unseen, rest.own_ips);
                  unseen = (
                    g,
                    All-map _ _ (λ s u. lookup_tail ip name s.jump_mgmt_ip seen u) parts.0
                        rest.unseen,
                  );
                  their_teams = (refl, rest.their_teams);
                })
          ]
        ]
      ]

module _ {W F : Type 0} (scaled : ℕ → ℕ → W → F) (float_ltb : F → F → Bool) where
  module _ (records : List (Node W)) (teams : List Team) (engine_vmid : ℕ) (prefer : List Text)
      (boxes : List Box) (probes : Text → Probe) (team_overrides : List (Text × Text))
      (engine_override : Text) where
    -- When `compute_placement` returns, there are at most MAX_SATELLITES satellites, no two have one
    -- address for their jump, each team is on the engine's node or among the teams of the satellite
    -- of its node, and no vmid of a team's block is one that the placement reserves.
    pub compute_placement-satellites :
        (p : Placed)
        → compute_placement scaled float_ltb records teams engine_vmid prefer boxes probes
            team_overrides engine_override
          ≡ ok p
        → (length p.satellites ≤ max_satellites)
          × IsDict (map (λ s. (s.jump_mgmt_ip, s.name)) p.satellites)
          × All
              (λ q.
                (q.1 ≡ p.engine_node)
                ⊎ (any (λ s. text_beq s.name q.1 && contains s.teams q.0) p.satellites ≡ true))
              p.team_nodes
          × All {A = Text × ℕ}
              (λ t. IsFree (reserved_vmids (to_record engine_vmid teams p)) t.1)
              (map (λ t. (t.key, t.number)) teams)
    unfolding ips
    compute_placement-satellites p h =
        let b =
          (compute_placement-Built scaled float_ltb records teams engine_vmid prefer boxes probes
            team_overrides engine_override p h).3 in
        let made =
          satellites_from-Made records teams engine_vmid _ 1 [] _ p.satellites b.satellites_of in
        let few : length p.satellites ≤ max_satellites =
          let count = ap length made.names_of in
          ground (arith, count, b.few, length-map (λ s. s.name) p.satellites) in
        let seat =
          All-zip _ _ _
            (λ q side c. elim side [
              | inl own ↦ inl own
              | inr other ↦
                  inr (any-Made q.0 q.1 _ p.satellites made.their_teams (rw made.names_of other) c)
            ])
            _ (other_nodes-All prefer p.engine_node _) (node_teams-All _) in
        (few, made.own_ips, rw b.teams_of seat, (check_team_blocks_iff _ _).0 b.blocks)
