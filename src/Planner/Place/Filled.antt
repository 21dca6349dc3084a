-- ===== src/Planner/Place/Filled.antt =====
-- multinode/placement_planner.py: where the loop of `compute_placement` has put the teams.
use tezcatlipoca.Base.{
  ℕ, suc, ◌≤◌, Bool, true, false, not, ◌&&◌, ◌≡◌, refl, ap, ◌∙◌, inl, inr, ◌⊎◌, none, some, List,
  [], ◌∷◌, ◌++◌, map, arith, if◌then◌else◌, All, All-map, all_All, any, keep, is_empty, contains,
  beq_refl, Text, text_beq, text_beq_iff, text_eq, Bool-cases,
}
use tezcatlipoca.Base.Dict.{put, lookup, lookup-put, keys}
use tezcatlipoca.Planner.{Node, Team, Box, Probe}
use tezcatlipoca.Planner.Place.{
  TeamNodes, Ledger, teams_at, is_ready, eligible, place_team, place_teams, unplaced, fill_nodes,
  started,
}
use tezcatlipoca.Planner.Place.Entries.{
  member-any, is_empty-append, keep-then, contains-keep, All-unmap, has-value, has-no-value,
}
use tezcatlipoca.Planner.Place.Step.{place_team-cases}

teams_at-put :
    (name k n : Text) (d : TeamNodes)
    → teams_at name (put k n d)
      ≤ (if text_beq n name then suc (teams_at name d) else teams_at name d)
unfolding teams_at keep put
teams_at-put name k n [] = ground arith
teams_at-put name k n ((j, w) ∷ d) = ground (arith, teams_at-put name k n d)

module _ {W : Type 0} (boxes : List Box) (probes : Text → Probe) (records : List (Node W)) where
  -- a ready node has the name
  pub is_ready_name : Text → Bool
  is_ready_name name = any (λ r. text_beq r.name name && is_ready boxes probes r) records

  ready-named : All (λ r. is_ready boxes probes r ≡ true → is_ready_name r.name ≡ true) records
  unfolding is_ready_name
  ready-named =
      All-map _ _ (λ r g h. g (ground (arith, beq_refl r.name, h))) records
        (member-any (λ r q. text_beq q.name r.name && is_ready boxes probes q) records)

  -- the team is on a ready node
  pub Seated : TeamNodes → Text → Type 0
  Seated placed key = (n : Text) × (lookup key placed ≡ some n) × (is_ready_name n ≡ true)

  put-Seated :
      (placed : TeamNodes) (k n key : Text)
      → is_ready_name n ≡ true
      → Seated placed key
      → Seated (put k n placed) key
  unfolding Seated
  put-Seated placed k n key h (m, found, ready) = elim (Bool-cases (text_beq k key)) [
    | inl e ↦ (n, ground (arith, lookup-put k key n placed), h)
    | inr e ↦ (m, ground (arith, lookup-put k key n placed), ready)
  ]

module _ {W : Type 0} (boxes : List Box) (probes : Text → Probe) where
  eligible-is_ready :
      (placed : TeamNodes) (r : Node W)
      → eligible boxes probes placed r ≡ true
      → is_ready boxes probes r ≡ true
  unfolding eligible
  eligible-is_ready placed r h = ground arith

  put-bound :
      (name key : Text) (m : ℕ) (d : TeamNodes) (r : Node W)
      → teams_at name d ≤ m
      → (text_beq r.name name ≡ true → r.max_teams ≤ m)
      → eligible boxes probes d r ≡ true
      → teams_at name (put key r.name d) ≤ m
  unfolding eligible
  put-bound name key m d r h cap el = elim (Bool-cases (text_beq r.name name)) [
    | inl e ↦
        let same = ap (λ n. teams_at n d) ((text_beq_iff r.name name).0 e) in
        ground (arith, teams_at-put name key r.name d, cap e, same)
    | inr e ↦ ground (arith, teams_at-put name key r.name d)
  ]

module _ {W F : Type 0} (scaled : ℕ → ℕ → W → F) (float_ltb : F → F → Bool) where
  module _ (records : List (Node W)) (prefer : List Text) (boxes : List Box)
      (probes : Text → Probe) where
    -- A bound on the teams of a name is kept that the overrides and the records of the name respect.
    place_teams-bound :
        (name : Text) (m : ℕ) (rest : List Text) (l : Ledger)
        → All (λ r. text_beq r.name name ≡ true → r.max_teams ≤ m) records
        → teams_at name l.placed ≤ m
        → teams_at name (place_teams scaled float_ltb records prefer boxes probes rest l).placed ≤ m
    unfolding place_teams
    place_teams-bound name m [] l caps h = h
    place_teams-bound name m (key ∷ rest) l caps h =
        elim (place_team-cases scaled float_ltb records prefer boxes probes _ key l caps) [
          | inl (e, full) ↦ place_teams-bound name m rest _ caps (rw e h)
          | inr (r, cap, el, e) ↦
              place_teams-bound name m rest _ caps
                (rw e (put-bound boxes probes name key m l.placed r h cap el))
        ]

    place_teams-skips :
        (rest : List Text) (l : Ledger)
        → is_empty (place_teams scaled float_ltb records prefer boxes probes rest l).skipped ≡ true
        → is_empty l.skipped ≡ true
    unfolding place_teams
    place_teams-skips [] l h = h
    place_teams-skips (key ∷ rest) l h =
        let later = place_teams-skips rest _ h in
        elim (place_team-cases scaled float_ltb records prefer boxes probes (λ r. Unit) key l
          (all_All _ (λ r. tt) records)) [
            | inl (e, full) ↦
                let q : is_empty (l.skipped ++ key ∷ []) ≡ true = rw e at later in
                ground (arith, is_empty-append l.skipped key)
            | inr (r, u, el, e) ↦ rw e at later
          ]

    place_teams-keeps :
        (key : Text) (rest : List Text) (l : Ledger)
        → Seated boxes probes records l.placed key
        → Seated boxes probes records
            (place_teams scaled float_ltb records prefer boxes probes rest l).placed
            key
    unfolding place_teams
    place_teams-keeps key [] l h = h
    place_teams-keeps key (k ∷ rest) l h =
        elim (place_team-cases scaled float_ltb records prefer boxes probes _ k l
          (ready-named boxes probes records)) [
            | inl (e, full) ↦ place_teams-keeps key rest _ (rw e h)
            | inr (r, named, el, e) ↦ place_teams-keeps key rest _ (
                rw e (
                  put-Seated boxes probes records l.placed k r.name key
                    (named (eligible-is_ready boxes probes l.placed r el)) h))
          ]

    place_teams-Seated :
        (rest : List Text) (l : Ledger)
        → is_empty (place_teams scaled float_ltb records prefer boxes probes rest l).skipped ≡ true
        → All
            (Seated boxes probes records
              (place_teams scaled float_ltb records prefer boxes probes rest l).placed)
            rest
    unfolding place_teams Seated
    place_teams-Seated [] l h = tt
    place_teams-Seated (key ∷ rest) l h =
        let later = place_teams-skips rest _ h in
        elim (place_team-cases scaled float_ltb records prefer boxes probes _ key l
          (ready-named boxes probes records)) [
            | inl (e, full) ↦
                let q : is_empty (l.skipped ++ key ∷ []) ≡ true = rw e at later in
                ground (arith, is_empty-append l.skipped key)
            | inr (r, named, el, e) ↦ (
              place_teams-keeps key rest _ (
                  rw e (
                    r.name,
                    ground (arith, lookup-put key key r.name l.placed, beq_refl key),
                    named (eligible-is_ready boxes probes l.placed r el),
                  )),
              place_teams-Seated rest _ h,
            )
          ]

    place_teams-fixed :
        (key : Text) (rest : List Text) (l : Ledger)
        → contains rest key ≡ false
        → lookup key (place_teams scaled float_ltb records prefer boxes probes rest l).placed
          ≡ lookup key l.placed
    unfolding place_teams contains
    place_teams-fixed key [] l h = refl
    place_teams-fixed key (k ∷ rest) l h =
        let later =
          place_teams-fixed key rest (place_team scaled float_ltb records prefer boxes probes k l)
            (ground arith) in
        elim (place_team-cases scaled float_ltb records prefer boxes probes (λ r. Unit) k l
          (all_All _ (λ r. tt) records)) [
            | inl (e, full) ↦ later ∙ ap (λ x. lookup key x.placed) e
            | inr (r, u, el, e) ↦
                later
                ∙ ap (λ x. lookup key x.placed) e
                ∙ ground (arith, lookup-put k key r.name l.placed)
          ]

    -- No name gets more teams than a bound that the overrides and the records of the name respect.
    pub fill_nodes-bound :
        (teams : List Team) (placed : TeamNodes) (name : Text) (m : ℕ)
        → All (λ r. text_beq r.name name ≡ true → r.max_teams ≤ m) records
        → teams_at name placed ≤ m
        → teams_at name
            (fill_nodes scaled float_ltb records prefer boxes probes teams placed).placed
          ≤ m
    unfolding fill_nodes started
    fill_nodes-bound teams placed name m caps h =
        place_teams-bound name m
          (unplaced scaled float_ltb records prefer boxes probes teams placed)
          (started scaled float_ltb records prefer boxes probes placed) caps h

    -- the node of a team: that of its override, or else a ready one
    pub Assigned : TeamNodes → TeamNodes → Text → Type 0
    Assigned placed final key =
        (n : Text) × (lookup key final ≡ some n)
        × ((lookup key placed ≡ some n)
            ⊎ ((lookup key placed ≡ none) × (is_ready_name boxes probes records n ≡ true)))

    -- When the loop leaves no team out, each has its node.
    pub fill_nodes-Assigned :
        (teams : List Team) (placed : TeamNodes)
        → is_empty (fill_nodes scaled float_ltb records prefer boxes probes teams placed).skipped
          ≡ true
        → All
            (λ t.
              Assigned placed
                (fill_nodes scaled float_ltb records prefer boxes probes teams placed).placed
                t.key)
            teams
    unfolding fill_nodes unplaced started Assigned Seated
    fill_nodes-Assigned teams placed h =
        let keys_of = map (λ t. t.key) teams in
        let rest : List Text = unplaced scaled float_ltb records prefer boxes probes teams placed in
        let before : Ledger = started scaled float_ltb records prefer boxes probes placed in
        let test : Text → Bool = λ key. not (contains (keys placed) key) in
        All-unmap _ (λ t. t.key) teams
          (All-map _ _
            (λ key seat. elim (Bool-cases (contains (keys placed) key)) [
              | inl e ↦
                  let own = has-value key placed e in
                  (
                    own.0,
                    place_teams-fixed key rest before
                          (contains-keep test keys_of key (ground arith))
                        ∙ own.1,
                    inl own.1,
                  )
              | inr e ↦
                  let s = seat (ground arith) in (s.0, s.1, inr (has-no-value key placed e, s.2))
            ])
            (map (λ t. t.key) teams)
            (keep-then _ test (map (λ t. t.key) teams) (place_teams-Seated rest before h)))
