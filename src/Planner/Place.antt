-- ===== src/Planner/Place.antt =====
-- multinode/placement_planner.py: `compute_placement`. The probes are those of the nodes by name.
-- Python's floats are any type: `scaled mem taken w` is `(mem - taken) * w`, and `float_ltb` is `<`.
pub mod Step
pub mod Overrides
pub mod Capacity
pub mod Entries
pub mod Filled
use tezcatlipoca.Base.{
  ℕ, zero, suc, ◌+◌, ◌-◌, ◌*◌, Bool, true, false, not, ◌&&◌, ◌||◌, ◌==◌, Option, none, some, List,
  [], ◌∷◌, ◌++◌, map, if◌then◌else◌, any, find, keep, contains, subset, is_empty, length, nat_beq,
  ltb, leb, text_ltb, Text, text, text_beq, text_eq, nat_eq,
}
use tezcatlipoca.Base.Actions.{Result, ok, err}
use tezcatlipoca.Base.Dict.{lookup, put, keys, remove}
use tezcatlipoca.Vmids.{
  Placement, BlockClash, jump_vmid_for, default_jump_octet, max_satellites, check_team_blocks,
}
use tezcatlipoca.Preflight.{numeral}
use tezcatlipoca.Planner.{Node, Team, Box, Probe, team_reservation_mb}

-- by team key, the name of a node
abbrev pub TeamNodes : Type 0
TeamNodes = List (Text × Text)

pub data Refused : Type 0 where
  unknown_team : (identifier : Text) → Refused
  unknown_node : (name : Text) → Refused
  -- no node may take these teams
  no_node : (teams : List Text) → Refused
  -- there is no node at all
  no_nodes : Refused
  too_many_satellites : (count : ℕ) → Refused
  no_jump_address : (slot : ℕ) → Refused
  duplicate_jump : (ip first second : Text) → Refused
  blocks_clash : (found : BlockClash) → Refused

-- {v: k}: the last team of those with one identifier
by_identifier : List (Text × Text) → List Team → List (Text × Text)
unfolding put
by_identifier found [] = found
by_identifier found (t ∷ ts) = by_identifier (put t.identifier t.key found) ts

has_team : Text → List Team → Bool
unfolding any
has_team key = any (λ t. text_beq t.key key)

abbrev pub node_names : {W : Type 0} → List (Node W) → List Text
node_names = map (λ r. r.name)

unfoldable pub resolve_one :
    List Text → List Team → Text → Text → TeamNodes → Result Refused TeamNodes
unfolding by_identifier has_team put contains lookup
resolve_one known teams ident name resolved =
    let key : Text = elim (lookup ident (by_identifier [] teams)) [ none ↦ ident | some k ↦ k ] in
    if not (has_team key teams)
    then err (unknown_team ident)
    else if not (contains known name)
    then err (unknown_node name)
    else ok (put key name resolved)

unfoldable pub resolve_overrides :
    List Text → List Team → List (Text × Text) → TeamNodes → Result Refused TeamNodes
unfolding resolve_one
resolve_overrides known teams [] resolved = ok resolved
resolve_overrides known teams ((ident, name) ∷ rest) resolved =
    elim (resolve_one known teams ident name resolved) [
      | ok resolved' ↦ resolve_overrides known teams rest resolved'
      | err e ↦ err e
    ]

-- how many teams a node has
unfoldable pub teams_at : Text → TeamNodes → ℕ
unfolding keep
teams_at name placed = length (keep (λ p. text_beq p.1 name) placed)

-- the index in `prefer`, or its length
unfoldable pub prefer_index : Text → List Text → ℕ
prefer_index name [] = 0
prefer_index name (p ∷ prefer) =
    let rest = prefer_index name prefer in if text_beq p name then 0 else suc rest

reserved_at : Text → List (Text × ℕ) → ℕ
unfolding lookup
reserved_at name reserved = elim (lookup name reserved) [ none ↦ 0 | some mb ↦ mb ]

pub reserve : Text → ℕ → List (Text × ℕ) → List (Text × ℕ)
unfolding reserved_at put
reserve name mb reserved = put name (reserved_at name reserved + mb) reserved

reserve_all : ℕ → TeamNodes → List (Text × ℕ) → List (Text × ℕ)
unfolding reserve
reserve_all mb [] reserved = reserved
reserve_all mb ((key, name) ∷ placed) reserved = reserve_all mb placed (reserve name mb reserved)

mem_of : Probe → ℕ
mem_of p = elim p.mem_free_bytes [ none ↦ 0 | some m ↦ m ]

-- the first of the least by a strict order: the head of the sorted list
pub least_by : {A : Type 0} → (A → A → Bool) → List A → Option A
least_by before [] = none
least_by before (x ∷ xs) = elim (least_by before xs) [
  | none ↦ some x
  | some y ↦ some (if before y x then y else x)
]

-- `a` before `b` by preference and then by name
unfoldable pub preferred_before : List Text → Text → Text → Bool
unfolding prefer_index text_ltb
preferred_before prefer a b =
    let i = prefer_index a prefer in
    let j = prefer_index b prefer in ltb i j || nat_beq i j && text_ltb a b

-- the placed and the memory reserved so far
pub record Ledger : Type 0 where
  pub placed : TeamNodes
  pub reserved : List (Text × ℕ)
  pub skipped : List Text

module _ {W : Type 0} (boxes : List Box) (probes : Text → Probe) where
  -- the node is well and has the templates, however full it is
  unfoldable pub is_ready : Node W → Bool
  unfolding subset
  is_ready rec =
      (probes rec.name).ok
      && subset (map (λ b. b.template) boxes) (keys (probes rec.name).templates)

  pub eligible : TeamNodes → Node W → Bool
  unfolding is_ready teams_at
  eligible placed rec = is_ready rec && ltb (teams_at rec.name placed) rec.max_teams

module _ {W F : Type 0} (scaled : ℕ → ℕ → W → F) (float_ltb : F → F → Bool) where
  module _ (records : List (Node W)) (prefer : List Text) (boxes : List Box)
      (probes : Text → Probe) where
    eff_free : List (Text × ℕ) → Node W → F
    unfolding mem_of reserved_at
    eff_free reserved rec =
        let jump_mb = if ltb 1 (length records) then 512 else 0 in
        scaled (mem_of (probes rec.name))
          (reserved_at rec.name reserved * 1048576 + jump_mb * 1048576) rec.weight

    -- more headroom first
    roomier : List (Text × ℕ) → Node W → Node W → Bool
    unfolding eff_free preferred_before
    roomier reserved a b =
        let fa = eff_free reserved a in
        let fb = eff_free reserved b in
        float_ltb fb fa || not (float_ltb fa fb) && preferred_before prefer a.name b.name

    place_on : Option (Node W) → Text → Ledger → Ledger
    unfolding put reserve team_reservation_mb
    place_on none key l = record l { skipped = l.skipped ++ key ∷ [] }
    place_on (some rec) key l = record l {
      placed = put key rec.name l.placed;
      reserved = reserve rec.name (team_reservation_mb boxes) l.reserved;
    }

    pub place_team : Text → Ledger → Ledger
    unfolding place_on least_by roomier keep eligible
    place_team key l =
        place_on (least_by (roomier l.reserved) (keep (eligible boxes probes l.placed) records)) key
          l

    pub place_teams : List Text → Ledger → Ledger
    unfolding place_team
    place_teams [] l = l
    place_teams (key ∷ rest) l = place_teams rest (place_team key l)

    -- the teams that no override places, in order: all have the same reservation
    pub unplaced : List Team → TeamNodes → List Text
    unfolding keep contains
    unplaced teams placed = keep (λ key. not (contains (keys placed) key)) (map (λ t. t.key) teams)

    -- the state before the loop
    started : TeamNodes → Ledger
    unfolding reserve_all team_reservation_mb
    started placed = record {
      placed = placed;
      reserved = reserve_all (team_reservation_mb boxes) placed [];
      skipped = [];
    }

    -- the node teams after the loop, from those of the overrides
    unfoldable pub fill_nodes : List Team → TeamNodes → Ledger
    unfolding place_teams unplaced started
    fill_nodes teams placed = place_teams (unplaced teams placed) (started placed)

maximum_of : List ℕ → ℕ
maximum_of [] = 0
maximum_of (n ∷ ns) = let m = maximum_of ns in if ltb m n then n else m

module _ {W : Type 0} (records : List (Node W)) (prefer : List Text) (probes : Text → Probe) where
  -- preference, then more free memory, then the name
  engine_before : Node W → Node W → Bool
  unfolding prefer_index mem_of text_ltb
  engine_before a b =
      let i = prefer_index a.name prefer in
      let j = prefer_index b.name prefer in
      let ma = mem_of (probes a.name) in
      let mb = mem_of (probes b.name) in
      ltb i j || nat_beq i j && (ltb mb ma || nat_beq ma mb && text_ltb a.name b.name)

  -- an engine override that is none or empty leaves the choice
  unfoldable pub choose_engine : TeamNodes → Option (Node W)
  unfolding teams_at maximum_of least_by engine_before keep
  choose_engine placed =
      let most = maximum_of (map (λ r. teams_at r.name placed) records) in
      least_by engine_before (keep (λ r. nat_beq (teams_at r.name placed) most) records)

  unfoldable pub engine_node : Text → TeamNodes → Result Refused Text
  unfolding contains choose_engine
  engine_node override placed =
      if is_empty override
      then elim (choose_engine placed) [ none ↦ err no_nodes | some r ↦ ok r.name ]
      else if contains (node_names records) override
      then ok override
      else err (unknown_node override)
