-- ===== src/Estate/Destroy.antt =====
-- estate/destroy.py: the destruction of what the inventory records, its data and its decisions. A set of nodes is the list of its members, none for
-- every node. The entry of a row in a report is the row. `comp` and `run_id` are the recorded
-- identity. The inventory is saved at the end only, and output is not modelled.
pub mod Tiers
mod Tests
use tezcatlipoca.Base.{
  ℕ, Bool, true, false, not, ◌&&◌, ◌||◌, Option, none, some, List, [], ◌∷◌, ◌++◌, if◌then◌else◌,
  any, keep, contains, is_empty, Text, text, text_beq, text_eq, nat_eq, starts_with,
}
use tezcatlipoca.Base.Actions.{Act, Result, ok, err, continue, ◌>>=◌}
use tezcatlipoca.Base.Dict.{lookup, put}
use tezcatlipoca.Naming.{comp_tag, ownership_tags}
use tezcatlipoca.Proxmox.{Network}
use tezcatlipoca.Ownership.{
  Verdict, owned, marker, unproven, missing, Failure, untagged, marker_only, outside,
  request_failed, World,
}
use tezcatlipoca.Ownership.Bridges.{bridge_owned_by}
use tezcatlipoca.Ownership.Roles.{Occupancy, absent, unreadable, occupied, vm_occupancy}
use tezcatlipoca.Estate.Rows.{Row, forget, resources}

-- TIERS
abbrev pub tiers : List (List Text)
tiers =
    (text "team_box" ∷ text "jump" ∷ [])
    ∷ (text "golden" ∷ [])
    ∷ (text "engine" ∷ [])
    ∷ (text "engine_template" ∷ [])
    ∷ (text "bridge" ∷ [])
    ∷ []

-- _ROLE: the role tags of a kind, none for a kind that is no template
unfoldable pub role_of : Text → List Text
role_of kind =
    if text_beq kind (text "golden")
    then text "tezcatlipoca-golden" ∷ []
    else if text_beq kind (text "engine_template")
    then text "engine-template" ∷ []
    else []

-- _CLONE_KINDS
unfoldable pub clone_kinds : Text → List Text
clone_kinds kind =
    if text_beq kind (text "golden")
    then text "team_box" ∷ text "jump" ∷ []
    else if text_beq kind (text "engine_template")
    then text "engine" ∷ []
    else []

-- _KEPT_WHEN_TEAMS_ONLY
unfoldable pub kept_when_teams_only : Text → Bool
kept_when_teams_only kind = text_beq kind (text "golden") || text_beq kind (text "engine_template")

unfoldable pub among : Option (List Text) → Row → Bool
unfolding contains
among none row = true
among (some nodes) row = contains nodes row.node

unfoldable pub clones_remain : Option (List Text) → Text → List Row → Bool
unfolding any among clone_kinds resources
clones_remain nodes kind rows =
    any (λ clone. any (among nodes) (resources (some clone) none rows)) (clone_kinds kind)

-- the bridge of a row, or else its name
unfoldable pub bridge_name : Row → Text
bridge_name row = elim row.bridge [
  | none ↦ row.name
  | some bridge ↦ if is_empty bridge then row.name else bridge
]

-- `only`: a set of vmids and names
unfoldable pub in_only : Option (List ℕ × List Text) → Row → Bool
unfolding contains bridge_name
in_only none row = true
in_only (some (vmids, names)) row = elim row.vmid [
  | none ↦ contains names (bridge_name row)
  | some vmid ↦ contains vmids vmid
]

is_bridge : Network → Bool
is_bridge n =
    not (is_empty n.iface)
    && elim n.kind [ none ↦ true | some kind ↦ text_beq kind (text "bridge") ]

unfoldable pub comments_onto : List (Text × Text) → List Network → List (Text × Text)
unfolding put is_bridge
comments_onto comments [] = comments
comments_onto comments (n ∷ ns) =
    comments_onto (if is_bridge n then put n.iface n.comments comments else comments) ns

pub data Disposition : Type 0 where
  -- the tags of the run are required
  strict : Disposition
  -- these tags are
  reclaim : (tags : List Text) → Disposition
  held : Disposition

disposition_of_tags : Text → Text → List Text → Disposition
unfolding any contains
disposition_of_tags comp role tags =
    if not (contains tags (comp_tag comp)) || not (contains tags role)
    then strict
    else if any (starts_with (text "run-")) tags
    then held
    else reclaim (ownership_tags comp [] (role ∷ []))

unfoldable pub disposition_of : Text → Text → Occupancy → Disposition
unfolding disposition_of_tags
disposition_of comp role absent = strict
disposition_of comp role unreadable = strict
disposition_of comp role (occupied owned tags) = strict
disposition_of comp role (occupied marker tags) = strict
disposition_of comp role (occupied unproven tags) = disposition_of_tags comp role tags
disposition_of comp role (occupied missing tags) = disposition_of_tags comp role tags

-- what became of a row that was visited
pub data RowFate : Type 0 where
  destroyed refused kept : RowFate

pub record Report : Type 0 where
  pub destroyed : List Row
  pub refused : List Row
  pub skipped : List Row
  pub kept : List Row

abbrev pub no_report : Report
no_report = record { destroyed = []; refused = []; skipped = []; kept = [] }

unfoldable pub report_row : RowFate → Row → Report → Report
report_row destroyed row r = record r { destroyed = r.destroyed ++ row ∷ [] }
report_row refused row r = record r { refused = r.refused ++ row ∷ [] }
report_row kept row r = record r { kept = r.kept ++ row ∷ [] }

unfoldable pub skip_row : Row → Report → Report
skip_row row r = record r { skipped = r.skipped ++ row ∷ [] }

unfoldable pub join_reports : Report → Report → Report
join_reports r s = record {
  destroyed = r.destroyed ++ s.destroyed;
  refused = r.refused ++ s.refused;
  skipped = r.skipped ++ s.skipped;
  kept = r.kept ++ s.kept;
}

-- state.forget, which names no node; a refused row stays recorded
unfoldable pub forget_row : RowFate → Text → Row → List Row → List Row
unfolding forget
forget_row refused kind row rows = rows
forget_row destroyed kind row rows = (forget kind (some row.name) row.vmid row.bridge none rows).1
forget_row kept kind row rows = (forget kind (some row.name) row.vmid row.bridge none rows).1
