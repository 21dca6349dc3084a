-- ===== src/Estate/Destroy/Tiers.antt =====
-- estate/destroy.py: destroy_tier and destroy_estate, with node_bridges and destroy_bridge_if_exists
-- of infra/client.py.
pub mod Conserved
pub mod Templates
use tezcatlipoca.Base.{
  ℕ, Bool, true, false, not, ◌&&◌, ◌||◌, ◌==◌, Option, none, some, List, [], ◌∷◌, ◌++◌, map,
  if◌then◌else◌, any, keep, contains, is_empty, ltb, Text, text, text_beq, insert_text, text_ltb,
  text_eq, starts_with, nat_beq,
}
use tezcatlipoca.Base.Actions.{Act, Result, ok, err, continue, pure, ◌>>=◌, ◌>>◌}
use tezcatlipoca.Base.Dict.{lookup}
use tezcatlipoca.Naming.{comp_tag, ownership_tags}
use tezcatlipoca.Proxmox.{Proxmox, Network, delete_bridge, apply_network}
use tezcatlipoca.Ownership.{
  Failure, untagged, marker_only, outside, request_failed, World, request, destroy_vm_if_exists,
}
use tezcatlipoca.Ownership.Bridges.{bridge_owned_by}
use tezcatlipoca.Ownership.Roles.{vm_occupancy}
use tezcatlipoca.Estate.Rows.{Row, resources}
use tezcatlipoca.Estate.Destroy.{
  tiers, role_of, clone_kinds, kept_when_teams_only, among, clones_remain, bridge_name, in_only,
  comments_onto, Disposition, strict, reclaim, held, disposition_of, RowFate, destroyed, refused,
  kept, Report, no_report, report_row, skip_row, join_reports, forget_row,
}

recorded_nodes : List Row → List Text
unfolding insert_text
recorded_nodes [] = []
recorded_nodes (row ∷ rows) =
    let rest = recorded_nodes rows in if is_empty row.node then rest else insert_text row.node rest

is_recorded : Text → Text → List Row → Bool
unfolding any resources bridge_name
is_recorded node iface rows =
    any (λ row. text_beq row.node node && text_beq (bridge_name row) iface)
      (resources (some (text "bridge")) none rows)

module _ (px : Proxmox) where
  -- the state document's inventory, and the service
  pub record Estate : Type 0 where
    pub rows : List Row
    pub world : World px

  -- the tail of destroy_bridge_if_exists, after the requests
  bridge_gone : Text → Text → Result Failure (Unit {0}) × World px → Bool × World px
  unfolding contains any
  bridge_gone node bridge (err e, w) = (false, w)
  bridge_gone node bridge (ok _, w) = elim (px.networks w.state node) [
    | none ↦ (false, w)
    | some ns ↦ (not (contains (map (λ n. n.iface) ns) bridge), w)
  ]

  -- every failure is a warning and a False
  unfoldable pub destroy_bridge_if_exists : Text → Text → World px → Bool × World px
  unfolding bridge_gone contains request
  destroy_bridge_if_exists node bridge w = elim (px.networks w.state node) [
    | none ↦ (false, w)
    | some ns ↦
        if contains (map (λ n. n.iface) ns) bridge
        then bridge_gone node bridge
            ((request px (delete_bridge node bridge) >> request px (apply_network node)) w)
        else (true, w)
  ]

  -- none where the request raises
  node_bridges : px.State → Text → Option (List (Text × Text))
  unfolding comments_onto
  node_bridges s node = elim (px.networks s node) [
    | none ↦ none
    | some ns ↦ some (comments_onto [] ns)
  ]

  module _ (comp run_id : Text) where
    destroy_under : Row → ℕ → List Text → Act Failure (World px) RowFate
    unfolding destroy_vm_if_exists
    destroy_under row vmid expect =
        destroy_vm_if_exists px row.node vmid (some expect) false >> pure destroyed

    vm_row_as : Row → ℕ → List Text → Disposition → Act Failure (World px) RowFate
    unfolding destroy_under
    vm_row_as row vmid expect strict = destroy_under row vmid expect
    vm_row_as row vmid expect (reclaim tags) = destroy_under row vmid tags
    vm_row_as row vmid expect held = pure kept

    vm_row_of : List Text → Row → ℕ → Act Failure (World px) RowFate
    unfolding vm_row_as disposition_of vm_occupancy
    vm_row_of [] row vmid w = destroy_under row vmid (ownership_tags comp run_id []) w
    vm_row_of (role ∷ roles) row vmid w =
        let expect = ownership_tags comp run_id (role ∷ roles) in
        vm_row_as row vmid expect
          (disposition_of comp role (vm_occupancy px w.state row.node vmid expect)) w

    bridge_fate : Bool → RowFate
    bridge_fate true = destroyed
    bridge_fate false = refused

    bridge_row_as : Row → Text → Option Text → Act Failure (World px) RowFate
    unfolding destroy_bridge_if_exists bridge_fate
    bridge_row_as row name comment w =
        let theirs : Bool = elim comment [
          | none ↦ false
          | some c ↦ not (bridge_owned_by c comp run_id)
        ] in
        let (gone, w') = destroy_bridge_if_exists row.node name w in
        if theirs then (ok refused, w) else (ok (bridge_fate gone), w')

    bridge_row : Row → Act Failure (World px) RowFate
    unfolding node_bridges bridge_row_as lookup bridge_name
    bridge_row row w = elim (node_bridges w.state row.node) [
      | none ↦ (err request_failed, w)
      | some comments ↦ bridge_row_as row (bridge_name row) (lookup (bridge_name row) comments) w
    ]

    -- a `Refusal` is a verdict, another failure goes on
    caught : Result Failure RowFate × World px → Result Failure RowFate × World px
    caught (ok f, w) = (ok f, w)
    caught (err (untagged v), w) = (ok refused, w)
    caught (err (marker_only v), w) = (ok refused, w)
    caught (err (outside v lacking), w) = (ok refused, w)
    caught (err request_failed, w) = (err request_failed, w)

    attempt : Text → Row → Act Failure (World px) RowFate
    unfolding caught vm_row_of role_of bridge_row
    attempt kind row w = caught (elim row.vmid [
      | none ↦ bridge_row row w
      | some vmid ↦ vm_row_of (role_of kind) row vmid w
    ])

    settle_row :
        Text
        → Row
        → Report
        → List Row
        → Result Failure RowFate × World px
        → Result Failure Report × Estate
    unfolding report_row forget_row
    settle_row kind row r rows (err e, w) = (err e, record { rows = rows; world = w })
    settle_row kind row r rows (ok f, w) =
        (ok (report_row f row r), record { rows = forget_row f kind row rows; world = w })

    visit_row :
        Text
        → Option (List Text)
        → Option (List ℕ × List Text)
        → Row
        → Report
        → Act Failure Estate Report
    unfolding among in_only skip_row settle_row attempt
    visit_row kind nodes only row r e =
        if not (among nodes row)
        then (ok (skip_row row r), e)
        else if not (in_only only row)
        then (ok r, e)
        else settle_row kind row r e.rows (attempt kind row e.world)

    visit_rows :
        Text
        → Option (List Text)
        → Option (List ℕ × List Text)
        → List Row
        → Report
        → Act Failure Estate Report
    unfolding visit_row
    visit_rows kind nodes only [] r = pure r
    visit_rows kind nodes only (row ∷ rows) r =
        visit_row kind nodes only row r >>= visit_rows kind nodes only rows

    unfoldable pub destroy_tier :
        Text → Option (List Text) → Option (List ℕ × List Text) → Act Failure Estate Report
    unfolding visit_rows resources
    destroy_tier kind nodes only e =
        visit_rows kind nodes only (resources (some kind) none e.rows) no_report e

    skip_kind : Text → Option (List Text) → Report → Act Failure Estate Report
    unfolding among keep resources
    skip_kind kind nodes r e = (
      ok (record r {
        skipped = r.skipped ++ keep (among nodes) (resources (some kind) none e.rows);
      }),
      e,
    )

    visit_kind : Bool → Option (List Text) → Text → Report → Act Failure Estate Report
    unfolding kept_when_teams_only clones_remain skip_kind destroy_tier join_reports
    visit_kind full nodes kind r e =
        if not full && kept_when_teams_only kind
        then skip_kind kind nodes r e
        else if clones_remain nodes kind e.rows
        then skip_kind kind nodes r e
        else (destroy_tier kind nodes none >>= λ s. pure (join_reports r s)) e

    visit_kinds : Bool → Option (List Text) → List Text → Report → Act Failure Estate Report
    unfolding visit_kind
    visit_kinds full nodes [] r = pure r
    visit_kinds full nodes (kind ∷ kinds) r =
        visit_kind full nodes kind r >>= visit_kinds full nodes kinds

    visit_tiers : Bool → Option (List Text) → List (List Text) → Report → Act Failure Estate Report
    unfolding visit_kinds
    visit_tiers full nodes [] r = pure r
    visit_tiers full nodes (tier ∷ rest) r =
        visit_kinds full nodes tier r >>= visit_tiers full nodes rest

    swept : Text → Text → Report → Estate → Bool × World px → Report × Estate
    swept node iface r e (false, w) = (r, record e { world = w })
    swept node iface r e (true, w) = (
      record r {
        destroyed =
            r.destroyed
            ++ record {
              kind = text "bridge";
              node = node;
              name = iface;
              vmid = none;
              bridge = some iface;
              tags = [];
              at = [];
            }
              ∷ [];
      },
      record e { world = w },
    )

    -- a bridge that was created and never recorded
    sweep_bridge : Text → Text × Text → Report × Estate → Report × Estate
    unfolding is_recorded swept destroy_bridge_if_exists starts_with
    sweep_bridge node (iface, comment) (r, e) =
        if not (starts_with (text "vmbr") iface)
          || not (bridge_owned_by comment comp run_id)
          || is_recorded node iface e.rows
        then (r, e)
        else swept node iface r e (destroy_bridge_if_exists node iface e.world)

    sweep_bridges : Text → List (Text × Text) → Report × Estate → Report × Estate
    unfolding sweep_bridge
    sweep_bridges node [] found = found
    sweep_bridges node (b ∷ bridges) found = sweep_bridges node bridges (sweep_bridge node b found)

    sweep_node : Text → Report → Act Failure Estate Report
    unfolding node_bridges sweep_bridges
    sweep_node node r e = elim (node_bridges e.world.state node) [
      | none ↦ (err request_failed, e)
      | some comments ↦ let (r', e') = sweep_bridges node comments (r, e) in (ok r', e')
    ]

    sweep : List Text → Report → Act Failure Estate Report
    unfolding sweep_node
    sweep [] r = pure r
    sweep (node ∷ nodes) r = sweep_node node r >>= sweep nodes

    unfoldable pub destroy_estate : Bool → Option (List Text) → Act Failure Estate Report
    unfolding visit_tiers recorded_nodes sweep
    destroy_estate full nodes e =
        let swept_nodes = elim nodes as (λ o. List Text) [
          | none ↦ recorded_nodes e.rows
          | some ns ↦ ns
        ] in
        (visit_tiers full nodes tiers no_report
            >>= sweep (if is_empty run_id then [] else swept_nodes))
          e
