-- ===== src/Estate/Tests.antt =====
-- Concrete inventories and state documents.
use tezcatlipoca.Base.{
  ℕ, Bool, true, false, not, ◌≡◌, refl, inl, inr, Option, none, some, List, [], ◌∷◌, is_empty, Text,
  text, text_eq, text_beq,
}
use tezcatlipoca.Base.Dict.{lookup, IsDict}
use tezcatlipoca.Estate.Rows.{Row, Key, by_name, by_vmid, resources, forget}
use tezcatlipoca.Estate.Rows.Refines.{
  row_at, IsKeyed, Change, recorded, forgotten, apply_all, update_all, inventory_refines,
}
use tezcatlipoca.Estate.Flat.{Items, Document, flatten}
use tezcatlipoca.Estate.Flat.RoundTrip.{absorb_total, flatten-absorb}

abbrev bridge_on : Text → Row
bridge_on node = record {
  kind = text "bridge";
  node = node;
  name = text "vmbr7";
  vmid = none;
  bridge = none;
  tags = [];
  at = text "2026-01-01 00:00:00";
}

abbrev box : Row
box = record (bridge_on (text "a")) { kind = text "team_box"; vmid = some 270 }

-- the same bridge name on two nodes, and a call that names no node
forgotten_everywhere :
    forget
      (text "bridge")
      (some (text "vmbr7"))
      none
      none
      none
      (bridge_on (text "a") ∷ box ∷ bridge_on (text "b") ∷ [])
    ≡ (2, box ∷ [])
unfolding forget tezcatlipoca.Estate.Rows.resource_identity text_beq
forgotten_everywhere = refl

boxes_of_kind : resources (some (text "team_box")) none (bridge_on (text "a") ∷ box ∷ []) ≡ box ∷ []
unfolding resources text_beq
boxes_of_kind = refl

abbrev changes : List Change
changes =
    recorded box
    ∷ recorded (bridge_on (text "b"))
    ∷ forgotten (text "bridge") (some (text "vmbr7")) none none (some (text "a"))
    ∷ []

one_bridge : IsKeyed (bridge_on (text "a") ∷ [])
unfolding tezcatlipoca.Base.find
one_bridge = (refl, tt)

inventory_refines_example :
    (row_at (apply_all changes (bridge_on (text "a") ∷ []))
      ≡ update_all changes (row_at (bridge_on (text "a") ∷ [])))
    × IsKeyed (apply_all changes (bridge_on (text "a") ∷ []))
inventory_refines_example = inventory_refines changes (bridge_on (text "a") ∷ []) one_bridge

-- values that are texts
abbrev no_fields : Text → Option (Items Text)
no_fields v = some []

abbrev no_object : Items Text → Text
no_object items = []

abbrev is_true : Text → Bool
is_true v = not (is_empty v)

abbrev document : Document Text
document = record {
  flat = λ s. (text "run_id", text "old") ∷ [];
  red = [];
  run = (text "last_phase", text "2") ∷ [];
  placement = (text "engine_mgmt_ip", text "10.0.0.251") ∷ [];
  teardown = [];
  resources = [];
}

abbrev deployed : Items Text
deployed =
    (text "comp_name", text "alpha")
    ∷ (text "run_id", text "r1")
    ∷ (text "last_phase", text "3")
    ∷ []

abbrev all_objects : (v : Text) → (items : Items Text) × (no_fields v ≡ some items)
all_objects v = ([], refl)

comp_named : lookup (text "comp_name") deployed ≡ some (text "alpha")
unfolding lookup text_beq
comp_named = refl

not_red : text_beq (text "red") (text "run_id") ≡ false
unfolding text_beq
not_red = refl

nothing_placed : lookup (text "run_id") document.placement ≡ none
unfolding lookup text_beq
nothing_placed = refl

deployed-IsDict : IsDict deployed
unfolding lookup text_beq
deployed-IsDict = (refl, (refl, (refl, tt)))

flatten-absorb_example :
    lookup (text "run_id") (
      flatten no_fields no_object is_true
        (absorb_total no_fields no_object is_true deployed true document all_objects).0)
    ≡ lookup (text "run_id") deployed
flatten-absorb_example =
    flatten-absorb no_fields no_object is_true deployed document
      (absorb_total no_fields no_object is_true deployed true document all_objects).0 (text "alpha")
      (text "run_id") deployed-IsDict comp_named
      (absorb_total no_fields no_object is_true deployed true document all_objects).1 not_red
      (inl nothing_placed)
