-- ===== src/Estate/Rows.antt =====
-- estate/state.py: the inventory of resources, `EstateState.record`, `forget` and `resources`. The
-- tags of a row are the list that `sorted` gives, `now` is the text of the present time.
pub mod Keys
pub mod Kinds
pub mod Refines
use tezcatlipoca.Base.{
  ℕ, ◌-◌, Bool, true, false, not, ◌&&◌, Option, none, some, List, [], ◌∷◌, if◌then◌else◌, is_empty,
  length, keep, nat_beq, Text, text_beq,
}

pub record Row : Type 0 where
  pub kind : Text
  -- empty where there is none
  pub node : Text
  pub name : Text
  pub vmid : Option ℕ
  pub bridge : Option Text
  pub tags : List Text
  pub at : Text

-- `_resource_identity`: the vmid, or else the bridge or the name
pub data Identity : Type 0 where
  by_vmid : (kind : Text) (vmid : ℕ) → Identity
  by_name : (kind : Text) (name : Option Text) → Identity

-- `bridge or name`: None and the empty text are false
unfoldable pub bridge_or_name : Option Text → Option Text → Option Text
bridge_or_name none name = name
bridge_or_name (some bridge) name = if is_empty bridge then name else some bridge

unfoldable pub resource_identity : Text → Option ℕ → Option Text → Option Text → Identity
unfolding bridge_or_name
resource_identity kind none bridge name = by_name kind (bridge_or_name bridge name)
resource_identity kind (some vmid) bridge name = by_vmid kind vmid

-- `_resource_key`
pub record Key : Type 0 where
  pub identity : Identity
  pub node : Text

abbrev pub identity_of : Row → Identity
identity_of row = resource_identity row.kind row.vmid row.bridge (some row.name)

abbrev pub key_of : Row → Key
key_of row = record { identity = identity_of row; node = row.node }

name_beq : Option Text → Option Text → Bool
name_beq none none = true
name_beq none (some b) = false
name_beq (some a) none = false
name_beq (some a) (some b) = text_beq a b

pub identity_beq : Identity → Identity → Bool
unfolding name_beq
identity_beq (by_vmid k v) (by_vmid k' v') = text_beq k k' && nat_beq v v'
identity_beq (by_vmid k v) (by_name k' n) = false
identity_beq (by_name k n) (by_vmid k' v) = false
identity_beq (by_name k n) (by_name k' n') = text_beq k k' && name_beq n n'

pub key_beq : Key → Key → Bool
unfolding identity_beq
key_beq a b = identity_beq a.identity b.identity && text_beq a.node b.node

-- the row replaces the one under its key, or is put at the end
put_row : Row → List Row → List Row
unfolding key_beq
put_row row [] = row ∷ []
put_row row (r ∷ rs) =
    let rest = put_row row rs in if key_beq (key_of r) (key_of row) then row ∷ rs else r ∷ rest

-- EstateState.record
unfoldable pub record_row :
    Text → Text → Text → Option ℕ → Option Text → List Text → Text → List Row → List Row
unfolding put_row
record_row kind node name vmid bridge tags now = put_row (record {
  kind = kind;
  node = node;
  name = name;
  vmid = vmid;
  bridge = bridge;
  tags = tags;
  at = now;
})

-- no node stands for every node
pub on_node : Option Text → Text → Bool
on_node none node = true
on_node (some wanted) node = text_beq node wanted

matches : Identity → Option Text → Row → Bool
unfolding identity_beq on_node
matches wanted node row = identity_beq (identity_of row) wanted && on_node node row.node

drop_rows : Identity → Option Text → List Row → List Row
unfolding matches keep
drop_rows wanted node = keep (λ row. not (matches wanted node row))

-- EstateState.forget, with the number of rows that it removed
unfoldable pub forget :
    Text → Option Text → Option ℕ → Option Text → Option Text → List Row → ℕ × List Row
unfolding drop_rows
forget kind name vmid bridge node rows =
    let kept = drop_rows (resource_identity kind vmid bridge name) node rows in
    (length rows - length kept, kept)

-- EstateState.resources
unfoldable pub resources : Option Text → Option Text → List Row → List Row
unfolding on_node keep
resources kind node = keep (λ row. on_node kind row.kind && on_node node row.node)
