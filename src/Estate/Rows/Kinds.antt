-- ===== src/Estate/Rows/Kinds.antt =====
-- estate/state.py: `forget` leaves the rows of the other kinds.
use tezcatlipoca.Base.{
  ℕ, true, false, ◌≡◌, refl, Option, none, some, List, [], ◌∷◌, arith, keep, Text, text_beq,
  text_beq_iff,
}
use tezcatlipoca.Estate.Rows.{
  Row, Identity, by_vmid, by_name, identity_of, resource_identity, identity_beq, matches, drop_rows,
  forget, resources,
}

-- the rows of one kind
unfoldable pub rows_of : Text → List Row → List Row
unfolding resources
rows_of kind = resources (some kind) none

pub kind_of : Identity → Text
kind_of (by_vmid kind vmid) = kind
kind_of (by_name kind name) = kind

kind_of-beq : (i j : Identity) → identity_beq i j ≡ true → text_beq (kind_of i) (kind_of j) ≡ true
unfolding identity_beq kind_of
kind_of-beq (by_vmid k v) (by_vmid k' v') h = ground arith
kind_of-beq (by_vmid k v) (by_name k' n) h = cc
kind_of-beq (by_name k n) (by_vmid k' v) h = cc
kind_of-beq (by_name k n) (by_name k' n') h = ground arith

kind_of-resource_identity :
    (kind : Text) (vmid : Option ℕ) (bridge name : Option Text)
    → kind_of (resource_identity kind vmid bridge name) ≡ kind
unfolding kind_of resource_identity
kind_of-resource_identity kind none bridge name = refl
kind_of-resource_identity kind (some v) bridge name = refl

other_kind :
    (kind k : Text) (name : Option Text) (vmid : Option ℕ) (bridge : Option Text) (row : Row)
    → text_beq kind k ≡ false
    → identity_beq (identity_of row) (resource_identity kind vmid bridge name) ≡ true
    → text_beq row.kind k ≡ false
other_kind kind k name vmid bridge row h e =
    let same = kind_of-beq (identity_of row) (resource_identity kind vmid bridge name) e in
    ground (
      arith,
      same,
      kind_of-resource_identity row.kind row.vmid row.bridge (some row.name),
      kind_of-resource_identity kind vmid bridge name,
      text_beq_iff row.kind kind,
    )

pub forget-rows_of :
    (kind k : Text) (name : Option Text) (vmid : Option ℕ) (bridge : Option Text) (rows : List Row)
    → text_beq kind k ≡ false
    → rows_of k (forget kind name vmid bridge none rows).1 ≡ rows_of k rows
unfolding rows_of forget drop_rows keep matches
forget-rows_of kind k name vmid bridge [] h = refl
forget-rows_of kind k name vmid bridge (row ∷ rows) h =
    ground (
      arith,
      forget-rows_of kind k name vmid bridge rows h,
      other_kind kind k name vmid bridge row h,
    )
