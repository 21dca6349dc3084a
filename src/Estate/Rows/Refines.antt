-- ===== src/Estate/Rows/Refines.antt =====
-- estate/state.py: the inventory implements a map from keys to rows.
use mathlib.Core.Path.{fun_ext}
use tezcatlipoca.Base.{
  ℕ, ◌&&◌, ◌≡◌, refl, ap, ◌∙◌, Option, none, some, List, [], ◌∷◌, arith, if◌then◌else◌, find, keep,
  Text,
}
use tezcatlipoca.Estate.Rows.{
  Row, Identity, resource_identity, Key, key_of, identity_beq, key_beq, put_row, record_row,
  on_node, matches, drop_rows, forget,
}
use tezcatlipoca.Estate.Rows.Keys.{key_beq_iff}

-- the row under a key
abbrev pub row_at : List Row → Key → Option Row
row_at rows k = find (λ row. key_beq (key_of row) k) rows

-- no two rows have one key
abbrev pub IsKeyed : List Row → Type 0
IsKeyed [] = Unit
IsKeyed (r ∷ rs) = (row_at rs (key_of r) ≡ none) × IsKeyed rs

-- a call of `record` or of `forget`
pub data Change : Type 0 where
  recorded : Row → Change
  forgotten :
      (kind : Text) (name : Option Text) (vmid : Option ℕ) (bridge node : Option Text) → Change

abbrev pub apply : Change → List Row → List Row
apply (recorded r) rows = record_row r.kind r.node r.name r.vmid r.bridge r.tags r.at rows
apply (forgotten kind name vmid bridge node) rows = (forget kind name vmid bridge node rows).1

abbrev pub apply_all : List Change → List Row → List Row
apply_all [] rows = rows
apply_all (c ∷ cs) rows = apply_all cs (apply c rows)

-- the same on a map: one key is set, or the keys of an identity on the nodes are cleared
abbrev pub update : Change → (Key → Option Row) → Key → Option Row
update (recorded r) f k = if key_beq (key_of r) k then some r else f k
update (forgotten kind name vmid bridge node) f k =
    if identity_beq k.identity (resource_identity kind vmid bridge name) && on_node node k.node
    then none
    else f k

abbrev pub update_all : List Change → (Key → Option Row) → Key → Option Row
update_all [] f = f
update_all (c ∷ cs) f = update_all cs (update c f)

row_at-put :
    (row : Row) (rows : List Row) (k : Key)
    → row_at (put_row row rows) k ≡ (if key_beq (key_of row) k then some row else row_at rows k)
unfolding put_row find
row_at-put row [] k = ground arith
row_at-put row (r ∷ rs) k = ground (
  arith,
  row_at-put row rs k,
  key_beq_iff (key_of r) (key_of row),
  key_beq_iff (key_of r) k,
  key_beq_iff (key_of row) k,
)

row_at-drop :
    (wanted : Identity) (node : Option Text) (rows : List Row) (k : Key)
    → row_at (drop_rows wanted node rows) k
      ≡ (if identity_beq k.identity wanted && on_node node k.node then none else row_at rows k)
unfolding drop_rows keep find matches
row_at-drop wanted place [] k = ground arith
row_at-drop wanted node (r ∷ rs) k =
    ground (arith, row_at-drop wanted node rs k, key_beq_iff (key_of r) k)

row_at-apply : (c : Change) (rows : List Row) → row_at (apply c rows) ≡ update c (row_at rows)
unfolding record_row forget
row_at-apply (recorded row) rows = fun_ext λ k. row_at-put row rows k
row_at-apply (forgotten kind name vmid bridge node) rows =
    fun_ext λ k. row_at-drop (resource_identity kind vmid bridge name) node rows k

row_at-apply_all :
    (cs : List Change) (rows : List Row) → row_at (apply_all cs rows) ≡ update_all cs (row_at rows)
row_at-apply_all [] rows = refl
row_at-apply_all (c ∷ cs) rows =
    row_at-apply_all cs (apply c rows) ∙ ap (update_all cs) (row_at-apply c rows)

put-IsKeyed : (row : Row) (rows : List Row) → IsKeyed rows → IsKeyed (put_row row rows)
unfolding put_row find
put-IsKeyed row [] h = (refl, tt)
put-IsKeyed row (r ∷ rs) h = ground (
  arith,
  put-IsKeyed row rs h.1,
  row_at-put row rs (key_of r),
  key_beq_iff (key_of r) (key_of row),
  key_beq_iff (key_of row) (key_of r),
)

drop-IsKeyed :
    (wanted : Identity) (node : Option Text) (rows : List Row)
    → IsKeyed rows
    → IsKeyed (drop_rows wanted node rows)
unfolding drop_rows keep find
drop-IsKeyed wanted place [] h = tt
drop-IsKeyed wanted node (r ∷ rs) h =
    ground (arith, drop-IsKeyed wanted node rs h.1, row_at-drop wanted node rs (key_of r))

apply_all-IsKeyed :
    (cs : List Change) (rows : List Row) → IsKeyed rows → IsKeyed (apply_all cs rows)
unfolding record_row forget
apply_all-IsKeyed [] rows h = h
apply_all-IsKeyed (recorded row ∷ cs) rows h =
    apply_all-IsKeyed cs (put_row row rows) (put-IsKeyed row rows h)
apply_all-IsKeyed (forgotten kind name vmid bridge node ∷ cs) rows h =
    apply_all-IsKeyed cs _ (drop-IsKeyed (resource_identity kind vmid bridge name) node rows h)

-- The inventory is a map from keys to rows: any calls of `record` and `forget` change the row found
-- under each key as they change a map, where `record` sets one key and `forget` clears the keys of
-- an identity, on one node or on all; and from rows with different keys they lead to such rows.
pub inventory_refines :
    (cs : List Change) (rows : List Row)
    → IsKeyed rows
    → (row_at (apply_all cs rows) ≡ update_all cs (row_at rows)) × IsKeyed (apply_all cs rows)
inventory_refines cs rows h = (row_at-apply_all cs rows, apply_all-IsKeyed cs rows h)
