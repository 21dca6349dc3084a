-- ===== src/Estate/Rows/Keys.antt =====
-- estate/state.py: the keys of rows are equal when the test says so.
use tezcatlipoca.Base.{
  true, ◌≡◌, ◌↔◌, Option, none, some, arith, Text, text_beq_iff, nat_beq_iff, Eq,
}
use tezcatlipoca.Estate.Rows.{Identity, by_vmid, by_name, Key, name_beq, identity_beq, key_beq}

name_beq_iff : (a b : Option Text) → (name_beq a b ≡ true) ↔ (a ≡ b)
unfolding name_beq
name_beq_iff none none = ground arith
name_beq_iff none (some b) = ground arith
name_beq_iff (some a) none = ground arith
name_beq_iff (some a) (some b) = ground (arith, text_beq_iff a b)

pub identity_beq_iff : (a b : Identity) → (identity_beq a b ≡ true) ↔ (a ≡ b)
unfolding identity_beq
identity_beq_iff (by_vmid k v) (by_vmid k' v') = ground (arith, text_beq_iff k k', nat_beq_iff v v')
identity_beq_iff (by_vmid k v) (by_name k' n) = ground arith
identity_beq_iff (by_name k n) (by_vmid k' v) = ground arith
identity_beq_iff (by_name k n) (by_name k' n') =
    ground (arith, text_beq_iff k k', name_beq_iff n n')

pub key_beq_iff : (a b : Key) → (key_beq a b ≡ true) ↔ (a ≡ b)
unfolding key_beq
key_beq_iff a b = ground (arith, identity_beq_iff a.identity b.identity, text_beq_iff a.node b.node)

instance abbrev pub key_eq : Eq Key
key_eq = record { beq = key_beq; beq_iff = key_beq_iff }
