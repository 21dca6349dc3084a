-- ===== src/Planner.antt =====
-- multinode/placement_planner.py: the nodes and what a probe finds on one, and `compute_placement`.
-- A team identifier is its text with the number that it stands for.
mod Tests
pub mod Nodes
pub mod Probing
pub mod Place
pub mod Compute
pub mod Routes
use tezcatlipoca.Base.{
  ℕ, zero, suc, ◌+◌, ◌*◌, Bool, true, false, not, ◌&&◌, ◌||◌, Option, none, some, List, [], ◌∷◌,
  ◌++◌, map, if◌then◌else◌, length, contains, keep, Text, text_eq,
}

-- the fields of NodeRecord that the planner reads, with the weight of any type
pub record Node (Weight : Type 0) : Type 0 where
  pub name : Text
  pub endpoint : Text
  pub node : Text
  pub datastore : Text
  pub token_env : Text
  pub engine_base_vmid : ℕ
  -- the empty text where none is set
  pub jump_mgmt_ip : Text
  pub weight : Weight
  pub max_teams : ℕ

pub record Team : Type 0 where
  pub key : Text
  pub identifier : Text
  -- int(identifier)
  pub number : ℕ

-- an entry of `boxes`
pub record Box : Type 0 where
  pub template : Text
  -- none where it is not set
  pub memory_mb : Option ℕ

pub data Reason : Type 0 where
  no_token unreachable : Reason
  vmid_collisions : (vmids : List ℕ) → Reason
  bridge_collisions : (identifiers : List Text) → Reason

pub record Probe : Type 0 where
  pub ok : Bool
  pub reasons : List Reason
  pub missing_templates : List Text
  pub collisions : List ℕ
  -- none and 0 where it could not be read
  pub mem_free_bytes : Option ℕ
  pub running_ours : ℕ
  -- the vmid of a template by its name
  pub templates : List (Text × ℕ)

unfoldable pub team_reservation_mb : List Box → ℕ
team_reservation_mb [] = 0
team_reservation_mb (b ∷ bs) =
    elim b.memory_mb [ none ↦ 1024 | some zero ↦ 1024 | some (suc m) ↦ suc m ]
    + team_reservation_mb bs
