-- ===== src/Planner/Nodes.antt =====
-- multinode/nodes_config.py: `load_nodes_config`, on what the file holds, with its fields decoded. A
-- text that is missing is the empty one. A weight is of any type: `positive` is `> 0` and `one` is 1.0.
-- `balancing` is of any type.
pub mod Sound
use tezcatlipoca.Base.{
  ℕ, zero, suc, Bool, true, false, not, ◌&&◌, ◌||◌, Option, none, some, List, [], ◌∷◌, ◌++◌, map,
  if◌then◌else◌, contains, is_empty, keep, Text, text, text_eq, starts_with, nat_beq,
}
use tezcatlipoca.Base.Actions.{Result, ok, err}
use tezcatlipoca.Planner.{Node}

-- a count that is not set, below 0, or a number
pub data Count : Type 0 where
  unset negative : Count
  number : ℕ → Count

pub record Entry (W : Type 0) : Type 0 where
  pub name : Text
  pub endpoint : Text
  pub node : Text
  pub datastore : Text
  pub token_env : Text
  pub engine_base_vmid : ℕ
  pub jump_mgmt_ip : Text
  pub weight : Option W
  pub max_teams : Count

-- what is at the path: of `nodes` the list, with none for an item that is no object, and the empty
-- list where it is not a list
pub data File (W B : Type 0) : Type 0 where
  no_file unreadable not_an_object : File W B
  object : (nodes : List (Option (Entry W))) (balancing : B) → File W B

pub data Invalid : Type 0 where
  unreadable_file top_level no_entries : Invalid
  entry_no_object : (index : ℕ) → Invalid
  missing_field : (index : ℕ) (field : Text) → Invalid
  bad_weight bad_max_teams bad_endpoint : (name : Text) → Invalid
  duplicate_names duplicate_hosts : Invalid
  shared_tokens : Invalid

-- s.rstrip("/")
onto_rest : ℕ → Text → Text
onto_rest c [] = if nat_beq c 47 then [] else c ∷ []
onto_rest c (d ∷ s) = c ∷ d ∷ s

rstrip_slash : Text → Text
unfolding onto_rest
rstrip_slash [] = []
rstrip_slash (c ∷ s) = onto_rest c (rstrip_slash s)

-- the first required field that is missing
first_missing : List (Text × Text) → Option Text
first_missing [] = none
first_missing ((field, value) ∷ fields) =
    let rest = first_missing fields in if is_empty value then some field else rest

required : {W : Type 0} → Entry W → List (Text × Text)
required e =
    (text "name", e.name)
    ∷ (text "endpoint", e.endpoint)
    ∷ (text "node", e.node)
    ∷ (text "datastore", e.datastore)
    ∷ (text "token_env", e.token_env)
    ∷ []

-- no text stands twice
unfoldable pub all_different : List Text → Bool
unfolding contains
all_different [] = true
all_different (t ∷ ts) = not (contains ts t) && all_different ts

onto_records :
    {W : Type 0}
    → Result Invalid (Node W)
    → Result Invalid (List (Node W))
    → Result Invalid (List (Node W))
onto_records (err e) rest = err e
onto_records (ok r) (err e) = err e
onto_records (ok r) (ok rs) = ok (r ∷ rs)

-- the checks on all records
check_records : {W : Type 0} → List (Node W) → Result Invalid (List (Node W))
unfolding all_different
check_records rs =
    if not (all_different (map (λ r. r.name) rs))
    then err duplicate_names
    else if not (all_different (map (λ r. r.node) rs))
    then err duplicate_hosts
    else if not (all_different (map (λ r. r.token_env) rs))
    then err shared_tokens
    else ok rs

check_all : {W : Type 0} → Result Invalid (List (Node W)) → Result Invalid (List (Node W))
unfolding check_records
check_all (err e) = err e
check_all (ok rs) = check_records rs

node_of : {W : Type 0} → Entry W → W → ℕ → Node W
unfolding rstrip_slash
node_of e weight max_teams = record {
  name = e.name;
  endpoint = rstrip_slash e.endpoint;
  node = e.node;
  datastore = e.datastore;
  token_env = e.token_env;
  engine_base_vmid = e.engine_base_vmid;
  jump_mgmt_ip = e.jump_mgmt_ip;
  weight = weight;
  max_teams = max_teams;
}

module _ {W : Type 0} (positive : W → Bool) (one : W) where
  count_of : Count → Option ℕ
  count_of unset = some 8
  count_of negative = none
  count_of (number n) = some n

  -- with the count of teams that is set
  record_of : Entry W → W → Option ℕ → Result Invalid (Node W)
  unfolding rstrip_slash starts_with node_of
  record_of e weight max_teams =
      if not (positive weight) then err (bad_weight e.name) else elim max_teams [
        | none ↦ err (bad_max_teams e.name)
        | some n ↦
            if not (
              starts_with (text "http://") (rstrip_slash e.endpoint)
              || starts_with (text "https://") (rstrip_slash e.endpoint))
            then err (bad_endpoint e.name)
            else ok (node_of e weight n)
      ]

  read_entry : ℕ → Option (Entry W) → Result Invalid (Node W)
  unfolding first_missing required record_of count_of
  read_entry i none = err (entry_no_object i)
  read_entry i (some e) = elim (first_missing (required e)) [
    | some field ↦ err (missing_field i field)
    | none ↦ record_of e (elim e.weight [ none ↦ one | some w ↦ w ]) (count_of e.max_teams)
  ]

  read_entries : ℕ → List (Option (Entry W)) → Result Invalid (List (Node W))
  unfolding read_entry onto_records
  read_entries i [] = ok []
  read_entries i (e ∷ es) = onto_records (read_entry i e) (read_entries (suc i) es)

  read_nodes : List (Option (Entry W)) → Result Invalid (List (Node W))
  unfolding read_entries check_all
  read_nodes [] = err no_entries
  read_nodes (e ∷ es) = check_all (read_entries 0 (e ∷ es))

with_balancing :
    {W B : Type 0}
    → B
    → Result Invalid (List (Node W))
    → Result Invalid (Option (List (Node W) × B))
with_balancing b (err e) = err e
with_balancing b (ok rs) = ok (some (rs, b))

-- load_nodes_config; (None, None) is none
unfoldable pub load_nodes :
    {W B : Type 0} → (W → Bool) → W → File W B → Result Invalid (Option (List (Node W) × B))
unfolding read_nodes with_balancing
load_nodes positive one no_file = ok none
load_nodes positive one unreadable = err unreadable_file
load_nodes positive one not_an_object = err top_level
load_nodes positive one (object nodes balancing) =
    with_balancing balancing (read_nodes positive one nodes)
