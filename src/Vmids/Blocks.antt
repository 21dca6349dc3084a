-- ===== src/Vmids/Blocks.antt =====
-- `check_team_blocks` decides that no team block meets a reserved vmid.
use tezcatlipoca.Base.{
  ℕ, zero, suc, ◌+◌, ◌*◌, ◌<◌, Bool, true, false, ◌≡◌, refl, ◌↔◌, List, [], ◌∷◌, arith, is_empty,
  contains, keep, All, Text, nat_eq,
}
use tezcatlipoca.Base.Actions.{Result, ok, err}
use tezcatlipoca.Vmids.{
  vm_id_for, range_from, max_boxes_per_team, Placement, reserved_vmids, BlockClash, check_block,
  after_block, check_blocks, check_team_blocks,
}

keep_range :
    (test : ℕ → Bool) (s n : ℕ)
    → is_empty (keep test (range_from s n)) ≡ true
    → (i : ℕ) → i < n
    → test (s + i) ≡ false
unfolding keep range_from
keep_range test s zero h i lt = absurd (omega arith)
keep_range test s (suc n) h zero lt = let e : s + 0 ≡ s = omega arith in rw e (ground arith)
keep_range test s (suc n) h (suc i) lt =
    let e : s + suc i ≡ suc s + i = omega arith in
    rw e (keep_range test (suc s) n (ground arith) i (omega arith))

range_keep :
    (test : ℕ → Bool) (s n : ℕ)
    → ((i : ℕ) → i < n → test (s + i) ≡ false)
    → is_empty (keep test (range_from s n)) ≡ true
unfolding keep range_from
range_keep test s zero h = refl
range_keep test s (suc n) h =
    let first : s + 0 ≡ s = omega arith in
    let later : (i : ℕ) → s + suc i ≡ suc s + i = λ i. omega arith in
    let here : test s ≡ false = rw first at (h 0 (omega arith)) in
    let rest : is_empty (keep test (range_from (suc s) n)) ≡ true =
      range_keep test (suc s) n (λ i lt. rw (later i) at (h (suc i) (omega arith))) in
    ground arith

-- every vmid of the team's block is free
abbrev pub IsFree : List ℕ → ℕ → Type 0
IsFree reserved identifier =
    (i : ℕ) → i < max_boxes_per_team → contains reserved (vm_id_for identifier i) ≡ false

block-IsFree :
    (reserved : List ℕ) (team : Text) (identifier : ℕ)
    → check_block reserved team (200 + identifier * 10) ≡ ok tt
    → IsFree reserved identifier
unfolding check_block vm_id_for
block-IsFree reserved team identifier h =
    keep_range (contains reserved) (200 + identifier * 10) max_boxes_per_team (ground arith)

IsFree-block :
    (reserved : List ℕ) (team : Text) (identifier : ℕ)
    → IsFree reserved identifier
    → check_block reserved team (200 + identifier * 10) ≡ ok tt
unfolding check_block vm_id_for
IsFree-block reserved team identifier h =
    rw (range_keep (contains reserved) (200 + identifier * 10) max_boxes_per_team h)

blocks-IsFree :
    (reserved : List ℕ) (teams : List (Text × ℕ))
    → check_blocks reserved teams ≡ ok tt
    → All (λ t. IsFree reserved t.1) teams
unfolding check_blocks
blocks-IsFree reserved [] = λ h. tt
blocks-IsFree reserved ((team, identifier) ∷ teams) =
    first (blocks-IsFree reserved teams) (check_block reserved team (200 + identifier * 10)) refl
  where
    first :
        (check_blocks reserved teams ≡ ok tt → All (λ t. IsFree reserved t.1) teams)
        → (r : Result BlockClash (Unit {0})) → check_block reserved team (200 + identifier * 10) ≡ r
        → after_block r (check_blocks reserved teams) ≡ ok tt
        → IsFree reserved identifier × All (λ t. IsFree reserved t.1) teams
    first ih (ok u) e h = (block-IsFree reserved team identifier e, ih h)
    first ih (err c) e h = cc

IsFree-blocks :
    (reserved : List ℕ) (teams : List (Text × ℕ))
    → All (λ t. IsFree reserved t.1) teams
    → check_blocks reserved teams ≡ ok tt
unfolding check_blocks
IsFree-blocks reserved [] h = refl
IsFree-blocks reserved ((team, identifier) ∷ teams) h =
    rw (IsFree-block reserved team identifier h.0, check_blocks) (IsFree-blocks reserved teams h.1)

-- `check_team_blocks` accepts the teams exactly when no vmid that a box of a team can have, at any
-- of the ten positions, is one that the placement reserves: its engine, engine template, red01,
-- the goldens of any of its slots, or a jump.
pub check_team_blocks_iff :
    (p : Placement) (teams : List (Text × ℕ))
    → (check_team_blocks p teams ≡ ok tt) ↔ All (λ t. IsFree (reserved_vmids p) t.1) teams
unfolding check_team_blocks
check_team_blocks_iff p teams =
    (blocks-IsFree (reserved_vmids p) teams, IsFree-blocks (reserved_vmids p) teams)
