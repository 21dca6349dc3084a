-- ===== src/Preflight/Bands.antt =====
-- infra/collisions.py: `check_placement`, the check of the placement record against itself. The set
-- of a band is the list of its different members, in the order of the record.
pub mod Disjoint
use tezcatlipoca.Base.{
  ℕ, zero, suc, Bool, true, false, not, ◌&&◌, ◌||◌, ◌==◌, nat_beq_iff, beq_refl, All-map, All-zip,
  ◌≡◌, ◌⊎◌, refl, sym, ◌∙◌, ◌↔◌, Option, none, some, List, [], ◌∷◌, ◌++◌, map, arith, if◌then◌else◌,
  contains, nat_beq, All, Text, text, nat_eq, text_eq, Option-cases, Bool-cases, inl, inr,
}
use tezcatlipoca.Base.Actions.{Result, ok, err}
use tezcatlipoca.Base.Dict.{lookup, put}
use tezcatlipoca.Vmids.{
  Placement, Satellite, or_else, engine_template_vmid, reserved_vmids, BlockClash,
  check_team_blocks,
}
use tezcatlipoca.Vmids.Blocks.{IsFree, check_team_blocks_iff}

pub data Inconsistent : Type 0 where
  in_two_bands : (vmid : ℕ) (first second : Text) → Inconsistent
  block_clash : (found : BlockClash) → Inconsistent

pub distinct : List ℕ → List ℕ
unfolding contains
distinct [] = []
distinct (v ∷ vs) = let rest = distinct vs in if contains rest v then rest else v ∷ rest

put_goldens : List (Text × List ℕ) → List (Text × List ℕ) → List (Text × List ℕ)
unfolding put
put_goldens [] bands = bands
put_goldens ((name, vmids) ∷ goldens) bands =
    put_goldens goldens (put (text "goldens on " ++ name) vmids bands)

put_jumps : List Satellite → List (Text × List ℕ) → List (Text × List ℕ)
unfolding put
put_jumps [] bands = bands
put_jumps (s ∷ satellites) bands =
    put_jumps satellites (put (text "jump on " ++ s.name) (s.jump_vmid ∷ []) bands)

-- the run's own bands by name
unfoldable pub bands : Placement → List (Text × List ℕ)
unfolding put_goldens put_jumps
bands p =
    let own =
      (text "engine", p.engine_vmid ∷ [])
      ∷ (
        text "engine template",
        or_else p.engine_template (engine_template_vmid p.engine_vmid) ∷ [],
      )
      ∷ elim p.red01 [ none ↦ [] | some vmid ↦ (text "red01", vmid ∷ []) ∷ [] ] in
    put_jumps p.satellites (put_goldens p.golden_vmids own)

-- the inner loop, with `seen` before and after it
pub claim_band : List (ℕ × Text) → Text → List ℕ → Result Inconsistent (List (ℕ × Text))
unfolding lookup
claim_band seen name [] = ok seen
claim_band seen name (v ∷ vs) = elim (lookup v seen) [
  | none ↦ claim_band ((v, name) ∷ seen) name vs
  | some first ↦ err (in_two_bands v first name)
]

pub claim_bands : List (ℕ × Text) → List (Text × List ℕ) → Result Inconsistent (Unit {0})
unfolding claim_band distinct
claim_bands seen [] = ok tt
claim_bands seen ((name, band) ∷ rest) = elim (claim_band seen name (distinct band)) [
  | ok seen' ↦ claim_bands seen' rest
  | err e ↦ err e
]

pub then_blocks :
    Result Inconsistent (Unit {0}) → Result BlockClash (Unit {0}) → Result Inconsistent (Unit {0})
then_blocks (err e) r = err e
then_blocks (ok _) (ok _) = ok tt
then_blocks (ok _) (err c) = err (block_clash c)

-- with no placement, or none that names an engine, nothing is checked
unfoldable pub check_placement : Option Placement → Result Inconsistent (Unit {0})
unfolding claim_bands then_blocks bands check_team_blocks
check_placement none = ok tt
check_placement (some p) =
    if nat_beq p.engine_vmid 0
    then ok tt
    else then_blocks (claim_bands [] (bands p)) (check_team_blocks p p.team_identifiers)
