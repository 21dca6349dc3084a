-- ===== src/Teardown/Clean.antt =====
-- teardown/engine.py: `verify_clean`, the report on an estate after a teardown. `D` is what the
-- journal keeps of a step, with the entries that the report reads.
pub mod Report
use tezcatlipoca.Base.{
  ℕ, zero, suc, Bool, true, false, not, ◌&&◌, ◌||◌, Option, none, some, List, [], ◌∷◌, ◌++◌, map,
  ltb, if◌then◌else◌, is_empty, length, contains, subset, any, find, Text, text, text_eq,
  starts_with,
}
use tezcatlipoca.Base.Dict.{lookup}
use tezcatlipoca.Tags.{parse_vm_tags}
use tezcatlipoca.Proxmox.{Vm}
use tezcatlipoca.Red.{Occupant, absent, ours, another_run, foreign, unmarked, unknown}
use tezcatlipoca.Teardown.{
  StepResult, Step, is_evidence, is_failed, TeardownPlan, Journal, load_journal,
}
use tezcatlipoca.Teardown.Inventory.{View, listing_failed, owned, comp_tagged}

pub data Problem : Type 0 where
  step_failed : (step : Text) → Problem
  stopped_early : Problem
  not_listed : (node : Text) → Problem
  still_standing : (node : Text) (vm : Vm) → Problem
  red_present red_unmarked red_unverified : Problem
  not_archived : Problem

pub data Note : Type 0 where
  template_kept other_run no_run_tag : (node : Text) (vm : Vm) → Note
  red_other_run red_foreign : (vmid : ℕ) → Note
  evidence_incomplete : (lost : ℕ) → Note

pub record CleanReport : Type 0 where
  pub clean : Bool
  pub problems : List Problem
  pub notes : List Note

-- what the report reads of the teardown's context
pub record Setting : Type 0 where
  pub full : Bool
  pub keep_red : Bool
  pub ownership : List Text
  pub comp : Text
  -- red01's vmid as recorded, and as in the state of the deploy
  pub recorded_red : Option ℕ
  pub deployed_red : Option ℕ

-- None and 0 are false
abbrev pub truthy : Option ℕ → Bool
truthy none = false
truthy (some zero) = false
truthy (some (suc n)) = true

result_problems : Option (List StepResult) → ℕ → List Problem
result_problems none steps = []
result_problems (some results) steps = elim (find (λ r. is_failed r.status) results) [
  | some r ↦ step_failed r.name ∷ []
  | none ↦ if ltb (length results) steps then stopped_early ∷ [] else []
]

-- "tezcatlipoca-golden" or "engine-template"
pub has_role : List Text → Bool
has_role tags = contains tags (text "tezcatlipoca-golden") || contains tags (text "engine-template")

-- a VM of ours that the teardown may leave
pub may_stay : Bool → Vm → Bool
unfolding has_role
may_stay full vm = not full && has_role (parse_vm_tags vm.tags) && not vm.running

standing : Bool → List (Text × Vm) → List Problem
unfolding may_stay
standing full [] = []
standing full ((node, vm) ∷ vms) =
    let rest = standing full vms in if may_stay full vm then rest else still_standing node vm ∷ rest

kept : Bool → List (Text × Vm) → List Note
unfolding may_stay
kept full [] = []
kept full ((node, vm) ∷ vms) =
    let rest = kept full vms in if may_stay full vm then template_kept node vm ∷ rest else rest

-- foreign survivors are named
survivors : List Text → List (Text × Vm) → List Note
survivors ownership [] = []
survivors ownership ((node, vm) ∷ vms) =
    let rest = survivors ownership vms in
    let tags = parse_vm_tags vm.tags in
    if subset ownership tags
    then rest
    else if any (starts_with (text "run-")) tags
    then other_run node vm ∷ rest
    else no_run_tag node vm ∷ rest

-- next((v for v in vmids if v), None)
first_truthy : List (Option ℕ) → Option ℕ
first_truthy [] = none
first_truthy (v ∷ vs) = let rest = first_truthy vs in if truthy v then v else rest

-- what the occupant of red01's vmid means; `expected` is whether red01 is known to have been there
red_problems : Bool → Option Occupant → List Problem
red_problems expected none = if expected then red_unverified ∷ [] else []
red_problems expected (some absent) = []
red_problems expected (some ours) = red_present ∷ []
red_problems expected (some another_run) = []
red_problems expected (some foreign) = []
red_problems expected (some unmarked) = red_unmarked ∷ []
red_problems expected (some unknown) = if expected then red_unverified ∷ [] else []

red_notes : ℕ → Option Occupant → List Note
red_notes vmid (some another_run) = red_other_run vmid ∷ []
red_notes vmid (some foreign) = red_foreign vmid ∷ []
red_notes vmid _ = []

red_report : (ℕ → Option Occupant) → Bool → Option ℕ → List Problem × List Note
unfolding red_problems red_notes
red_report occupant expected none = ([], [])
red_report occupant expected (some vmid) =
    (red_problems expected (occupant vmid), red_notes vmid (occupant vmid))

-- `test_dir` as recorded, with whether it exists and how many of its items are lost
evidence_report : (Text → Bool) → (Text → ℕ) → Option Text → List Problem × List Note
evidence_report exists lost none = (not_archived ∷ [], [])
evidence_report exists lost (some dir) =
    if is_empty dir || not (exists dir)
    then (not_archived ∷ [], [])
    else ([], if ltb 0 (lost dir) then evidence_incomplete (lost dir) ∷ [] else [])

-- `x.get(...)` of an entry that may be missing
pub entry_of : {D A : Type 0} → (D → Option A) → Option D → Option A
entry_of field none = none
entry_of field (some d) = field d

-- the state of the deploy, or an entry of the journal that is not skipped, knows of red01
pub red_was_there : {D : Type 0} → (D → Bool) → Option ℕ → Option D → Bool
red_was_there entry_skipped deployed none = truthy deployed
red_was_there entry_skipped deployed (some d) = truthy deployed || not (entry_skipped d)

pub red_vmid : {D : Type 0} → (D → Option ℕ) → Setting → Option D → Option ℕ
unfolding first_truthy entry_of
red_vmid entry_vmid ctx entry =
    first_truthy (entry_of entry_vmid entry ∷ ctx.recorded_red ∷ ctx.deployed_red ∷ [])

module _ {W D : Type 0} (journal_enabled : Bool) (run_id : Text) (invalidate : W → W)
    (entry_detail : D → Text) (entry_vmid : D → Option ℕ) (entry_skipped : D → Bool)
    (entry_test_dir : D → Option Text) (exists : Text → Bool) (lost : Text → ℕ)
    (occupant : ℕ → Option Occupant) where
  -- self._load_journal().get("done")
  pub journal_done : Option (Journal D) → List (Text × D)
  unfolding load_journal
  journal_done saved =
      let j = load_journal journal_enabled run_id invalidate entry_detail saved in j.done

  red_part : Setting → List (Text × D) → List Problem × List Note
  unfolding red_report red_vmid red_was_there
  red_part ctx done =
      let entry = lookup (text "red01") done in
      if ctx.keep_red
      then ([], [])
      else red_report occupant (red_was_there entry_skipped ctx.deployed_red entry)
          (red_vmid entry_vmid ctx entry)

  evidence_part : List (Step W D) → List (Text × D) → List Problem × List Note
  unfolding evidence_report entry_of
  evidence_part steps done =
      if is_empty done || not (any (λ s. is_evidence s.kind) steps)
      then ([], [])
      else evidence_report exists lost (entry_of entry_test_dir (lookup (text "artifacts") done))

  -- TeardownEngine.verify_clean, on the views of a fresh generation of the inventory
  unfoldable pub verify_clean :
      Setting
      → TeardownPlan W D
      → Option (List StepResult)
      → List View
      → Option (Journal D)
      → CleanReport
  unfolding journal_done red_part evidence_part result_problems listing_failed owned comp_tagged
      standing kept survivors
  verify_clean ctx plan results views saved =
      let red = red_part ctx (journal_done saved) in
      let evidence = evidence_part plan.steps (journal_done saved) in
      let problems =
        result_problems results (length plan.steps)
        ++ (map not_listed (listing_failed views)
            ++ (standing ctx.full (owned ctx.ownership views) ++ (red.0 ++ evidence.0))) in
      let notes =
        kept ctx.full (owned ctx.ownership views)
        ++ (survivors ctx.ownership (comp_tagged ctx.comp views) ++ (red.1 ++ evidence.1)) in
      record { clean = is_empty problems; problems = problems; notes = notes }
