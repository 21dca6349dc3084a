-- ===== src/Verifier.antt =====
-- verifier/model.py and verifier/verdict.py: the results of gates and the verdict of a run. The
-- detail of a result, which is text to read, is not modelled.
pub mod Scoreboard
mod Tests
use tezcatlipoca.Base.{
  ℕ, Bool, true, false, not, ◌&&◌, ◌||◌, Option, none, some, List, [], ◌∷◌, if◌then◌else◌, contains,
  is_empty, Text, text, text_eq,
}
use tezcatlipoca.Base.Dict.{put}

pub data Status : Type 0 where
  pass fail skip_unavailable : Status

pub record GateResult : Type 0 where
  pub name : Text
  pub status : Status
  -- reported and left out of the verdict where it is false
  pub gating : Bool
  pub label : Text

-- a label that is not given is the name
unfoldable pub gate_result : Text → Status → Bool → Text → GateResult
gate_result name status gating label = record {
  name = name;
  status = status;
  gating = gating;
  label = if is_empty label then name else label;
}

unfoldable pub passed : Status → Bool
passed pass = true
passed fail = false
passed skip_unavailable = false

unfoldable pub gate_fail : Text → Bool → Text → GateResult
unfolding gate_result
gate_fail name = gate_result name fail

unfoldable pub gate_skip : Text → Bool → Text → GateResult
unfolding gate_result
gate_skip name = gate_result name skip_unavailable

unfoldable pub bool_gate : Text → Bool → Bool → Text → GateResult
unfolding gate_result
bool_gate name ok = gate_result name (if ok then pass else fail)

-- a skip counts only where the operator named the gate
unfoldable pub counts : List Text → GateResult → Bool
unfolding contains
counts allowed r = elim r.status [
  | pass ↦ true
  | fail ↦ false
  | skip_unavailable ↦ contains allowed r.name || contains allowed r.label
]

gates_onto : List (Text × Bool) → List GateResult → List (Text × Bool)
unfolding put passed
gates_onto gates [] = gates
gates_onto gates (r ∷ rs) =
    gates_onto (if r.gating then put r.name (passed r.status) gates else gates) rs

pub all_count : List Text → List GateResult → Bool
unfolding counts
all_count allowed [] = true
all_count allowed (r ∷ rs) = (not r.gating || counts allowed r) && all_count allowed rs

-- the gates by name, and whether the run passes
unfoldable pub gate_verdict : List GateResult → List Text → List (Text × Bool) × Bool
unfolding gates_onto all_count
gate_verdict results allowed = (gates_onto [] results, all_count allowed results)
