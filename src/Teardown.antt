-- ===== src/Teardown.antt =====
-- teardown/plan.py, teardown/steps.py and teardown/engine.py: a teardown is a plan of steps, the
-- engine runs it against a journal. `W` is the world that the steps act on, `D` what the journal
-- keeps of a step, a JSON object that is never empty. Output is not modelled.
pub mod Order
pub mod Run
pub mod Resume
pub mod Records
pub mod Inventory
pub mod Clean
mod Tests
use tezcatlipoca.Base.{
  ℕ, zero, suc, ◌+◌, Bool, true, false, not, ◌&&◌, ◌||◌, Option, none, some, List, [], ◌∷◌, ◌++◌,
  ltb, if◌then◌else◌, is_empty, length, keep, find, Text, text, text_eq, ◌==◌, map,
}
use tezcatlipoca.Base.Actions.{Result}
use tezcatlipoca.Base.Dict.{lookup, put}

pub data Kind : Type 0 where
  evidence teardown : Kind

pub data Policy : Type 0 where
  refuse warn_and_proceed : Policy

pub data Status : Type 0 where
  ok warned failed skipped : Status

pub record StepResult : Type 0 where
  pub name : Text
  pub status : Status
  pub detail : Text

-- how `step.run` ends
pub data Outcome : Type 0 where
  returned : StepResult → Outcome
  refusal : (message : Text) → Outcome
  exception : (type_name message : Text) → Outcome

pub record Step (W D : Type 0) : Type 0 where
  pub name : Text
  pub kind : Kind
  pub failure : Policy
  pub destructive : Bool
  pub resumable : Bool
  pub run : W → Outcome × W
  pub journal_detail : StepResult → D

abbrev pub is_evidence : Kind → Bool
is_evidence evidence = true
is_evidence teardown = false

pub data PlanError : Type 0 where
  no_evidence : PlanError
  -- the step, its position and the last evidence position
  destroys_early : (step : Text) (position last_evidence : ℕ) → PlanError

pub record TeardownPlan (W D : Type 0) : Type 0 where
  -- a gate that refuses gives its message
  pub gates : List (W → Option Text)
  pub steps : List (Step W D)

-- max of a list that is not empty
maximum : ℕ → List ℕ → ℕ
maximum m [] = m
maximum m (x ∷ xs) = maximum (if ltb m x then x else m) xs

module _ {W D : Type 0} where
  -- [i for i, s in enumerate(steps) if s.kind == EVIDENCE]
  evidence_idx : ℕ → List (Step W D) → List ℕ
  evidence_idx i [] = []
  evidence_idx i (s ∷ ss) =
      let rest = evidence_idx (suc i) ss in if is_evidence s.kind then i ∷ rest else rest

  pub destroys : Step W D → Bool
  destroys s = not (is_evidence s.kind) && s.destructive

  first_violation : ℕ → ℕ → List (Step W D) → Option PlanError
  unfolding destroys
  first_violation last i [] = none
  first_violation last i (s ∷ ss) =
      let rest = first_violation last (suc i) ss in
      if destroys s && ltb i last then some (destroys_early s.name i last) else rest

  check_order : List (Step W D) → List ℕ → Option PlanError
  unfolding first_violation maximum
  check_order steps [] = some no_evidence
  check_order steps (i ∷ is) = first_violation (maximum i is) 0 steps

  -- TeardownPlan(gates, steps)
  unfoldable pub make_plan :
      List (W → Option Text) → List (Step W D) → Result PlanError (TeardownPlan W D)
  unfolding check_order evidence_idx
  make_plan gates steps = elim (check_order steps (evidence_idx 0 steps)) [
    | none ↦ Result.ok (record { gates = gates; steps = steps })
    | some e ↦ Result.err e
  ]

-- the journal: the run that it belongs to, if it names one, and what is done by step name
pub record Journal (D : Type 0) : Type 0 where
  pub run_id : Option Text
  pub done : List (Text × D)

abbrev pub fresh_journal : {D : Type 0} → Text → Journal D
fresh_journal run_id = record { run_id = some run_id; done = [] }

-- `journal.get("run_id") not in (None, run_id)`
foreign_run : Text → Option Text → Bool
foreign_run run_id none = false
foreign_run run_id (some other) = not (other == run_id)

-- What the steps run in: the world, the journal in memory, and the one in the state document.
pub record Session (W D : Type 0) : Type 0 where
  pub world : W
  pub journal : Journal D
  pub saved : Option (Journal D)

abbrev pub is_failed : Status → Bool
is_failed failed = true
is_failed _ = false

abbrev pub is_refuse : Policy → Bool
is_refuse refuse = true
is_refuse warn_and_proceed = false

-- statuses that the journal records
abbrev pub is_done : Status → Bool
is_done ok = true
is_done skipped = true
is_done _ = false

module _ {W D : Type 0} (journal_enabled : Bool) (run_id : Text) (invalidate : W → W)
    (entry_detail : D → Text) where
  -- `_load_journal` and the check of its run
  load_journal : Option (Journal D) → Journal D
  load_journal none = fresh_journal run_id
  load_journal (some j) =
      if journal_enabled && not (is_empty j.done) then j else fresh_journal run_id

  pub own_journal : Option (Journal D) → Journal D
  unfolding load_journal foreign_run
  own_journal saved =
      let j = load_journal saved in if foreign_run run_id j.run_id then fresh_journal run_id else j

  by_policy : Text → Policy → Text → StepResult
  by_policy name refuse message = record { name = name; status = failed; detail = message }
  by_policy name warn_and_proceed message = record {
    name = name;
    status = warned;
    detail = message ++ text " — continuing";
  }

  -- the policy for a step that raises, applied once
  settle : Step W D → Outcome → StepResult
  unfolding by_policy
  settle step (returned r) = r
  settle step (refusal m) = by_policy step.name step.failure (text "refused: " ++ m)
  settle step (exception t m) = by_policy step.name step.failure (t ++ (text ": " ++ m))

  pub record_done : Step W D → StepResult → Session W D → Session W D
  record_done step r s =
      if is_done r.status
      then (let done = put step.name (step.journal_detail r) s.journal.done in
          if journal_enabled
          then (let j : Journal D = record { run_id = some run_id; done = done } in
              record s { journal = j; saved = some j })
          else record s { journal = record s.journal { done = done } })
      else s

  -- the result, the session after it, and whether the loop breaks
  perform : Step W D → Session W D → StepResult × Session W D × Bool
  unfolding settle record_done
  perform step s =
      let (outcome, world) = step.run (invalidate s.world) in
      let r = settle step outcome in
      (
        r,
        record_done step r (record s { world = world }),
        is_failed r.status && is_refuse step.failure,
      )

  -- a journalled step is passed over
  visit_done : Step W D → Session W D → Option D → StepResult × Session W D × Bool
  unfolding perform
  visit_done step s none = perform step s
  visit_done step s (some d) =
      if step.resumable
      then (
        record {
          name = step.name;
          status = skipped;
          detail = text "already done this run (" ++ (entry_detail d ++ text ")");
        },
        s,
        false,
      )
      else perform step s

  pub visit : Step W D → Session W D → StepResult × Session W D × Bool
  unfolding visit_done
  visit step s = visit_done step s (lookup step.name s.journal.done)

  pub run_steps : List (Step W D) → Session W D → List StepResult × Session W D
  unfolding visit
  run_steps [] s = ([], s)
  run_steps (step ∷ steps) s =
      let (r, s', stop) = visit step s in
      let rest = run_steps steps s' in if stop then (r ∷ [], s') else (r ∷ rest.0, rest.1)

  -- the first gate that refuses
  first_refusal : List (W → Option Text) → W → Option Text
  first_refusal [] w = none
  first_refusal (gate ∷ gates) w =
      let rest = first_refusal gates w in elim (gate w) [ none ↦ rest | some m ↦ some m ]

  -- TeardownEngine.execute: the message of the gate that refused, or the results
  unfoldable pub execute :
      TeardownPlan W D
      → W
      → Option (Journal D)
      → Result Text (List StepResult) × W × Option (Journal D)
  unfolding own_journal run_steps first_refusal
  execute plan w saved = elim (first_refusal plan.gates w) [
    | some m ↦ (Result.err m, w, saved)
    | none ↦
        (let (results, s) =
            run_steps plan.steps
              (record { world = w; journal = own_journal saved; saved = saved }) in
          (Result.ok results, s.world, s.saved))
  ]
