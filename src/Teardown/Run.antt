-- ===== src/Teardown/Run.antt =====
-- teardown/engine.py: which steps an execution visits.
use tezcatlipoca.Base.{
  Bool, true, false, ◌≡◌, refl, Option, none, some, List, [], ◌∷◌, arith, length, any, All, Text,
  text_eq,
}
use tezcatlipoca.Base.Actions.{Result}
use tezcatlipoca.Base.Dict.{lookup}
use tezcatlipoca.Teardown.{
  Step, StepResult, Outcome, returned, refusal, exception, TeardownPlan, Journal, Session,
  is_failed, settle, perform, visit_done, visit, run_steps, first_refusal, own_journal, execute,
}

-- some result is `failed`
abbrev pub any_failed : List StepResult → Bool
any_failed = any (λ r. is_failed r.status)

-- results named by their steps, a prefix of the plan
abbrev pub IsPrefixOf : {W D : Type 0} → List StepResult → List (Step W D) → Type 0
IsPrefixOf [] steps = Unit
IsPrefixOf (r ∷ rs) [] = ⊥
IsPrefixOf (r ∷ rs) (s ∷ ss) = (r.name ≡ s.name) × IsPrefixOf rs ss

-- what a step returns bears its name
abbrev pub NamesItself : {W D : Type 0} → Step W D → Type 0
NamesItself {W} step = (w : W) (r : StepResult) → (step.run w).0 ≡ returned r → r.name ≡ step.name

module _ {W D : Type 0} (journal_enabled : Bool) (run_id : Text) (invalidate : W → W)
    (entry_detail : D → Text) where
  abbrev run : List (Step W D) → Session W D → List StepResult × Session W D
  run = run_steps journal_enabled run_id invalidate entry_detail

  -- the loop breaks only behind a failed result
  visit_stop :
      (step : Step W D) (s : Session W D)
      → (visit journal_enabled run_id invalidate entry_detail step s).2 ≡ true
      → is_failed (visit journal_enabled run_id invalidate entry_detail step s).0.status ≡ true
  unfolding visit
  visit_stop step s h = ground arith

  run_complete :
      (steps : List (Step W D)) (s : Session W D)
      → any_failed (run steps s).0 ≡ false
      → length (run steps s).0 ≡ length steps
  unfolding run_steps any
  run_complete [] s h = refl
  run_complete (step ∷ steps) s h =
      let after = (visit journal_enabled run_id invalidate entry_detail step s).1 in
      ground (arith, visit_stop step s, run_complete steps after)

  settle-name :
      (step : Step W D) (w : W)
      → NamesItself step
      → (settle journal_enabled run_id invalidate entry_detail step (step.run w).0).name ≡ step.name
  unfolding settle
  settle-name step w h = settled (step.run w).0 refl
    where
      settled :
          (o : Outcome)
          → (step.run w).0 ≡ o
          → (settle journal_enabled run_id invalidate entry_detail step o).name ≡ step.name
      settled (returned r) e = h w r e
      settled (refusal m) e = ground arith
      settled (exception t m) e = ground arith

  pub visit-name :
      (step : Step W D) (s : Session W D)
      → NamesItself step
      → (visit journal_enabled run_id invalidate entry_detail step s).0.name ≡ step.name
  unfolding visit
  visit-name step s h = visited (lookup step.name s.journal.done)
    where
      ran : (perform journal_enabled run_id invalidate entry_detail step s).0.name ≡ step.name
      ran = settle-name step (invalidate s.world) h

      visited :
          (d : Option D)
          → (visit_done journal_enabled run_id invalidate entry_detail step s d).0.name ≡ step.name
      visited none = ran
      visited (some d) = ground (arith, ran)

  run-IsPrefixOf :
      (steps : List (Step W D)) (s : Session W D)
      → All NamesItself steps
      → IsPrefixOf (run steps s).0 steps
  unfolding run_steps
  run-IsPrefixOf [] s h = tt
  run-IsPrefixOf (step ∷ steps) s h =
      let after = (visit journal_enabled run_id invalidate entry_detail step s).1 in
      ground (arith, visit-name step s h.0, run-IsPrefixOf steps after h.1)

  -- The results of an execution that no gate refuses are those of a first part of the plan, in
  -- the plan's order and under the steps' names, if each step names its own result; and if no
  -- result is failed, that part is the whole plan.
  pub execute_results :
      (plan : TeardownPlan W D) (w : W) (saved : Option (Journal D)) (results : List StepResult)
      → All NamesItself plan.steps
      → (execute journal_enabled run_id invalidate entry_detail plan w saved).0 ≡ Result.ok results
      → IsPrefixOf results plan.steps
        × (any_failed results ≡ false → length results ≡ length plan.steps)
  unfolding execute
  execute_results plan w saved results h =
      gated (first_refusal journal_enabled run_id invalidate entry_detail plan.gates w) refl
    where
      start : Session W D
      start = record {
        world = w;
        journal = own_journal journal_enabled run_id invalidate entry_detail saved;
        saved = saved;
      }

      gated :
          (m : Option Text)
          → first_refusal journal_enabled run_id invalidate entry_detail plan.gates w ≡ m
          → (execute journal_enabled run_id invalidate entry_detail plan w saved).0
            ≡ Result.ok results
          → IsPrefixOf results plan.steps
            × (any_failed results ≡ false → length results ≡ length plan.steps)
      gated none e q =
          let same : (run plan.steps start).0 ≡ results = ground (arith, e) in
          (
            rw same at (run-IsPrefixOf plan.steps start h),
            rw same at (run_complete plan.steps start),
          )
      gated (some m) e q = absurd (ground (arith, e))
