-- ===== src/Teardown/Resume.antt =====
-- teardown/engine.py: what an entry of the journal saves a later execution.
use tezcatlipoca.Base.{
  Bool, true, false, ◌≡◌, refl, ap, ◌⊎◌, inl, inr, Option, none, some, List, [], ◌∷◌, arith,
  if◌then◌else◌, Bool-cases, Text, text_eq, text_beq,
}
use tezcatlipoca.Base.Dict.{lookup, put, lookup-put}
use tezcatlipoca.Teardown.{
  Step, StepResult, TeardownPlan, Journal, Session, is_done, settle, record_done, perform,
  visit_done, visit, run_steps, own_journal, execute,
}

abbrev pub IsJournalled : {D : Type 0} → Text → List (Text × D) → Type 0
IsJournalled {D} k done = (d : D) × (lookup k done ≡ some d)

abbrev pub is_journalled : {D : Type 0} → Text → List (Text × D) → Bool
is_journalled k done = elim (lookup k done) [ none ↦ false | some _ ↦ true ]

pub IsJournalled-test :
    {D : Type 0} (k : Text) (done : List (Text × D))
    → IsJournalled k done
    → is_journalled k done ≡ true
IsJournalled-test k done (d, e) = rw (e, is_journalled)

pub test-IsJournalled :
    {D : Type 0} (k : Text) (done : List (Text × D))
    → is_journalled k done ≡ true
    → IsJournalled k done
test-IsJournalled {D} k done = found (lookup k done)
  where
    found :
        (o : Option D) → (elim o [ none ↦ false | some _ ↦ true ]) ≡ true → (d : D) × (o ≡ some d)
    found none h = cc
    found (some d) h = (d, refl)

put-IsJournalled :
    {D : Type 0} (k j : Text) (v : D) (done : List (Text × D))
    → IsJournalled k done
    → IsJournalled k (put j v done)
put-IsJournalled k j v done (d, e) = elim (Bool-cases (text_beq j k)) [
  | inl same ↦ (v, rw (lookup-put j k v done, same))
  | inr other ↦ (d, rw (lookup-put j k v done, other) e)
]

module _ {W D : Type 0} where
  -- the same step, or two under one name that are resumable and journalled
  abbrev pub Alike : List (Text × D) → Step W D → Step W D → Type 0
  Alike done s s' =
      (s ≡ s')
      ⊎ ((s.name ≡ s'.name)
          × (s.resumable ≡ true)
          × (s'.resumable ≡ true)
          × IsJournalled s.name done)

  abbrev pub AllAlike : List (Text × D) → List (Step W D) → List (Step W D) → Type 0
  AllAlike done [] [] = Unit
  AllAlike done [] (t ∷ ts) = ⊥
  AllAlike done (s ∷ ss) [] = ⊥
  AllAlike done (s ∷ ss) (t ∷ ts) = Alike done s t × AllAlike done ss ts

  AllAlike-mono :
      (done more : List (Text × D)) (ss ts : List (Step W D))
      → ((k : Text) → IsJournalled k done → IsJournalled k more)
      → AllAlike done ss ts
      → AllAlike more ss ts
  AllAlike-mono done more [] [] grow h = tt
  AllAlike-mono done more [] (t ∷ ts) grow h = absurd h
  AllAlike-mono done more (s ∷ ss) [] grow h = absurd h
  AllAlike-mono done more (s ∷ ss) (t ∷ ts) grow h = (
    elim h.0 [ inl e ↦ inl e | inr (n, a, b, j) ↦ inr (n, a, b, grow s.name j) ],
    AllAlike-mono done more ss ts grow h.1,
  )

module _ {W D : Type 0} (journal_enabled : Bool) (run_id : Text) (invalidate : W → W)
    (entry_detail : D → Text) where
  abbrev run : List (Step W D) → Session W D → List StepResult × Session W D
  run = run_steps journal_enabled run_id invalidate entry_detail

  abbrev visit_step : Step W D → Session W D → StepResult × Session W D × Bool
  visit_step = visit journal_enabled run_id invalidate entry_detail

  pub record_done_journal :
      (step : Step W D) (r : StepResult) (s : Session W D)
      → (record_done journal_enabled run_id invalidate entry_detail step r s).journal.done ≡ (
          if is_done r.status
          then put step.name (step.journal_detail r) s.journal.done
          else s.journal.done)
  unfolding record_done
  record_done_journal step r s = ground arith

  record_done_keeps :
      (k : Text) (step : Step W D) (r : StepResult) (s : Session W D)
      → IsJournalled k s.journal.done
      → IsJournalled k
          (record_done journal_enabled run_id invalidate entry_detail step r s).journal.done
  record_done_keeps k step r s h =
      rw (record_done_journal step r s) (elim (Bool-cases (is_done r.status)) [
        | inl e ↦ rw e (put-IsJournalled k step.name (step.journal_detail r) s.journal.done h)
        | inr e ↦ rw e h
      ])

  pub visit_keeps :
      (k : Text) (step : Step W D) (s : Session W D)
      → IsJournalled k s.journal.done
      → IsJournalled k (visit_step step s).1.journal.done
  unfolding visit
  visit_keeps k step s h = visited (lookup step.name s.journal.done)
    where
      ran :
          IsJournalled k
            (perform journal_enabled run_id invalidate entry_detail step s).1.journal.done
      ran =
          let (outcome, w) = step.run (invalidate s.world) in
          record_done_keeps k step
            (settle journal_enabled run_id invalidate entry_detail step outcome)
            (record s { world = w }) h

      skipping :
          (b : Bool) (x y : StepResult × Session W D × Bool)
          → IsJournalled k x.1.journal.done
          → IsJournalled k y.1.journal.done
          → IsJournalled k (if b then x else y).1.journal.done
      skipping true x y p q = p
      skipping false x y p q = q

      visited :
          (d : Option D)
          → IsJournalled k
              (visit_done journal_enabled run_id invalidate entry_detail step s d).1.journal.done
      visited none = ran
      visited (some d) = skipping step.resumable _ _ h ran

  visit-Alike :
      (step step' : Step W D) (s : Session W D)
      → Alike s.journal.done step step'
      → visit_step step s ≡ visit_step step' s
  unfolding visit
  visit-Alike step step' s (inl e) = ap (λ t. visit_step t s) e
  visit-Alike step step' s (inr (n, a, b, (d, j))) = rw (← n, j, visit_done, a, b, n)

  run_alike :
      (ss ts : List (Step W D)) (s : Session W D)
      → AllAlike s.journal.done ss ts
      → run ss s ≡ run ts s
  unfolding run_steps
  run_alike [] [] s h = refl
  run_alike [] (t ∷ ts) s h = absurd h
  run_alike (step ∷ ss) [] s h = absurd h
  run_alike (step ∷ ss) (t ∷ ts) s h =
      let after = (visit_step step s).1 in
      let same = visit-Alike step t s h.0 in
      let later =
        run_alike ss ts after
          (AllAlike-mono s.journal.done after.journal.done ss ts (λ k. visit_keeps k step s) h.1) in
      ground (arith, same, later)

  -- A resumable step that the journal of this run records as done is not run: replacing what the
  -- step does changes neither the results of the execution, nor the world, nor the saved journal.
  pub journalled_not_run :
      (plan plan' : TeardownPlan W D) (w : W) (saved : Option (Journal D))
      → plan.gates ≡ plan'.gates
      → AllAlike
          (own_journal journal_enabled run_id invalidate entry_detail saved).done
          plan.steps
          plan'.steps
      → execute journal_enabled run_id invalidate entry_detail plan w saved
        ≡ execute journal_enabled run_id invalidate entry_detail plan' w saved
  unfolding execute
  journalled_not_run plan plan' w saved gates steps =
      let start : Session W D = record {
        world = w;
        journal = own_journal journal_enabled run_id invalidate entry_detail saved;
        saved = saved;
      } in
      ground (arith, gates, run_alike plan.steps plan'.steps start steps)
