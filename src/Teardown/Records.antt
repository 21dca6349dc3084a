-- ===== src/Teardown/Records.antt =====
-- teardown/engine.py: what the journal records of an execution.
use mathlib.Core.Path.{subst}
use tezcatlipoca.Base.{
  Bool, true, false, ◌&&◌, ◌≡◌, refl, sym, ◌∙◌, inl, inr, Option, none, some, List, [], ◌∷◌, arith,
  Bool-cases, any, All, Text, text_eq, text_beq, text_beq_iff,
}
use tezcatlipoca.Base.Dict.{lookup, lookup-put}
use tezcatlipoca.Teardown.{
  Step, StepResult, Session, is_done, settle, perform, visit_done, visit, run_steps,
}
use tezcatlipoca.Teardown.Run.{NamesItself, visit-name}
use tezcatlipoca.Teardown.Resume.{
  IsJournalled, is_journalled, IsJournalled-test, test-IsJournalled, record_done_journal,
  visit_keeps,
}

-- some result under this name is ok or skipped
abbrev pub finished : Text → List StepResult → Bool
finished k = any (λ r. text_beq r.name k && is_done r.status)

module _ {W D : Type 0} (journal_enabled : Bool) (run_id : Text) (invalidate : W → W)
    (entry_detail : D → Text) where
  abbrev run : List (Step W D) → Session W D → List StepResult × Session W D
  run = run_steps journal_enabled run_id invalidate entry_detail

  abbrev visit_step : Step W D → Session W D → StepResult × Session W D × Bool
  visit_step = visit journal_enabled run_id invalidate entry_detail

  visit_records :
      (step : Step W D) (s : Session W D)
      → is_done (visit_step step s).0.status ≡ true
      → IsJournalled step.name (visit_step step s).1.journal.done
  unfolding visit
  visit_records step s = visited (lookup step.name s.journal.done) refl
    where
      ran :
          is_done (perform journal_enabled run_id invalidate entry_detail step s).0.status ≡ true
          → IsJournalled step.name
              (perform journal_enabled run_id invalidate entry_detail step s).1.journal.done
      ran h =
          let (outcome, w) = step.run (invalidate s.world) in
          let r = settle journal_enabled run_id invalidate entry_detail step outcome in
          rw
            (
              record_done_journal journal_enabled run_id invalidate entry_detail step r
                  (record s { world = w }),
              h,
            )
            (
              step.journal_detail r,
              rw (
                lookup-put step.name step.name (step.journal_detail r) s.journal.done,
                (text_beq_iff step.name step.name).1 refl,
              ),
            )

      visited :
          (d : Option D)
          → lookup step.name s.journal.done ≡ d
          → is_done (visit_done journal_enabled run_id invalidate entry_detail step s d).0.status
            ≡ true
          → IsJournalled step.name
              (visit_done journal_enabled run_id invalidate entry_detail step s d).1.journal.done
      visited none e h = ran h
      visited (some d) e h = skipping step.resumable refl
        where
          skipping :
              (b : Bool)
              → step.resumable ≡ b
              → IsJournalled step.name
                  (visit_done journal_enabled run_id invalidate entry_detail step s
                    (some d)).1.journal.done
          skipping true q = rw (q, visit_done) (d, e)
          skipping false q = rw (q, visit_done) (ran (rw (q, visit_done) at h))

  visit_other :
      (k : Text) (step : Step W D) (s : Session W D)
      → (text_beq step.name k && is_done (visit_step step s).0.status) ≡ false
      → lookup k (visit_step step s).1.journal.done ≡ lookup k s.journal.done
  unfolding visit
  visit_other k step s = visited (lookup step.name s.journal.done)
    where
      ran :
          (text_beq step.name k
              && is_done (perform journal_enabled run_id invalidate entry_detail step s).0.status)
            ≡ false
          → lookup k (perform journal_enabled run_id invalidate entry_detail step s).1.journal.done
            ≡ lookup k s.journal.done
      ran h =
          let (outcome, w) = step.run (invalidate s.world) in
          let r = settle journal_enabled run_id invalidate entry_detail step outcome in
          rw
            (record_done_journal journal_enabled run_id invalidate entry_detail step r
              (record s { world = w }))
            (ground (arith, h, lookup-put step.name k (step.journal_detail r) s.journal.done))

      visited :
          (d : Option D)
          → (text_beq step.name k
              && is_done
                  (visit_done journal_enabled run_id invalidate entry_detail step s d).0.status)
            ≡ false
          → lookup k
              (visit_done journal_enabled run_id invalidate entry_detail step s d).1.journal.done
            ≡ lookup k s.journal.done
      visited none h = ran h
      visited (some d) h = elim (Bool-cases step.resumable) [
        | inl q ↦ rw (q, visit_done)
        | inr q ↦ rw (q, visit_done) (ran (rw (q, visit_done) at h))
      ]

  run_keeps :
      (k : Text) (steps : List (Step W D)) (s : Session W D)
      → IsJournalled k s.journal.done
      → IsJournalled k (run steps s).1.journal.done
  unfolding run_steps
  run_keeps k [] s h = h
  run_keeps k (step ∷ steps) s h =
      let after = (visit_step step s).1 in
      let here = visit_keeps journal_enabled run_id invalidate entry_detail k step s h in
      let later = run_keeps k steps after here in
      test-IsJournalled k _ (
        ground (
          arith,
          IsJournalled-test k after.journal.done here,
          IsJournalled-test k (run steps after).1.journal.done later,
        ))

  visit_finished :
      (k : Text) (step : Step W D) (s : Session W D)
      → (visit_step step s).0.name ≡ step.name
      → (text_beq (visit_step step s).0.name k && is_done (visit_step step s).0.status) ≡ true
      → IsJournalled k (visit_step step s).1.journal.done
  visit_finished k step s name h =
      let same : step.name ≡ k =
        sym name ∙ (text_beq_iff (visit_step step s).0.name k).0 (ground arith) in
      subst (λ j. IsJournalled j (visit_step step s).1.journal.done) same
        (visit_records step s (ground arith))

  -- An entry of the journal is there after the steps have run if a result under its name is ok or
  -- skipped, and otherwise it is what it was before, if each step names its own result.
  pub run_journal :
      (k : Text) (steps : List (Step W D)) (s : Session W D)
      → All NamesItself steps
      → (finished k (run_steps journal_enabled run_id invalidate entry_detail steps s).0 ≡ true
          → IsJournalled k
              (run_steps journal_enabled run_id invalidate entry_detail steps s).1.journal.done)
        × (finished k (run_steps journal_enabled run_id invalidate entry_detail steps s).0 ≡ false
            → lookup k
                (run_steps journal_enabled run_id invalidate entry_detail steps s).1.journal.done
              ≡ lookup k s.journal.done)
  unfolding run_steps any
  run_journal k [] s h = (λ e. cc, λ e. refl)
  run_journal k (step ∷ steps) s h =
      let v = visit_step step s in
      let after = v.1 in
      let rest = run_journal k steps after h.1 in
      let name = visit-name journal_enabled run_id invalidate entry_detail step s h.0 in
      let hit = text_beq v.0.name k && is_done v.0.status in
      let kept : hit ≡ true → is_journalled k (run steps after).1.journal.done ≡ true = λ q.
        IsJournalled-test k (run steps after).1.journal.done
          (run_keeps k steps after (visit_finished k step s name q)) in
      let here : hit ≡ true → is_journalled k after.journal.done ≡ true =
        λ q. IsJournalled-test k after.journal.done (visit_finished k step s name q) in
      let later : finished k (run steps after).0 ≡ true
          → is_journalled k (run steps after).1.journal.done ≡ true =
        λ q. IsJournalled-test k (run steps after).1.journal.done (rest.0 q) in
      (
        λ e. test-IsJournalled k _ (ground (arith, kept, here, later)),
        λ e. ground (arith, rest.1, visit_other k step s, name),
      )
