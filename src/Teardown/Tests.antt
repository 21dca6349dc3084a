-- ===== src/Teardown/Tests.antt =====
-- A teardown of two steps, archive and purge, on a world that lists what has been done to it.
use tezcatlipoca.Base.{
  text_eq, ℕ, Bool, true, false, ◌≡◌, refl, ◌↔◌, ◌⊎◌, inl, inr, Option, none, some, List, [], ◌∷◌,
  All, length, Text, text,
}
use tezcatlipoca.Base.Actions.{Result}
use tezcatlipoca.Base.Dict.{lookup}
use tezcatlipoca.Teardown.{
  evidence, teardown, refuse, ok, StepResult, Outcome, returned, Step, TeardownPlan, make_plan,
  Journal, Session, destroys_early, own_journal, run_steps, execute,
}
use tezcatlipoca.Teardown.Order.{has_evidence, EvidenceFirst, make_plan_iff}
use tezcatlipoca.Teardown.Run.{NamesItself}
use tezcatlipoca.Proxmox.{joined, Vm}
use tezcatlipoca.Red.{Occupant, absent}
use tezcatlipoca.Teardown.Inventory.{View}
use tezcatlipoca.Teardown.Clean.{Setting, not_listed, still_standing, verify_clean}
use tezcatlipoca.Teardown.Clean.Report.{IsClean, verify_clean_iff}
use tezcatlipoca.Teardown.Resume.{IsJournalled, AllAlike, journalled_not_run}
use tezcatlipoca.Teardown.Records.{finished, run_journal}

abbrev World : Type 0
World = List Text

abbrev run_id : Text
run_id = text "run-1"

abbrev log : Text → World → Outcome × World
log name w = (returned (record { name = name; status = ok; detail = [] }), name ∷ w)

abbrev archive : Step World Text
archive = record {
  name = text "artifacts";
  kind = evidence;
  failure = refuse;
  destructive = false;
  resumable = true;
  run = log (text "artifacts");
  journal_detail = λ r. r.name;
}

abbrev purge : Step World Text
purge = record {
  name = text "vms";
  kind = teardown;
  failure = refuse;
  destructive = true;
  resumable = false;
  run = log (text "vms");
  journal_detail = λ r. r.name;
}

abbrev no_archive : Step World Text
no_archive = record archive {
  run = λ w. (returned (record { name = text "artifacts"; status = ok; detail = [] }), w);
}

abbrev plan : TeardownPlan World Text
plan = record { gates = []; steps = archive ∷ purge ∷ [] }

abbrev resumed_plan : TeardownPlan World Text
resumed_plan = record { gates = []; steps = no_archive ∷ purge ∷ [] }

abbrev archived : Option (Journal Text)
archived = some (record { run_id = some run_id; done = (text "artifacts", text "artifacts") ∷ [] })

abbrev stay : World → World
stay w = w

abbrev detail : Text → Text
detail d = d

purge_first :
    make_plan {W = World} {D = Text} [] (purge ∷ archive ∷ [])
    ≡ Result.err (destroys_early (text "vms") 0 1)
unfolding make_plan
purge_first = refl

resumed_run : (execute true run_id stay detail plan [] archived).1 ≡ text "vms" ∷ []
unfolding execute lookup tezcatlipoca.Base.text_beq
resumed_run = refl

make_plan_iff_example :
    (make_plan {W = World} {D = Text} [] (archive ∷ purge ∷ []) ≡ Result.ok plan)
    ↔ ((has_evidence (archive ∷ purge ∷ []) ≡ true) × EvidenceFirst (archive ∷ purge ∷ []))
make_plan_iff_example = make_plan_iff [] (archive ∷ purge ∷ [])

archive-NamesItself : NamesItself archive
archive-NamesItself w r e = cc e

purge-NamesItself : NamesItself purge
purge-NamesItself w r e = cc e

abbrev both : List StepResult
both =
    record { name = text "artifacts"; status = ok; detail = [] }
    ∷ record { name = text "vms"; status = ok; detail = [] }
    ∷ []

first_execution : (execute true run_id stay detail plan [] none).0 ≡ Result.ok both
unfolding execute lookup tezcatlipoca.Base.text_beq tezcatlipoca.Base.Dict.put
first_execution = refl

archive_alike :
    AllAlike (own_journal true run_id stay detail archived).done plan.steps resumed_plan.steps
unfolding lookup own_journal tezcatlipoca.Base.text_beq
archive_alike = (inr (refl, refl, refl, (text "artifacts", refl)), (inl refl, tt))

journalled_not_run_example :
    execute true run_id stay detail plan [] archived
    ≡ execute true run_id stay detail resumed_plan [] archived
journalled_not_run_example =
    journalled_not_run true run_id stay detail plan resumed_plan [] archived refl archive_alike

abbrev begin : Session World Text
begin = record { world = []; journal = record { run_id = some run_id; done = [] }; saved = none }

run_journal_example :
    (finished (text "vms") (run_steps true run_id stay detail plan.steps begin).0 ≡ true
      → IsJournalled
          (text "vms")
          (run_steps true run_id stay detail plan.steps begin).1.journal.done)
    × (finished (text "vms") (run_steps true run_id stay detail plan.steps begin).0 ≡ false
        → lookup (text "vms") (run_steps true run_id stay detail plan.steps begin).1.journal.done
          ≡ lookup (text "vms") begin.journal.done)
run_journal_example =
    run_journal true run_id stay detail (text "vms") plan.steps begin
      (archive-NamesItself, (purge-NamesItself, tt))

abbrev leftover : Vm
leftover = record {
  vmid = 211;
  name = text "web-team1";
  tags = joined (text "comp-cde;run-1");
  running = false;
}

abbrev setting : Setting
setting = record {
  full = true;
  keep_red = false;
  ownership = text "comp-cde" ∷ run_id ∷ [];
  comp = text "cde";
  recorded_red = none;
  deployed_red = some 1060;
}

abbrev views : List View
views =
    record { node = text "pve1"; vms = some (leftover ∷ []) }
    ∷ record { node = text "pve2"; vms = none }
    ∷ []

abbrev gone : ℕ → Option Occupant
gone vmid = some absent

abbrev test_dir : Text → Option Text
test_dir d = some d

abbrev no_vmid : Text → Option ℕ
no_vmid d = none

leftover_and_unlisted :
    (verify_clean true run_id stay detail no_vmid
      (λ d. false)
      test_dir
      (λ d. true)
      (λ d. 0)
      gone
      setting
      plan
      (some both)
      views
      archived).problems
    ≡ not_listed (text "pve2") ∷ still_standing (text "pve1") leftover ∷ []
unfolding verify_clean tezcatlipoca.Base.find tezcatlipoca.Base.keep tezcatlipoca.Base.subset
    tezcatlipoca.Tags.parse_vm_tags tezcatlipoca.Tags.is_space tezcatlipoca.Base.text_beq lookup
    tezcatlipoca.Base.any
leftover_and_unlisted = refl

nothing_left :
    (verify_clean true run_id stay detail no_vmid
      (λ d. false)
      test_dir
      (λ d. true)
      (λ d. 0)
      gone
      setting
      plan
      (some both)
      []
      archived).clean
    ≡ true
unfolding verify_clean tezcatlipoca.Base.find tezcatlipoca.Base.keep lookup
    tezcatlipoca.Base.text_beq tezcatlipoca.Base.any
nothing_left = refl

verify_clean_iff_example :
    ((verify_clean true run_id stay detail no_vmid
        (λ d. false)
        test_dir
        (λ d. true)
        (λ d. 0)
        gone
        setting
        plan
        (some both)
        views
        archived).clean
      ≡ true)
    ↔ IsClean true run_id stay detail no_vmid
        (λ d. false)
        test_dir
        (λ d. true)
        (λ d. 0)
        gone
        setting
        plan
        (some both)
        views
        archived
verify_clean_iff_example =
    verify_clean_iff true run_id stay detail no_vmid (λ d. false) test_dir (λ d. true) (λ d. 0) gone
      setting plan (some both) views archived
