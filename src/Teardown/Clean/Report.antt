-- ===== src/Teardown/Clean/Report.antt =====
-- teardown/engine.py: when a report is clean.
use tezcatlipoca.Base.{
  ℕ, ◌≤◌, Bool, true, false, ◌&&◌, ◌≡◌, refl, sym, ◌∙◌, ◌↔◌, Option, none, some, List, [], ◌∷◌,
  ◌++◌, map, arith, is_empty, length, subset, any, find, keep, All, Text, text, text_eq,
}
use tezcatlipoca.Base.Dict.{lookup}
use tezcatlipoca.Tags.{parse_vm_tags}
use tezcatlipoca.Proxmox.{Vm}
use tezcatlipoca.Red.{Occupant, absent, ours, another_run, foreign, unmarked, unknown}
use tezcatlipoca.Teardown.{StepResult, Step, is_evidence, is_failed, TeardownPlan, Journal}
use tezcatlipoca.Teardown.Inventory.{View, listing_failed, listed_vms, owned}
use tezcatlipoca.Teardown.Clean.{
  not_listed, Setting, result_problems, may_stay, standing, red_problems, red_report,
  evidence_report, journal_done, entry_of, red_was_there, red_vmid, red_part, evidence_part,
  verify_clean,
}

-- the execution, if there was one, has run every step and none has failed
abbrev pub Finished : Option (List StepResult) → ℕ → Type 0
Finished none steps = Unit
Finished (some results) steps =
    (any (λ r. is_failed r.status) results ≡ false) × (steps ≤ length results)

abbrev pub IsListed : View → Type 0
IsListed v = (vms : List Vm) × (v.vms ≡ some vms)

-- a listed VM that carries the ownership set is a template that this teardown leaves, and is off
abbrev pub AllGone : Bool → List Text → List (Text × Vm) → Type 0
AllGone full ownership =
    All (λ p. subset ownership (parse_vm_tags p.1.tags) ≡ true → may_stay full p.1 ≡ true)

-- who may hold red01's vmid: nobody, another run or competition, or, if red01 was never there, one
-- that cannot be told
abbrev pub Settled : Bool → Option Occupant → Type 0
Settled expected none = expected ≡ false
Settled expected (some absent) = Unit
Settled expected (some ours) = ⊥
Settled expected (some another_run) = Unit
Settled expected (some foreign) = Unit
Settled expected (some unmarked) = ⊥
Settled expected (some unknown) = expected ≡ false

abbrev SettledAt : (ℕ → Option Occupant) → Bool → Option ℕ → Type 0
SettledAt occupant expected none = Unit
SettledAt occupant expected (some vmid) = Settled expected (occupant vmid)

abbrev ArchivedAt : (Text → Bool) → Option Text → Type 0
ArchivedAt exists none = ⊥
ArchivedAt exists (some dir) = (is_empty dir ≡ false) × (exists dir ≡ true)

is_empty-append {ℓ} :
    {A : Type ℓ} (xs ys : List A) → is_empty (xs ++ ys) ≡ (is_empty xs && is_empty ys)
is_empty-append [] ys = refl
is_empty-append (x ∷ xs) ys = refl

find-any {ℓ} :
    {A : Type ℓ} (test : A → Bool) (xs : List A) → (find test xs ≡ none) ↔ (any test xs ≡ false)
unfolding find any
find-any test [] = (λ h. refl, λ h. refl)
find-any test (x ∷ xs) = ground (arith, find-any test xs)

result_problems-Finished :
    (results : Option (List StepResult)) (steps : ℕ)
    → (is_empty (result_problems results steps) ≡ true) ↔ Finished results steps
unfolding result_problems
result_problems-Finished none steps = (λ h. tt, λ h. refl)
result_problems-Finished (some results) steps =
    ground (arith, find-any (λ r. is_failed r.status) results)

listed_none : (v : View) (vms : List Vm) → v.vms ≡ none → v.vms ≡ some vms → ⊥
listed_none v vms e h = cc

listing_failed-IsListed :
    (views : List View) → (is_empty (listing_failed views) ≡ true) ↔ All IsListed views
unfolding listing_failed
listing_failed-IsListed [] = (λ h. tt, λ h. refl)
listing_failed-IsListed (v ∷ vs) = listed (listing_failed-IsListed vs) v.vms refl
  where
    listed :
        ((is_empty (listing_failed vs) ≡ true) ↔ All IsListed vs)
        → (o : Option (List Vm)) → v.vms ≡ o
        → (is_empty (listing_failed (v ∷ vs)) ≡ true) ↔ (IsListed v × All IsListed vs)
    listed rest none e = (λ h. cc, λ h. absurd (listed_none v h.0.0 e h.0.1))
    listed rest (some vms) e =
        rw (e, listing_failed) (λ h. ((vms, refl), rest.0 h), λ h. rest.1 h.1)

standing-AllGone :
    (full : Bool) (ownership : List Text) (vms : List (Text × Vm))
    → (is_empty (standing full (keep (λ p. subset ownership (parse_vm_tags p.1.tags)) vms)) ≡ true)
      ↔ AllGone full ownership vms
unfolding standing keep
standing-AllGone full ownership [] = (λ h. tt, λ h. refl)
standing-AllGone full ownership ((node, vm) ∷ vms) =
    ground (arith, standing-AllGone full ownership vms)

red_report-Settled :
    (occupant : ℕ → Option Occupant) (expected : Bool) (vmid : Option ℕ)
    → (is_empty (red_report occupant expected vmid).0 ≡ true) ↔ SettledAt occupant expected vmid
unfolding red_report red_problems
red_report-Settled occupant expected none = (λ h. tt, λ h. refl)
red_report-Settled occupant expected (some vmid) = held (occupant vmid)
  where
    held : (o : Option Occupant) → (is_empty (red_problems expected o) ≡ true) ↔ Settled expected o
    held none = ground arith
    held (some absent) = (λ h. tt, λ h. refl)
    held (some ours) = (λ h. cc, λ h. absurd h)
    held (some another_run) = (λ h. tt, λ h. refl)
    held (some foreign) = (λ h. tt, λ h. refl)
    held (some unmarked) = (λ h. cc, λ h. absurd h)
    held (some unknown) = ground arith

evidence_report-Archived :
    (exists : Text → Bool) (lost : Text → ℕ) (dir : Option Text)
    → (is_empty (evidence_report exists lost dir).0 ≡ true) ↔ ArchivedAt exists dir
unfolding evidence_report
evidence_report-Archived exists lost none = (λ h. cc, λ h. absurd h)
evidence_report-Archived exists lost (some dir) = ground arith

map-empty : (xs : List Text) → is_empty (map not_listed xs) ≡ is_empty xs
map-empty [] = refl
map-empty (x ∷ xs) = refl

all_empty :
    {A : Type 0} (a b c d e : List A)
    → (is_empty (a ++ (b ++ (c ++ (d ++ e)))) ≡ true) ↔ (
        (is_empty a ≡ true)
        × (is_empty b ≡ true)
        × (is_empty c ≡ true)
        × (is_empty d ≡ true)
        × (is_empty e ≡ true))
all_empty a b c d e = ground (
  arith,
  is_empty-append a (b ++ (c ++ (d ++ e))),
  is_empty-append b (c ++ (d ++ e)),
  is_empty-append c (d ++ e),
  is_empty-append d e,
)

module _ {W D : Type 0} (journal_enabled : Bool) (run_id : Text) (invalidate : W → W)
    (entry_detail : D → Text) (entry_vmid : D → Option ℕ) (entry_skipped : D → Bool)
    (entry_test_dir : D → Option Text) (exists : Text → Bool) (lost : Text → ℕ)
    (occupant : ℕ → Option Occupant) where
  abbrev pub journalled : Option (Journal D) → List (Text × D)
  journalled =
      journal_done journal_enabled run_id invalidate entry_detail entry_vmid entry_skipped
        entry_test_dir exists lost occupant

  abbrev pub SettledRed : Setting → List (Text × D) → Type 0
  SettledRed ctx done =
      let entry = lookup (text "red01") done in
      ctx.keep_red ≡ false
      → SettledAt occupant (red_was_there entry_skipped ctx.deployed_red entry)
          (red_vmid entry_vmid ctx entry)

  abbrev pub Archived : List (Step W D) → List (Text × D) → Type 0
  Archived steps done =
      is_empty done ≡ false
      → any (λ s. is_evidence s.kind) steps ≡ true
      → ArchivedAt exists (entry_of entry_test_dir (lookup (text "artifacts") done))

  -- What a clean report says: the execution was complete, every node could be listed, nothing of
  -- ours stands but templates that stay, red01 is settled, and the evidence is archived.
  pub record IsClean (ctx : Setting) (plan : TeardownPlan W D) (results : Option (List StepResult))
      (views : List View) (saved : Option (Journal D)) : Type 0 where
    pub finished : Finished results (length plan.steps)
    pub listed : All IsListed views
    pub gone : AllGone ctx.full ctx.ownership (listed_vms views)
    pub red : SettledRed ctx (journalled saved)
    pub archived : Archived plan.steps (journalled saved)

  red_part-Settled :
      (ctx : Setting) (done : List (Text × D))
      → (is_empty
            (red_part journal_enabled run_id invalidate entry_detail entry_vmid entry_skipped
              entry_test_dir exists lost occupant ctx done).0
          ≡ true)
        ↔ SettledRed ctx done
  unfolding red_part
  red_part-Settled ctx done =
      let entry = lookup (text "red01") done in
      ground (
        arith,
        red_report-Settled occupant (red_was_there entry_skipped ctx.deployed_red entry)
            (red_vmid entry_vmid ctx entry),
      )

  evidence_part-Archived :
      (steps : List (Step W D)) (done : List (Text × D))
      → (is_empty
            (evidence_part journal_enabled run_id invalidate entry_detail entry_vmid entry_skipped
              entry_test_dir exists lost occupant steps done).0
          ≡ true)
        ↔ Archived steps done
  unfolding evidence_part
  evidence_part-Archived steps done = ground (
    arith,
    evidence_report-Archived exists lost (entry_of entry_test_dir (lookup (text "artifacts") done)),
  )

  -- `verify_clean` reports an estate as clean exactly when the results, if it was given some, have
  -- one that is not failed for every step of the plan, every node could be listed, each listed VM
  -- that carries the ownership set is a role template that is off, in a teardown that leaves such,
  -- red01's vmid is settled unless red01 is kept, and, if the journal is not empty and the plan has
  -- evidence steps, the recorded artifact folder exists.
  pub verify_clean_iff :
      (ctx : Setting) (plan : TeardownPlan W D) (results : Option (List StepResult))
      (views : List View) (saved : Option (Journal D))
      → ((verify_clean journal_enabled run_id invalidate entry_detail entry_vmid entry_skipped
            entry_test_dir exists lost occupant ctx plan results views saved).clean
          ≡ true)
        ↔ IsClean ctx plan results views saved
  unfolding verify_clean owned
  verify_clean_iff ctx plan results views saved =
      let done = journalled saved in
      let complete = result_problems-Finished results (length plan.steps) in
      let listings = listing_failed-IsListed views in
      let unlisted = map-empty (listing_failed views) in
      let remains = standing-AllGone ctx.full ctx.ownership (listed_vms views) in
      let red = red_part-Settled ctx done in
      let evidence = evidence_part-Archived plan.steps done in
      let parts =
        all_empty (result_problems results (length plan.steps))
          (map not_listed (listing_failed views)) (standing ctx.full (owned ctx.ownership views)) _
          _ in
      (
        λ h.
            let q = parts.0 h in
            record {
              finished = complete.0 q.0;
              listed = listings.0 (sym unlisted ∙ q.1);
              gone = remains.0 q.2;
              red = red.0 q.3;
              archived = evidence.0 q.4;
            },
        λ r. parts.1 (
          complete.1 r.finished,
          unlisted ∙ listings.1 r.listed,
          remains.1 r.gone,
          red.1 r.red,
          evidence.1 r.archived,
        ),
      )
