-- ===== src/Teardown/Order.antt =====
-- teardown/plan.py: the plans that can be built are those with evidence before destruction.
use tezcatlipoca.Base.{
  ℕ, zero, suc, ◌≤◌, Bool, true, false, ◌||◌, ◌≡◌, refl, ◌↔◌, Option, none, List, [], ◌∷◌, arith,
  ltb, if◌then◌else◌, Text,
}
use tezcatlipoca.Base.Actions.{Result}
use tezcatlipoca.Teardown.{
  Step, is_evidence, evidence_idx, maximum, destroys, first_violation, check_order, make_plan,
}

le-maximum : (m : ℕ) (xs : List ℕ) → m ≤ maximum m xs
unfolding maximum
le-maximum m [] = omega arith
le-maximum m (x ∷ xs) = ground (arith, le-maximum m xs, le-maximum x xs)

maximum_from_zero : (x : ℕ) (xs : List ℕ) → maximum zero (x ∷ xs) ≡ maximum x xs
unfolding maximum
maximum_from_zero x xs = ground arith

module _ {W D : Type 0} where
  abbrev pub has_evidence : List (Step W D) → Bool
  has_evidence [] = false
  has_evidence (s ∷ ss) = is_evidence s.kind || has_evidence ss

  -- behind a destructive teardown step there is no evidence step
  abbrev pub EvidenceFirst : List (Step W D) → Type 0
  EvidenceFirst [] = Unit
  EvidenceFirst (s ∷ ss) = (destroys s ≡ true → has_evidence ss ≡ false) × EvidenceFirst ss

  last_of_none :
      (m i : ℕ) (ss : List (Step W D)) → has_evidence ss ≡ false → maximum m (evidence_idx i ss) ≡ m
  unfolding maximum evidence_idx
  last_of_none m i [] h = refl
  last_of_none m i (s ∷ ss) h = ground (arith, last_of_none m (suc i) ss)

  last_of_some :
      (m i : ℕ) (ss : List (Step W D))
      → m ≤ i
      → has_evidence ss ≡ true
      → i ≤ maximum m (evidence_idx i ss)
  unfolding maximum evidence_idx
  last_of_some m i [] h e = cc
  last_of_some m i (s ∷ ss) h e = ground (
    arith,
    last_of_some m (suc i) ss,
    le-maximum m (evidence_idx (suc i) ss),
    le-maximum i (evidence_idx (suc i) ss),
  )

  -- the last evidence position, seen from one position further
  last_step :
      (m i : ℕ) (s : Step W D) (ss : List (Step W D))
      → m ≤ i
      → maximum m (evidence_idx i (s ∷ ss))
        ≡ maximum (if is_evidence s.kind then i else m) (evidence_idx (suc i) ss)
  unfolding maximum evidence_idx
  last_step m i s ss h = ground arith

  later_evidence :
      (m i : ℕ) (ss : List (Step W D))
      → m ≤ i
      → ltb i (maximum m (evidence_idx (suc i) ss)) ≡ has_evidence ss
  later_evidence m i ss h = ground (arith, last_of_none m (suc i) ss, last_of_some m (suc i) ss)

  moved : (s : Step W D) (m i : ℕ) → m ≤ i → (if is_evidence s.kind then i else m) ≤ i
  moved s m i h = ground arith

  violation→EvidenceFirst :
      (m i : ℕ) (ss : List (Step W D))
      → m ≤ i
      → first_violation (maximum m (evidence_idx i ss)) i ss ≡ none
      → EvidenceFirst ss
  unfolding first_violation
  violation→EvidenceFirst m i [] h e = tt
  violation→EvidenceFirst m i (s ∷ ss) h e =
      let m' = if is_evidence s.kind then i else m in
      let last = last_step m i s ss h in
      let bound = moved s m i h in
      let none_here = rw last at e in
      (
        ground (arith, later_evidence m' i ss bound, none_here),
        violation→EvidenceFirst m' (suc i) ss (omega (arith, bound))
            (ground (arith, later_evidence m' i ss bound, none_here)),
      )

  EvidenceFirst→violation :
      (m i : ℕ) (ss : List (Step W D))
      → m ≤ i
      → EvidenceFirst ss
      → first_violation (maximum m (evidence_idx i ss)) i ss ≡ none
  unfolding first_violation
  EvidenceFirst→violation m i [] h e = refl
  EvidenceFirst→violation m i (s ∷ ss) h e =
      let m' = if is_evidence s.kind then i else m in
      let bound = moved s m i h in
      let rest = EvidenceFirst→violation m' (suc i) ss (omega (arith, bound)) e.1 in
      ground (arith, later_evidence m' i ss bound, rest, e.0, last_step m i s ss h)

  idx_head : (i : ℕ) (ss : List (Step W D)) → (evidence_idx i ss ≡ []) ↔ (has_evidence ss ≡ false)
  unfolding evidence_idx
  idx_head i [] = (λ h. refl, λ h. refl)
  idx_head i (s ∷ ss) = ground (arith, idx_head (suc i) ss)

  check_order_lem :
      (steps : List (Step W D))
      → (check_order steps (evidence_idx 0 steps) ≡ none)
        ↔ ((has_evidence steps ≡ true) × EvidenceFirst steps)
  unfolding check_order
  check_order_lem steps = found (evidence_idx 0 steps) refl
    where
      found :
          (l : List ℕ)
          → evidence_idx 0 steps ≡ l
          → (check_order steps l ≡ none) ↔ ((has_evidence steps ≡ true) × EvidenceFirst steps)
      found [] e = (λ h. cc, λ h. ground (arith, (idx_head 0 steps).0 e))
      found (x ∷ xs) e =
          let last : maximum zero (evidence_idx 0 steps) ≡ maximum x xs =
            rw e (maximum_from_zero x xs) in
          let has : has_evidence steps ≡ true = ground (arith, (idx_head 0 steps).1, e) in
          (
            λ h. (has, violation→EvidenceFirst 0 0 steps (omega arith) (rw last h)),
            λ h. rw (← last) (EvidenceFirst→violation 0 0 steps (omega arith) h.1),
          )

  -- `TeardownPlan(gates, steps)` is constructed exactly when there is an evidence step and no
  -- destructive teardown step stands before one; the plan then has these gates and steps.
  pub make_plan_iff :
      (gates : List (W → Option Text)) (steps : List (Step W D))
      → (make_plan gates steps ≡ Result.ok (record { gates = gates; steps = steps }))
        ↔ ((has_evidence steps ≡ true) × EvidenceFirst steps)
  unfolding make_plan
  make_plan_iff gates steps = (
    λ h. (check_order_lem steps).0 (ground arith),
    λ h. rw ((check_order_lem steps).1 h, make_plan),
  )
