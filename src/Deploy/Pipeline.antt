-- ===== src/Deploy/Pipeline.antt =====
-- deploy_lib/runner.py: what a deploy leaves for the next one to resume from.
use tezcatlipoca.Base.{
  ℕ, suc, ◌+◌, ◌≤◌, ◌<◌, true, false, ◌≡◌, refl, sym, ap, ◌∙◌, ◌⊎◌, inl, Option, some, List, [],
  ◌∷◌, arith, leb, if◌then◌else◌, length,
}
use tezcatlipoca.Base.Actions.{Result, ok, err}
use tezcatlipoca.Deploy.{
  last_or_zero, guard_resume_from_phase, Phase, Context, Failed, after_call, turn, walk, unpark,
  run_pipeline,
}

module _ {E W : Type 0} (connect_estate : Phase E W) (pause_at_boundary : ℕ → Phase E W)
    (from : ℕ) where
  abbrev one_turn : ℕ → Phase E W → ℕ → Context W → Result (Failed E) (Unit {0}) × Context W
  one_turn = turn connect_estate pause_at_boundary from

  -- what one turn of the loop does to the checkpoint
  turn_skipped :
      (n : ℕ) (phase : Phase E W) (now : ℕ) (ctx : Context W)
      → leb from n ≡ false
      → (one_turn n phase now ctx).1.saved ≡ ctx.saved
  unfolding turn
  turn_skipped n phase now ctx h = ground arith

  turn_done :
      (n : ℕ) (phase : Phase E W) (now : ℕ) (ctx : Context W)
      → leb from n ≡ true
      → (one_turn n phase now ctx).0 ≡ ok tt
      → (one_turn n phase now ctx).1.saved ≡ some n
  unfolding turn
  turn_done n phase now ctx h e = ground arith

  turn_failed :
      (n : ℕ) (phase : Phase E W) (now : ℕ) (ctx : Context W) (f : Failed E)
      → (one_turn n phase now ctx).0 ≡ err f
      → (f.phase ≡ now)
        × (((one_turn n phase now ctx).1.saved ≡ ctx.saved)
            ⊎ ((leb from n ≡ true) × ((one_turn n phase now ctx).1.saved ≡ some n)))
  unfolding turn
  turn_failed n phase now ctx f e = ground arith

  -- What holds before phase `n` with `c` as the phase that a failure would name: `first` is the
  -- checkpoint that the run began with.
  record Standing (first : Option ℕ) (n c : ℕ) (saved : Option ℕ) : Type 0 where
    hint : c ≤ last_or_zero saved + 1
    ahead : n ≤ from → c ≡ from
    behind : from < n → n ≤ last_or_zero saved + 1
    late : from < n → c ≤ n
    kept : (saved ≡ first) ⊎ (last_or_zero saved ≤ c)

  abbrev Left : Option ℕ → ℕ → Option ℕ → Type 0
  Left first c saved = (c ≤ last_or_zero saved + 1) × ((saved ≡ first) ⊎ (last_or_zero saved ≤ c))

  abbrev now_at : ℕ → ℕ → ℕ
  now_at n c = if leb from n then n else c

  now_le :
      {first saved : Option ℕ} (n c : ℕ) → Standing first n c saved → Left first (now_at n c) saved
  now_le n c h = ground arith

  advanced :
      {first saved saved' : Option ℕ} (n c : ℕ)
      → Standing first n c saved
      → (leb from n ≡ true → saved' ≡ some n)
      → (leb from n ≡ false → saved' ≡ saved)
      → Standing first (suc n) (now_at n c) saved'
  advanced n c h ran skipped = record {
    hint = ground arith;
    ahead = ground arith;
    behind = ground arith;
    late = ground arith;
    kept = ground arith;
  }

  stopped :
      {first saved saved' : Option ℕ} {phase : ℕ} (n c : ℕ)
      → Standing first n c saved
      → phase ≡ now_at n c
      → (saved' ≡ saved) ⊎ ((leb from n ≡ true) × (saved' ≡ some n))
      → Left first phase saved'
  stopped n c h named wrote = ground (arith, now_le n c h)

  walk_left :
      (first : Option ℕ) (phases : List (Phase E W)) (n c : ℕ) (ctx : Context W) (f : Failed E)
      → Standing first n c ctx.saved
      → (walk connect_estate pause_at_boundary from n c phases ctx).0 ≡ err f
      → Left first f.phase (walk connect_estate pause_at_boundary from n c phases ctx).1.saved
  unfolding walk
  walk_left first [] n c ctx f h = λ e. cc
  walk_left first (phase ∷ phases) n c ctx f h =
      turned (walk_left first phases (suc n) (now_at n c) after f) result refl
    where
      now : ℕ
      now = now_at n c

      result : Result (Failed E) (Unit {0})
      result = (one_turn n phase (now_at n c) ctx).0

      after : Context W
      after = (one_turn n phase (now_at n c) ctx).1

      next : result ≡ ok tt → Standing first (suc n) (now_at n c) after.saved
      next q =
          advanced n c h (λ runs. turn_done n phase (now_at n c) ctx runs q)
            (λ skips. turn_skipped n phase (now_at n c) ctx skips)

      failed :
          (r : Result (Failed E) (Unit {0}))
          → result ≡ r
          → r ≡ err f
          → Left first f.phase after.saved
      failed r q e = let t = turn_failed n phase (now_at n c) ctx f (q ∙ e) in stopped n c h t.0 t.1

      turned :
          (Standing first (suc n) (now_at n c) after.saved
            → (walk connect_estate pause_at_boundary from (suc n) (now_at n c) phases after).0
              ≡ err f
            → Left first f.phase
                (walk connect_estate pause_at_boundary from
                  (suc n)
                  (now_at n c)
                  phases
                  after).1.saved)
          → (r : Result (Failed E) (Unit {0})) → result ≡ r
          → (after_call connect_estate pause_at_boundary from
              (r, after)
              (walk connect_estate pause_at_boundary from (suc n) (now_at n c) phases)).0
            ≡ err f
          → Left first f.phase
              (after_call connect_estate pause_at_boundary from
                (r, after)
                (walk connect_estate pause_at_boundary from (suc n) (now_at n c) phases)).1.saved
      turned ih (ok u) q e = ih (next q) e
      turned ih (err g) q e = failed (err g) q e

  rest_of :
      (r : Result (Failed E) (Unit {0})) (ctx : Context W)
      (k : Context W → Result (Failed E) (Unit {0}) × Context W)
      → (after_call connect_estate pause_at_boundary from (r, ctx) k).0 ≡ ok tt
      → (r ≡ ok tt) × (after_call connect_estate pause_at_boundary from (r, ctx) k ≡ k ctx)
  rest_of (ok u) ctx k e = (refl, refl)
  rest_of (err g) ctx k e = cc

  walk_done :
      (phase : Phase E W) (phases : List (Phase E W)) (n c : ℕ) (ctx : Context W)
      → from ≤ n + length phases
      → (walk connect_estate pause_at_boundary from n c (phase ∷ phases) ctx).0 ≡ ok tt
      → (walk connect_estate pause_at_boundary from n c (phase ∷ phases) ctx).1.saved
        ≡ some (n + length phases)
  unfolding walk
  walk_done phase [] n c ctx l e =
      let after = one_turn n phase (now_at n c) ctx in
      let r =
        rest_of after.0 after.1 (walk connect_estate pause_at_boundary from (suc n) (now_at n c) [])
          e in
      ap (λ t. t.1.saved) r.1 ∙ turn_done n phase (now_at n c) ctx (ground arith) r.0 ∙ ground arith
  walk_done phase (next ∷ phases) n c ctx l e =
      let after = one_turn n phase (now_at n c) ctx in
      let r =
        rest_of after.0 after.1
          (walk connect_estate pause_at_boundary from (suc n) (now_at n c) (next ∷ phases)) e in
      ap (λ t. t.1.saved) r.1
      ∙ walk_done next phases (suc n) (now_at n c) after.1 (ground arith)
          (sym (ap (λ t. t.0) r.1) ∙ e)
      ∙ ground arith

  run_left :
      (phases : List (Phase E W)) (ctx : Context W) (f : Failed E)
      → ctx.saved ≡ ctx.last_phase
      → guard_resume_from_phase from ctx.saved false ≡ ok tt
      → (run_pipeline connect_estate pause_at_boundary from phases ctx).0 ≡ err f
      → Left ctx.last_phase f.phase
          (run_pipeline connect_estate pause_at_boundary from phases ctx).1.saved
  unfolding run_pipeline unpark guard_resume_from_phase
  run_left phases ctx f same allowed e =
      walk_left ctx.last_phase phases 1 (if leb from 1 then 1 else from) (unpark ctx) f standing e
    where
      kept : (unpark ctx).saved ≡ ctx.saved
      kept = ground arith

      standing : Standing ctx.last_phase 1 (if leb from 1 then 1 else from) (unpark ctx).saved
      standing = record {
        hint = ground arith;
        ahead = ground arith;
        behind = ground arith;
        late = ground arith;
        kept = inl (kept ∙ same);
      }

  -- The phase that a failed run names is one from which the saved state lets a run resume, for a
  -- run that itself was let in and whose checkpoint in memory is the saved one.
  pub resume_hint :
      (phases : List (Phase E W)) (ctx : Context W) (f : Failed E)
      → ctx.saved ≡ ctx.last_phase
      → guard_resume_from_phase from ctx.saved false ≡ ok tt
      → (run_pipeline connect_estate pause_at_boundary from phases ctx).0 ≡ err f
      → guard_resume_from_phase f.phase
          (run_pipeline connect_estate pause_at_boundary from phases ctx).1.saved
          false
        ≡ ok tt
  unfolding guard_resume_from_phase
  resume_hint phases ctx f same allowed e = ground (arith, run_left phases ctx f same allowed e)

  -- A run that succeeds leaves the last phase as the checkpoint, whatever phase from the first to
  -- the last it was asked to begin at.
  pub checkpoint_complete :
      (phase : Phase E W) (phases : List (Phase E W)) (ctx : Context W)
      → from ≤ length (phase ∷ phases)
      → (run_pipeline connect_estate pause_at_boundary from (phase ∷ phases) ctx).0 ≡ ok tt
      → (run_pipeline connect_estate pause_at_boundary from (phase ∷ phases) ctx).1.saved
        ≡ some (length (phase ∷ phases))
  unfolding run_pipeline
  checkpoint_complete phase phases ctx within e =
      walk_done phase phases 1 (if leb from 1 then 1 else from) (unpark ctx) (ground arith) e
      ∙ ground arith

  -- A run that fails leaves the checkpoint that it began with, or one that is not past the phase
  -- the failure names.
  pub checkpoint_behind :
      (phases : List (Phase E W)) (ctx : Context W) (f : Failed E)
      → ctx.saved ≡ ctx.last_phase
      → guard_resume_from_phase from ctx.saved false ≡ ok tt
      → (run_pipeline connect_estate pause_at_boundary from phases ctx).0 ≡ err f
      → ((run_pipeline connect_estate pause_at_boundary from phases ctx).1.saved ≡ ctx.saved)
        ⊎ (last_or_zero (run_pipeline connect_estate pause_at_boundary from phases ctx).1.saved
            ≤ f.phase)
  checkpoint_behind phases ctx f same allowed e =
      ground (arith, run_left phases ctx f same allowed e)
