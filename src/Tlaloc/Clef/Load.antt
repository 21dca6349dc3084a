-- ===== src/Tlaloc/Clef/Load.antt =====
-- tlaloc/tlaloc/decide.py: how often `ClefClient` asks a model that fails.
use tezcatlipoca.Base.{
  ℕ, zero, suc, ◌+◌, ◌*◌, ◌≤◌, ◌<◌, ◌≡◌, refl, sym, ◌⊎◌, inl, inr, Bool, none, some, List, [], ◌∷◌,
  arith, leb, All, Bool-cases,
}
use tezcatlipoca.Tlaloc.Clef.{
  Reply, raised, malformed, answered, Settings, Client, Question, fresh, available, note_failure,
  settle, ratio, ask, ask_all,
}

unfoldable pub IsFailure : {Payload : Type 0} → Reply Payload → Type 0
IsFailure (raised real) = Unit
IsFailure malformed = Unit
IsFailure (answered p n) = ⊥

mul_suc : (k n : ℕ) → suc k * n ≡ k * n + n
mul_suc k n = omega arith

module _ {F : Type 0} (s : Settings F) (start final : ℕ) where
  -- after having given up so many times
  record Counted (trips : ℕ) (c : Client F) : Type 0 where
    sent_of : c.sent ≡ trips * s.failure_threshold + c.failures
    few : c.failures < s.failure_threshold
    until : (trips ≡ 0) ⊎ (start + trips * s.cooldown ≤ c.disabled_until)
    begun : (c.failures ≡ 0) ⊎ (start + trips * s.cooldown ≤ final)
    given_up : (k : ℕ) → trips ≡ suc k → start + k * s.cooldown ≤ final

  past_pauses :
      (trips at : ℕ) (c : Client F)
      → start ≤ at
      → c.disabled_until ≤ at
      → (trips ≡ 0) ⊎ (start + trips * s.cooldown ≤ c.disabled_until)
      → start + trips * s.cooldown ≤ at
  past_pauses trips at c h0 h3 (inl zero_trips) = rw zero_trips (omega arith)
  past_pauses trips at c h0 h3 (inr pause) = omega arith

  failed-Counted :
      (trips at after : ℕ) (c : Client F)
      → start ≤ at
      → at ≤ after
      → after ≤ final
      → c.disabled_until ≤ at
      → Counted trips c
      → (k : ℕ) × Counted k (note_failure s after (record c { sent = suc c.sent }))
  unfolding note_failure
  failed-Counted trips at after c h0 h1 h2 h3 h =
      let past = past_pauses trips at c h0 h3 h.until in
      elim (Bool-cases (leb s.failure_threshold (suc c.failures))) [
        | inl e ↦ (
          suc trips,
          rw (note_failure, e)
              (record {
                sent_of = ground (arith, mul_suc trips s.failure_threshold, h.sent_of, h.few);
                few = ground (arith, h.few);
                until = inr (ground (arith, mul_suc trips s.cooldown));
                begun = inl refl;
                given_up = λ k same. let eq : trips ≡ k = omega arith in rw (sym eq) (omega arith);
              }),
        )
        | inr e ↦ (
          trips,
          rw (note_failure, e)
              (record {
                sent_of = ground (arith, h.sent_of);
                few = ground arith;
                until = h.until;
                begun = inr (omega arith);
                given_up = h.given_up;
              }),
        )
      ]

  same-Counted :
      (trips : ℕ) (c c' : Client F)
      → (c'.sent ≡ c.sent) × (c'.failures ≡ c.failures) × (c'.disabled_until ≡ c.disabled_until)
      → Counted trips c
      → Counted trips c'
  same-Counted trips c c' e h = record {
    sent_of = rw (e.0, e.1) h.sent_of;
    few = rw e.1 h.few;
    until = rw e.2 h.until;
    begun = rw e.1 h.begun;
    given_up = h.given_up;
  }

  load_of :
      (trips : ℕ) (c : Client F)
      → Counted trips c
      → (c.sent ≡ 0)
        ⊎ ((k : ℕ) × (start + k * s.cooldown ≤ final) × (c.sent ≤ suc k * s.failure_threshold))
  load_of trips c h = elim h.begun [
    | inr started ↦
        inr (trips, started, ground (arith, mul_suc trips s.failure_threshold, h.sent_of, h.few))
    | inl none_left ↦ of_trips trips refl none_left
  ]
    where
      of_trips :
          (k : ℕ)
          → trips ≡ k
          → c.failures ≡ 0
          → (c.sent ≡ 0)
            ⊎ ((k : ℕ) × (start + k * s.cooldown ≤ final) × (c.sent ≤ suc k * s.failure_threshold))
      of_trips zero e none_left = inl (let q = rw (e, none_left) at h.sent_of in omega arith)
      of_trips (suc k) e none_left =
          inr (k, h.given_up k e, let q = rw (e, none_left) at h.sent_of in omega arith)

module _ {F Payload : Type 0} (bigger : F → F → F) (nought : F) (exceeds : ℕ → F → ℕ → Bool)
    (implied : ℕ → ℕ → F) (s : Settings F) (start final : ℕ) where
  -- a call between two times that gets no answer
  unfoldable pub Fails : Question Payload → Type 0
  Fails q = IsFailure q.reply × (start ≤ q.at) × (q.at ≤ q.after) × (q.after ≤ final)

  -- a failure is counted, and is the last before a pause or not
  settle-failure :
      (chars after : ℕ) (r : Reply Payload) (c : Client F)
      → IsFailure r
      → let c' = (settle bigger nought exceeds implied s chars after r c).1 in
        let c'' = note_failure s after c in
        (c'.sent ≡ c''.sent)
        × (c'.failures ≡ c''.failures)
        × (c'.disabled_until ≡ c''.disabled_until)
  unfolding settle IsFailure
  settle-failure chars after (raised none) c h = (refl, refl, refl)
  settle-failure chars after (raised (some zero)) c h = (refl, refl, refl)
  settle-failure chars after (raised (some (suc real))) c h = (refl, refl, refl)
  settle-failure chars after malformed c h = (refl, refl, refl)
  settle-failure chars after (answered p n) c h = absurd h

  ask-Counted :
      (trips : ℕ) (q : Question Payload) (c : Client F)
      → Fails q
      → Counted s start final trips c
      → (k : ℕ) × Counted s start final k (ask bigger nought exceeds implied s q c).1
  unfolding ask available Fails
  ask-Counted trips q c f h = elim (Bool-cases (available s q.at c)) [
    | inr e ↦ (trips, rw (ask, e) h)
    | inl e ↦ elim (Bool-cases (exceeds q.chars (ratio s bigger nought c) s.max_request_tokens)) [
      | inl x ↦ (trips, rw (ask, e, x) h)
      | inr x ↦
          let made =
            failed-Counted s start final trips q.at q.after c f.1 f.2 f.3 (ground arith) h in
          let same = settle-failure q.chars q.after q.reply (record c { sent = suc c.sent }) f.0 in
          (made.0, rw (ask, e, x) (same-Counted s start final made.0 _ _ same made.1))
    ]
  ]

  ask_all-Counted :
      (trips : ℕ) (qs : List (Question Payload)) (c : Client F)
      → All Fails qs
      → Counted s start final trips c
      → (k : ℕ) × Counted s start final k (ask_all bigger nought exceeds implied s qs c)
  unfolding ask_all
  ask_all-Counted trips [] c f h = (trips, h)
  ask_all-Counted trips (q ∷ qs) c f h =
      let one = ask-Counted trips q c f.0 h in ask_all-Counted one.0 qs _ f.1 one.1

  -- A client whose failure threshold is not 0 and whose calls all lie between two times and get no
  -- answer has sent no request, or at most its failure threshold for each cooldown that begins in
  -- that time.
  pub ask_all-load :
      (qs : List (Question Payload))
      → 0 < s.failure_threshold
      → All Fails qs
      → ((ask_all bigger nought exceeds implied s qs fresh).sent ≡ 0)
        ⊎ ((k : ℕ) × (start + k * s.cooldown ≤ final)
            × ((ask_all bigger nought exceeds implied s qs fresh).sent
                ≤ suc k * s.failure_threshold))
  unfolding fresh
  ask_all-load qs pos f =
      let end = ask_all-Counted 0 qs fresh f (record {
        sent_of = omega arith;
        few = pos;
        until = inl refl;
        begun = inl refl;
        given_up = λ k same. absurd (omega arith);
      }) in
      load_of s start final end.0 _ end.1
