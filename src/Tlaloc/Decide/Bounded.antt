-- ===== src/Tlaloc/Decide/Bounded.antt =====
-- tlaloc/tlaloc/decide.py: what `next_effect` may answer.
use tezcatlipoca.Base.{Bool, true, ◌≡◌, ◌⊎◌, Option, some, List, [], ◌∷◌, Text, text, text_eq}
use tezcatlipoca.Tlaloc.Decide.{
  Listed, clef, llm_arbiter, deterministic, Decision, high_stakes, decision, hold,
}

-- a candidate of that name stands in the list
pub IsListed : List Listed → Listed → Type 0
IsListed [] c = ⊥
IsListed (d ∷ ds) c = (d ≡ c) ⊎ IsListed ds c

-- The model's hold or choice only where its probability is high enough, the arbiter's choice only
-- where the stakes are high, and else the first candidate.
pub Outcome : List Text → Listed → List Listed → Bool → Option Text → Decision → Type 0
Outcome effects first cs above picked d =
    ((d ≡ hold clef) × (above ≡ true) × (picked ≡ some (text "hold")))
    ⊎ ((c : Listed) × IsListed cs c
        × (((d ≡ decision clef c) × (above ≡ true) × (picked ≡ some c.id))
            ⊎ (((d ≡ decision llm_arbiter c) × (high_stakes effects cs picked ≡ true))
                ⊎ ((d ≡ decision deterministic c) × (c ≡ first)))))
